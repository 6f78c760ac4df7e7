-- ===== src/App/Api/Reads.antt =====
-- `GET /v1/quote-updates/{id}` over the PostgreSQL store.
use fx_quotes.Prelude.{
  ◌≡◌, ◌≢◌, refl, sym, ap, ◌∙◌, In-cases, true, false, inl, inr, Bool, List, [], ◌∷◌, Option, none,
  some, Result, ok, err, Bool-cases, Memᴰ,
}
use fx_quotes.Text.{Text, codes, text_eq, trim_prefix}
use fx_quotes.Text.Laws.{text_eq_iff}
use fx_quotes.Entity.Update.{QuoteUpdate}
use fx_quotes.Usecase.Commands.{Fault, StoreError, not_found, database}
use fx_quotes.Usecase.Retry.{RetryPolicy}
use fx_quotes.Postgres.Schema.{Row, Db}
use fx_quotes.Postgres.Row.{scan_update}
use fx_quotes.Postgres.Tx.{trip, bind_result, lift, ◌>>=◌, ◌>>◌}
use fx_quotes.Postgres.Queue.Completion.{find_row}
use fx_quotes.Postgres.Store.{get_update, or_not_found}
use fx_quotes.Postgres.Steps.{Limits}
use fx_quotes.Postgres.Invariant.{Inv}
use fx_quotes.Postgres.Claim.{all_pass-In}
use fx_quotes.Postgres.Worker.{Env, StoreState, worker_service}
use fx_quotes.Http.Request.{Request, is_uuid}
use fx_quotes.Http.Response.{Response, update, write_json, write_problem, write_error}
use fx_quotes.Http.Dto.{Formats, UpdateDto}
use fx_quotes.Http.Handler.{
  Handler, Library, answered, get_update as handle_get_update, after_get_update,
}
use fx_quotes.Http.Router.{update_prefix}
use fx_quotes.App.Api.{service_api}
use fx_quotes.App.Api.Rows.{ShowsRow, IsUnreadable, row_check-Shows}

find_row-In :
    (id : Text) (rows : List Row) {r : Row} → find_row id rows ≡ some r → Memᴰ r rows × (r.id ≡ id)
unfolding find_row
find_row-In id [] h = cc h
find_row-In id (x ∷ xs) {r} h = elim (Bool-cases (text_eq x.id id)) [
  | inl hit ↦
      let e : x ≡ r = cc (rw hit at h) in (Memᴰ.head (sym e), rw e at ((text_eq_iff x.id id).0 hit))
  | inr miss ↦ let (m, e) = find_row-In id xs (rw miss at h) in (Memᴰ.tail m, e)
]

find_row-none :
    (id : Text) (rows : List Row) {r : Row} → find_row id rows ≡ none → Memᴰ r rows → r.id ≢ id
unfolding find_row
find_row-none id [] h m = elim m [ ]
find_row-none id (x ∷ xs) {r} h m = elim (Bool-cases (text_eq x.id id)) [
  | inl hit ↦ cc (rw hit at h)
  | inr miss ↦ elim (In-cases m) [
    | inl e ↦ λ same. cc (miss, (text_eq_iff x.id id).1 (ap (λ (v : Row). v.id) (sym e) ∙ same))
    | inr k ↦ find_row-none id xs (rw miss at h) k
  ]
]

-- The driver does not take the id for a UUID, or no row has it in its canonical form.
abbrev IsMissing : Db → Option Text → Type 0
IsMissing db none = Unit
IsMissing db (some id) = (r : Row) → Memᴰ r db.updates → r.id ≢ id

-- How a read of one update ends.
pub data Read (io : Option Fault) (db : Db) (canonical : Option Text)
    : Result StoreError QuoteUpdate → Type 0 where
  missing : IsMissing db canonical → Read io db canonical (err not_found)
  faulty : (f : Fault) → io ≡ some f → Read io db canonical (err (database f))
  found :
      (id : Text) (r : Row)
      → canonical ≡ some id
      → Memᴰ r db.updates
      → r.id ≡ id
      → Read io db canonical (scan_update r)

found_cases :
    (io : Option Fault) (db : Db) (id : Text) (o : Option Row)
    → find_row id db.updates ≡ o
    → let out = bind_result (db, or_not_found o) (λ r. lift (scan_update r)) in
      (out.0 ≡ db) × Read io db (some id) out.1
found_cases io db id none e = (refl, missing (λ r m. find_row-none id db.updates e m))
found_cases io db id (some r) e =
    let (m, same) = find_row-In id db.updates e in (refl, found id r refl m same)

get_update-Read :
    (canonical : Text → Option Text) (io : Option Fault) (id : Text) (db : Db)
    → ((get_update canonical io id db).0 ≡ db)
      × Read io db (canonical id) (get_update canonical io id db).1
unfolding get_update
get_update-Read canonical io id db = cases (canonical id) io
  where
    cases :
        (o : Option Text) (io : Option Fault)
        → let out =
            bind_result
              (db, or_not_found o)
              (λ c.
                trip io
                >> ((λ d. (d, ok d)) >>= λ d.
                    lift (or_not_found (find_row c d.updates)) >>= λ r. lift (scan_update r))) in
          (out.0 ≡ db) × Read io db o out.1
    cases none io = (refl, missing tt)
    cases (some c) (some f) = (refl, faulty f refl)
    cases (some c) none = found_cases none db c (find_row c db.updates) refl

-- The answers to a GET of `id`, whose canonical form, if it has one, is `canonical`: a malformed id;
-- no row under the id; a fault of the driver, or a row whose rate cannot be parsed; or the row.
pub data Served (formats : Formats) (io : Option Fault) (id : Text) (canonical : Option Text)
    (db : Db) : Response → Type 0 where
  malformed :
      is_uuid id ≡ false
      → Served formats io id canonical db (write_problem 400 [] (codes "invalid_request"))
  absent :
      is_uuid id ≡ true
      → IsMissing db canonical
      → Served formats io id canonical db (write_problem 404 [] (codes "not_found"))
  unreachable :
      (f : Fault)
      → is_uuid id ≡ true
      → io ≡ some f
      → Served formats io id canonical db (write_problem 503 [] (codes "storage_unavailable"))
  undecodable :
      (r : Row)
      → is_uuid id ≡ true
      → Memᴰ r db.updates
      → canonical ≡ some r.id
      → IsUnreadable r
      → Served formats io id canonical db (write_problem 503 [] (codes "storage_unavailable"))
  shown :
      (r : Row) (dto : UpdateDto)
      → is_uuid id ≡ true
      → Memᴰ r db.updates
      → canonical ≡ some r.id
      → ShowsRow formats r dto
      → Served formats io id canonical db (write_json 200 [] (update dto))

module _ {D : Type 0} (library : Library D) (limits : Limits) (policy : RetryPolicy) (env : Env)
    (notifier : Option (StoreState → StoreState)) (readiness : Option (StoreState → Bool)) where
  abbrev pub postgres_handler : Handler StoreState
  postgres_handler = record {
    service = service_api (worker_service limits policy env);
    notifier = notifier;
    readiness = readiness;
  }

  Read-Served :
      (s : StoreState) (id : Text) (canonical : Option Text)
      (answer : Result StoreError QuoteUpdate)
      → is_uuid id ≡ true
      → Inv limits.max_active s.db
      → Read env.read s.db canonical answer
      → let out = after_get_update library postgres_handler (s, answer) in
        (out.0 ≡ s)
        × ((response : Response) × (out.1 ≡ answered response)
            × Served library.formats env.read id canonical s.db response)
  unfolding write_error
  Read-Served s id canonical _ fits v (missing none_there) =
      (refl, (_, refl, absent fits none_there))
  Read-Served s id canonical _ fits v (faulty f e) = (refl, (_, refl, unreachable f fits e))
  Read-Served s id canonical _ fits v (found c r e m same) =
      let at_row : canonical ≡ some r.id = e ∙ ap some (sym same) in
      elim (row_check-Shows library.formats r (all_pass-In s.db.updates v.checked m)) [
        | inl (u, scan, shows) ↦
            rw (scan, shows.mapped) (refl, (_, refl, shown r shows.dto fits m at_row shows.shown))
        | inr (bad, unreadable) ↦ rw bad (refl, (_, refl, undecodable r fits m at_row unreadable))
      ]

  -- In a store that keeps its invariant, a GET of an update leaves the store as it is and always
  -- answers: with 400 where the id is not a UUID; with 404 only where the driver does not take it for
  -- one, or no row has the id in the driver's canonical form; with 503 only after a fault of the
  -- driver or where the rate of the row cannot be parsed; or with 200 and the row that has the
  -- canonical id, all its fields shown: its id, pair, status, time of creation and failure code, and
  -- for a completed row its rate, provider, source date and time of completion. It never answers
  -- with an internal error.
  pub get_update-Served :
      (request : Request) (s : StoreState)
      → Inv limits.max_active s.db
      → let id = trim_prefix update_prefix request.path in
        let out = handle_get_update library postgres_handler request s in
        (out.0 ≡ s)
        × ((response : Response) × (out.1 ≡ answered response)
            × Served library.formats env.read id (env.scan_uuid id) s.db response)
  unfolding handle_get_update
  get_update-Served request s v =
      let id = trim_prefix update_prefix request.path in
      let (same, read) = get_update-Read env.scan_uuid env.read id s.db in
      elim (Bool-cases (is_uuid id)) [
        | inl fits ↦ rw (fits, same) (Read-Served s id (env.scan_uuid id) _ fits v read)
        | inr bad ↦ rw bad (refl, (_, refl, malformed bad))
      ]
