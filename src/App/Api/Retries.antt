-- ===== src/App/Api/Retries.antt =====
-- A POST that is sent again with its idempotency key, over the PostgreSQL store.
use fx_quotes.Prelude.{
  ◌≡◌, ◌≤◌, ◌∙◌, inl, inr, Bool, true, false, [], ◌∷◌, ◌++◌, Option, some, ok, arith, Bool-cases,
  if◌then◌else◌, Memᴰ, ltb, ◌==◌, length,
}
use fx_quotes.Text.{Text, codes, byte_length}
use fx_quotes.Entity.Pair.{Pair}
use fx_quotes.Entity.Update.{QuoteUpdate}
use fx_quotes.Usecase.Commands.{idempotency_conflict, max_idempotency_key_bytes}
use fx_quotes.Usecase.Retry.{RetryPolicy}
use fx_quotes.Usecase.Service.{create_update}
use fx_quotes.Postgres.Schema.{Row}
use fx_quotes.Postgres.Row.{scan_update}
use fx_quotes.Postgres.Store.{same_pair}
use fx_quotes.Postgres.Steps.{Limits}
use fx_quotes.Postgres.Invariant.{Inv}
use fx_quotes.Postgres.Claim.{all_pass-In}
use fx_quotes.Postgres.Idempotency.{IsHealthy, create_or_get-existing}
use fx_quotes.Postgres.Worker.{Env, StoreState}
use fx_quotes.Http.Request.{Request, decode_pair}
use fx_quotes.Http.Response.{update, write_json, write_error}
use fx_quotes.Http.Dto.{UpdateDto, map_update}
use fx_quotes.Http.Handler.{
  Library, answered, create, after_create, key_of, is_json, first_of, max_body_bytes,
}
use fx_quotes.Http.Router.{update_prefix}
use fx_quotes.Http.Admission.{canonical_pair-IsSupported, decode_pair-eq-some, key_of-length}
use fx_quotes.App.Api.Rows.{ShowsRow, row_check-Shows}
use fx_quotes.App.Api.Reads.{postgres_handler}

-- A well-formed POST for a pair with a key.
pub record IsPost {D : Type 0} (library : Library D) (request : Request) (pair : Pair) (key : Text)
    : Type 0 where
  pub media : is_json (library.media_type (first_of request.content_types)) ≡ true
  pub one_type : (length request.content_types == 1) ≡ true
  pub small : length request.body ≤ 1024
  pub whole : request.body_fails ≡ false
  pub decoded : decode_pair library.json request.body ≡ some pair
  pub keyed : key_of request.idempotency_keys ≡ some key

module _ {D : Type 0} (library : Library D) (limits : Limits) (policy : RetryPolicy) (env : Env)
    (notifier : Option (StoreState → StoreState)) (readiness : Option (StoreState → Bool)) where
  -- `create` for a well-formed POST is the service's answer.
  pub create-IsPost :
      (request : Request) (pair : Pair) (key : Text) (s : StoreState)
      → IsPost library request pair key
      → let h = postgres_handler library limits policy env notifier readiness in
        create library h request s
        ≡ after_create library h
            (h.service.create_update (record { pair = pair; idempotency_key = key }) s)
  unfolding create
  create-IsPost request pair key s post =
      let fits : ltb max_body_bytes (length request.body) ≡ false = ground (arith, post.small) in
      rw (post.media, post.one_type, fits, post.whole, post.decoded, post.keyed)

  -- In a store that keeps its invariant, a well-formed POST with the key of a row that can be
  -- decoded, where the driver answers: nothing changes and no worker is notified, and the
  -- answer is 200 with the location of that row and all its fields (id, pair, status, time of
  -- creation, failure code, and for a completed row its rate, provider, source date and time of
  -- completion), or 409 where the row is for another pair.
  pub create-existing :
      (request : Request) (pair : Pair) (key : Text) (s : StoreState) (r : Row) (u : QuoteUpdate)
      → IsPost library request pair key
      → IsHealthy env.create
      → Inv limits.max_active s.db
      → Memᴰ r s.db.updates
      → r.idempotency_key ≡ some key
      → scan_update r ≡ ok u
      → (dto : UpdateDto) × ShowsRow library.formats r dto
        × (create library (postgres_handler library limits policy env notifier readiness) request s
            ≡ (
              s,
              answered (
                  if same_pair u.pair pair
                  then write_json 200 ((codes "Location", update_prefix ++ u.id) ∷ []) (update dto)
                  else write_error idempotency_conflict),
            ))
  unfolding after_create create_update
  create-existing request pair key s r u post healthy v m k scanned =
      let (value, canonical) = decode_pair-eq-some library.json request.body post.decoded in
      let (supported, printed, back) = canonical_pair-IsSupported value canonical in
      let short : ltb max_idempotency_key_bytes (byte_length key) ≡ false =
        ground (arith, key_of-length request.idempotency_keys post.keyed) in
      let stored =
        create_or_get-existing limits.max_active env.create s.db r pair key healthy v m k scanned
          back in
      let called = create-IsPost request pair key s post in
      elim (row_check-Shows library.formats r (all_pass-In s.db.updates v.checked m)) [
        | inr (bad, unreadable) ↦ cc (bad, scanned)
        | inl (u', scan, shows) ↦
            let same : u' ≡ u = cc (scan, scanned) in
            let mapped : map_update library.formats u ≡ some shows.dto = rw same at shows.mapped in
            (
              shows.dto,
              shows.shown,
              called ∙ elim (Bool-cases (same_pair u.pair pair)) [
                | inl match ↦ rw (short, stored, match, mapped)
                | inr other ↦ rw (short, stored, other)
              ],
            )
      ]
