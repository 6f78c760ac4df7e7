-- ===== src/App/Api/Follow.antt =====
-- A POST and a GET of the location that it gives, over the PostgreSQL store.
use fx_quotes.Prelude.{
  ◌≡◌, subst, ◌∙◌, inl, inr, Bool, true, false, [], ◌∷◌, ◌++◌, Option, none, some, ok, arith,
  if◌then◌else◌, ltb,
}
use fx_quotes.Text.{Text, codes, byte_length}
use fx_quotes.Entity.Pair.{Pair}
use fx_quotes.Entity.Update.{QuoteUpdate}
use fx_quotes.Usecase.Commands.{CreateOrGetCommand, max_idempotency_key_bytes}
use fx_quotes.Usecase.Retry.{RetryPolicy}
use fx_quotes.Usecase.Service.{create_update}
use fx_quotes.Postgres.Schema.{Db}
use fx_quotes.Postgres.Store.{create_or_get, get_update}
use fx_quotes.Postgres.Steps.{Limits}
use fx_quotes.Postgres.Invariant.{Inv}
use fx_quotes.Postgres.Claim.{all_pass-In}
use fx_quotes.Postgres.ReadBack.{Yields, IsShown, create_or_get-IsShown, create_or_get-get_update}
use fx_quotes.Postgres.Worker.{Env, StoreState}
use fx_quotes.Http.Request.{Request, is_uuid}
use fx_quotes.Http.Response.{update, write_json}
use fx_quotes.Http.Dto.{UpdateDto, map_update}
use fx_quotes.Http.Handler.{
  Library, answered, create, after_create, after_get_update, notify, serve_http,
}
use fx_quotes.Http.Router.{get, update_prefix}
use fx_quotes.Http.Admission.{key_of-length}
use fx_quotes.App.Api.Rows.{row_check-Shows}
use fx_quotes.App.Api.Reads.{postgres_handler}
use fx_quotes.App.Api.Retries.{IsPost, create-IsPost}
use fx_quotes.App.Api.Locations.{serve_http-is_uuid}

module _ {D : Type 0} (library : Library D) (limits : Limits) (policy : RetryPolicy) (env : Env)
    (readiness : Option (StoreState → Bool)) where
  -- What the store has admitted has an answer.
  admitted-Shows :
      (pair : Pair) (key : Text) (s : StoreState) (db' : Db) (u : QuoteUpdate) (created : Bool)
      → create_or_get limits.max_active env.create
          (record { pair = pair; idempotency_key = key })
          s.db
        ≡ (db', ok (u, created))
      → Inv limits.max_active db'
      → (dto : UpdateDto) × (map_update library.formats u ≡ some dto)
  admitted-Shows pair key s db' u created stored v =
      let command : CreateOrGetCommand = record { pair = pair; idempotency_key = key } in
      let (r, m, scanned) =
        subst (Yields IsShown) stored
          (create_or_get-IsShown limits.max_active env.create command s.db) in
      elim (row_check-Shows library.formats r (all_pass-In db'.updates v.checked m)) [
        | inl (u', scan, shows) ↦
            let same : u' ≡ u = cc (scan, scanned) in (shows.dto, rw same at shows.mapped)
        | inr (bad, unreadable) ↦ cc (bad, scanned)
      ]

  -- The answer of a POST, behind the store's.
  created-answer :
      (s' : StoreState) (u : QuoteUpdate) (created : Bool) (dto : UpdateDto)
      → map_update library.formats u ≡ some dto
      → after_create library
          (postgres_handler library limits policy env none readiness)
          (s', ok (record { update = u; created = created }))
        ≡ (
          s',
          answered (
              write_json
                (if created then 202 else 200)
                ((codes "Location", update_prefix ++ u.id) ∷ [])
                (update dto)),
        )
  unfolding after_create notify
  created-answer s' u true dto mapped = rw mapped
  created-answer s' u false dto mapped = rw mapped

  -- The answer of a GET, behind the store's.
  read-answer :
      (s : StoreState) (u : QuoteUpdate) (dto : UpdateDto)
      → map_update library.formats u ≡ some dto
      → env.read ≡ none
      → get_update env.scan_uuid none u.id s.db ≡ (s.db, ok u)
      → let h = postgres_handler library limits policy env none readiness in
        after_get_update library h (h.service.get_update u.id s)
        ≡ (s, answered (write_json 200 [] (update dto)))
  read-answer s u dto mapped quiet read = rw (quiet, read, mapped)

  -- A well-formed POST whose update the store admits or has already, and a GET of the location
  -- that its answer gives, before anything else changes the store: the POST is answered with
  -- 202 for a new update and 200 for an old one, and the GET with 200 and the same update. The
  -- store keeps its invariant, the id is a UUID in the driver's canonical form, the read of the
  -- store does not fail, and there is no notifier.
  pub create-then_get :
      (request follow : Request) (pair : Pair) (key : Text) (s : StoreState) (db' : Db)
      (u : QuoteUpdate) (created : Bool)
      → IsPost library request pair key
      → create_or_get limits.max_active env.create
          (record { pair = pair; idempotency_key = key })
          s.db
        ≡ (db', ok (u, created))
      → Inv limits.max_active db'
      → env.read ≡ none
      → env.scan_uuid u.id ≡ some u.id
      → is_uuid u.id ≡ true
      → follow.method ≡ get
      → follow.path ≡ update_prefix ++ u.id
      → let h = postgres_handler library limits policy env none readiness in
        let s' : StoreState = record s { db = db' } in
        (dto : UpdateDto) × (create library h request s ≡ (
          s',
          answered (
              write_json
                (if created then 202 else 200)
                ((codes "Location", update_prefix ++ u.id) ∷ [])
                (update dto)),
        ))
        × (serve_http library h follow s' ≡ (s', answered (write_json 200 [] (update dto))))
  unfolding create_update
  create-then_get request follow pair key s db' u created post stored v quiet canonical uuid method
        path =
      let h = postgres_handler library limits policy env none readiness in
      let s' : StoreState = record s { db = db' } in
      let short : ltb max_idempotency_key_bytes (byte_length key) ≡ false =
        ground (arith, key_of-length request.idempotency_keys post.keyed) in
      let (dto, mapped) = admitted-Shows pair key s db' u created stored v in
      let read =
        create_or_get-get_update limits.max_active env.create
          (record { pair = pair; idempotency_key = key }) env.scan_uuid s.db db' u created stored v
          canonical in
      (
        dto,
        create-IsPost library limits policy env none readiness request pair key s post
            ∙ rw (short, stored) (created-answer s' u created dto mapped),
        serve_http-is_uuid library h u.id follow s' method path uuid
            ∙ read-answer s' u dto mapped quiet read,
      )
