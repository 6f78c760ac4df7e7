-- ===== src/App/Api/Locations.antt =====
-- The location of a new update.
use fx_quotes.Prelude.{ℕ, ◌≡◌, true, List, ◌++◌, some, length, All}
use fx_quotes.Text.{Text, text_eq}
use fx_quotes.Text.Hex.{IsByte}
use fx_quotes.Postgres.UpdateId.{new_update_id}
use fx_quotes.Postgres.UpdateId.Shape.{new_update_id-is_uuid}
use fx_quotes.Http.Request.{Request, is_uuid}
use fx_quotes.Http.Request.Uuid.{route-is_uuid, trim_prefix-append}
use fx_quotes.Http.Router.{get, update_prefix}
use fx_quotes.Http.Handler.{Handler, Library, serve_http, dispatch, get_update, after_get_update}

module _ {W D : Type 0} (library : Library D) (h : Handler W) where
  pub serve_http-is_uuid :
      (id : Text) (request : Request) (w : W)
      → request.method ≡ get
      → request.path ≡ update_prefix ++ id
      → is_uuid id ≡ true
      → serve_http library h request w ≡ after_get_update library h (h.service.get_update id w)
  unfolding serve_http dispatch get_update text_eq
  serve_http-is_uuid id request w method path uuid =
      rw (path, route-is_uuid id uuid, method, trim_prefix-append update_prefix id, uuid)

  -- A GET of the location that `create` gives for a new id, made of any 16 random bytes, is routed to
  -- the service's read of the update with that id.
  pub serve_http-new_update_id :
      (random : List ℕ) (id : Text) (request : Request) (w : W)
      → length random ≡ 16
      → All IsByte random
      → new_update_id (some random) ≡ some id
      → request.method ≡ get
      → request.path ≡ update_prefix ++ id
      → serve_http library h request w ≡ after_get_update library h (h.service.get_update id w)
  serve_http-new_update_id random id request w n bytes new method path =
      let (id', new', uuid) = new_update_id-is_uuid random n bytes in
      let same : id' ≡ id = cc (new, new') in
      serve_http-is_uuid id request w method path (rw same at uuid)
