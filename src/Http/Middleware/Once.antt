-- ===== src/Http/Middleware/Once.antt =====
-- The connection gets one status at most, and the log has it.
use fx_quotes.Prelude.{
  ℕ, ◌<◌, ◌≡◌, refl, ap, Bool, true, false, ◌&&◌, List, [], ◌∷◌, ◌++◌, append-nil, arith,
  Bool-cases, ◌⊎◌, inl, inr, All, leb, ◌==◌, if◌then◌else◌, length, if_both,
}
use fx_quotes.Text.{Text, codes, utf8, hex_encode}
use fx_quotes.Text.Hex.{IsByte, IsHex, hex_encode-All, length-hex_encode}
use fx_quotes.Http.Request.{Request, visible_ascii, all_visible}
use fx_quotes.Http.Response.{Response, Body, write_problem}
use fx_quotes.Http.Middleware.{
  Op, set_header, write_header, write, Tracked, track, track_header, track_write, track_all,
  response_ops, header_ops, security_ops, recover_panic, request_id, middleware, pass,
}

-- The statuses among the calls.
abbrev pub statuses : List Op → List ℕ
statuses [] = []
statuses (set_header name value ∷ ops) = statuses ops
statuses (write_header status ∷ ops) = status ∷ statuses ops
statuses (write body ∷ ops) = statuses ops

-- `net/http` takes no status 0.
abbrev pub HasStatus : Op → Type 0
HasStatus (write_header status) = 0 < status
HasStatus _ = Unit

statuses-append : (xs ys : List Op) → statuses (xs ++ ys) ≡ statuses xs ++ statuses ys
statuses-append [] ys = refl
statuses-append (set_header name value ∷ xs) ys = statuses-append xs ys
statuses-append (write_header status ∷ xs) ys = ap (λ s. status ∷ s) (statuses-append xs ys)
statuses-append (write body ∷ xs) ys = statuses-append xs ys

-- What the connection has got by now.
abbrev sent : ℕ → List ℕ
sent status = if status == 0 then [] else status ∷ []

abbrev InStep : Tracked → Type 0
InStep w = statuses w.passed ≡ sent w.status

track_header-InStep :
    (status : ℕ) (w : Tracked) → 0 < status → InStep w → InStep (track_header status w)
unfolding track_header
track_header-InStep status w h v = elim (Bool-cases (w.status == 0)) [
  | inl fresh ↦
      let new : (status == 0) ≡ false = ground arith in
      let none_yet : statuses w.passed ≡ [] = rw fresh at v in
      rw (fresh, statuses-append w.passed (write_header status ∷ []), none_yet, new)
  | inr old ↦ rw old v
]

written-InStep : (body : Body) (w : Tracked) → InStep w → InStep (pass (write body) w)
written-InStep body w v = rw (statuses-append w.passed (write body ∷ []), append-nil) v

track_write-InStep : (body : Body) (w : Tracked) → InStep w → InStep (track_write body w)
unfolding track_write
track_write-InStep body w v =
    if_both (λ (x : Tracked). InStep (pass (write body) x)) (w.status == 0) (track_header 200 w) w
      (written-InStep body (track_header 200 w) (track_header-InStep 200 w (omega arith) v))
      (written-InStep body w v)

track-InStep : (op : Op) (w : Tracked) → HasStatus op → InStep w → InStep (track op w)
unfolding track
track-InStep (set_header name value) w h v =
    rw (statuses-append w.passed (set_header name value ∷ []), append-nil) v
track-InStep (write_header status) w h v = track_header-InStep status w h v
track-InStep (write body) w h v = track_write-InStep body w v

track_all-InStep :
    (ops : List Op) (w : Tracked) → All HasStatus ops → InStep w → InStep (track_all ops w)
unfolding track_all
track_all-InStep [] w h v = v
track_all-InStep (op ∷ ops) w h v = track_all-InStep ops (track op w) h.1 (track-InStep op w h.0 v)

header_ops-All :
    (hs : List (Text × Text)) (ops : List Op)
    → All HasStatus ops
    → All HasStatus (header_ops hs ++ ops)
header_ops-All [] ops h = h
header_ops-All ((name, value) ∷ hs) ops h = (tt, header_ops-All hs ops h)

pub response_ops-All : (r : Response) → 0 < r.status → All HasStatus (response_ops r)
unfolding response_ops
response_ops-All r h = header_ops-All r.headers _ (h, (tt, tt))

recover_panic-InStep : (panics : Bool) (w : Tracked) → InStep w → InStep (recover_panic panics w)
unfolding recover_panic write_problem
recover_panic-InStep panics w v =
    if_both InStep (panics && w.status == 0) _ w
      (track_all-InStep _ w
        (response_ops-All (write_problem 500 [] (codes "internal_error")) (omega arith)) v)
      v

-- Sixteen random bytes give a visible id of 32 digits.
visible_hex :
    (bs : Text) → All IsHex bs → (all_visible (utf8 bs) ≡ true) × (length (utf8 bs) ≡ length bs)
unfolding all_visible utf8
visible_hex [] h = (refl, refl)
visible_hex (c ∷ s) h =
    let (visible, long) = visible_hex s h.1 in
    let low : leb c 0x7e ≡ true = ground arith in (ground arith, ground arith)

recover_panic_status : (w : Tracked) → 0 < (recover_panic true w).status
unfolding recover_panic track_all track track_header track_write response_ops write_problem
recover_panic_status w = elim (Bool-cases (w.status == 0)) [
  | inl fresh ↦ rw fresh (omega arith)
  | inr old ↦ rw old (ground arith)
]

hex_encode-visible :
    (random : List ℕ)
    → length random ≡ 16
    → All IsByte random
    → visible_ascii (hex_encode random) ≡ true
unfolding visible_ascii
hex_encode-visible random sixteen bytes =
    let (visible, long) = visible_hex (hex_encode random) (hex_encode-All random bytes) in
    let size : length (utf8 (hex_encode random)) ≡ 32 =
      omega (arith, length-hex_encode random, long, sixteen) in
    ground (arith, visible, size)

request_id-visible :
    (ids : List Text) (random : List ℕ)
    → length random ≡ 16
    → All IsByte random
    → visible_ascii (request_id ids random) ≡ true
unfolding request_id
request_id-visible [] random n b = hex_encode-visible random n b
request_id-visible (id ∷ []) random n b = elim (Bool-cases (visible_ascii id)) [
  | inl own ↦ rw own own
  | inr hidden ↦ rw hidden (hex_encode-visible random n b)
]
request_id-visible (id ∷ id' ∷ ids) random n b = hex_encode-visible random n b

-- Whatever a handler writes, with any statuses but 0, and whether it panics or not: the
-- connection gets no status where the log has 0, and else exactly the status that the log has;
-- after a panic there is one; and the id of the request is visible ASCII, whatever ids it came
-- with and whatever the 16 random bytes are.
pub middleware_once :
    (r : Request) (random : List ℕ) (ops : List Op) (panics : Bool)
    → length random ≡ 16
    → All IsByte random
    → All HasStatus ops
    → let out = middleware r random ops panics in
      (statuses out.0 ≡ (if out.1.status == 0 then [] else out.1.status ∷ []))
      × ((panics ≡ false) ⊎ (0 < out.1.status))
      × (visible_ascii out.1.request_id ≡ true)
unfolding middleware
middleware_once r random ops panics n b h =
    let w : Tracked =
      track_all ops
        (record { status = 0; passed = security_ops (request_id r.request_ids random) }) in
    (
      recover_panic-InStep panics w (track_all-InStep ops _ h refl),
      (after panics w),
      request_id-visible r.request_ids random n b,
    )
  where
    after : (p : Bool) (w : Tracked) → (p ≡ false) ⊎ (0 < (recover_panic p w).status)
    after false w = inl refl
    after true w = inr (recover_panic_status w)
