-- ===== src/Http/Request.antt =====
-- internal/adapter/httpapi/request.go, and the request that the handlers read.
pub mod Uuid
use fx_quotes.Prelude.{
  ℕ, zero, suc, Bool, true, false, not, ◌&&◌, ◌||◌, List, [], ◌∷◌, Option, none, some, Result, ok,
  err, ltb, ◌==◌, if◌then◌else◌, length,
}
use fx_quotes.Text.{Text, codes, text_eq, utf8, is_hex}
use fx_quotes.Entity.Pair.{Pair, ParseError, parse_pair, print}

-- `Header.Values` of the headers that are read; the body up to its end or its failure.
pub record Request : Type 0 where
  pub method : Text
  pub path : Text
  pub raw_query : Text
  pub content_types : List Text
  pub idempotency_keys : List Text
  pub request_ids : List Text
  pub body : List ℕ
  pub body_fails : Bool

-- The text behind `n` hexadecimal digits.
unfoldable pub hex_run : ℕ → Text → Option Text
hex_run zero s = some s
hex_run (suc n) [] = none
hex_run (suc n) (c ∷ s) = let rest = hex_run n s in if is_hex c then rest else none

-- The text behind a dash and `n` hexadecimal digits.
abbrev pub dash_run : ℕ → Option Text → Option Text
dash_run n none = none
dash_run n (some []) = none
dash_run n (some (c ∷ s)) = if c == b'-' then hex_run n s else none

abbrev pub at_end : Option Text → Bool
at_end none = false
at_end (some []) = true
at_end (some (c ∷ s)) = false

-- `uuidPattern.MatchString`.
unfoldable pub is_uuid : Text → Bool
unfolding hex_run
is_uuid s = at_end (dash_run 12 (dash_run 4 (dash_run 4 (dash_run 4 (hex_run 8 s)))))

abbrev canonical_of : Text → Result ParseError Pair → Option Pair
canonical_of value (err e) = none
canonical_of value (ok pair) = if text_eq (print pair) value then some pair else none

unfoldable pub canonical_pair : Text → Option Pair
canonical_pair value = canonical_of value (parse_pair value)

-- A token of `json.Decoder.Token`, or its error; `eof` is `io.EOF`.
pub data Token : Type 0 where
  delim : ℕ → Token
  string : Text → Token
  other eof failed : Token

-- `json.Decoder`: its calls on a state of its own.
pub record Decoder (D : Type 0) : Type 0 where
  pub start : List ℕ → D
  pub token : D → D × Token
  pub more : D → Bool
  pub decode_string : D → D × Option Text

abbrev pub is_delim : ℕ → Token → Bool
is_delim c (delim d) = c == d
is_delim c _ = false

abbrev pub is_string : Text → Token → Bool
is_string s (string t) = text_eq t s
is_string s _ = false

abbrev is_eof : Token → Bool
is_eof eof = true
is_eof _ = false

module _ {D : Type 0} (json : Decoder D) where
  -- The calls behind the value, on a text that has been decoded.
  unfoldable pub decode_end : Text → D → Option Pair
  decode_end value d =
      if json.more d
      then none
      else if not (is_delim b'}' (json.token d).1)
      then none
      else if not (is_eof (json.token (json.token d).0).1)
      then none
      else canonical_pair value

  abbrev pub decode_value : D × Option Text → Option Pair
  decode_value (d, none) = none
  decode_value (d, some value) = decode_end value d

  unfoldable pub decode_name : D → Option Pair
  unfolding decode_end
  decode_name d =
      if not (json.more d)
      then none
      else if not (is_string (codes "pair") (json.token d).1)
      then none
      else decode_value (json.decode_string (json.token d).0)

  unfoldable pub decode_pair : List ℕ → Option Pair
  unfolding decode_name
  decode_pair body =
      let first = json.token (json.start body) in
      if is_delim b'{' first.1 then decode_name first.0 else none

-- The loop of `visibleASCII`, over the bytes.
unfoldable pub all_visible : List ℕ → Bool
all_visible [] = true
all_visible (b ∷ bs) = not (ltb b 0x21 || ltb 0x7e b) && all_visible bs

unfoldable pub visible_ascii : Text → Bool
unfolding all_visible utf8
visible_ascii value =
    let bytes = utf8 value in
    not (ltb (length bytes) 1 || ltb 128 (length bytes)) && all_visible bytes
