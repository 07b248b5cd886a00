-- ===== src/Observability/Tracing.antt =====
-- observability/Observability.cc: the request id and the trace context of a request, which are kept
-- in its attributes. The random numbers of std::mt19937_64 are arguments, 64 bits each.
use Prim.Native.Char.{Char, code}
use Prim.Native.String.{[], ◌∷◌}
use drogon_api_starter.Prelude.{
  ℕ, zero, suc, ◌+◌, ◌-◌, ◌/◌, ◌%◌, String, Bool, true, false, ◌&&◌, ◌||◌, Option, none, some, ltb,
  leb, ◌==◌, if◌then◌else◌,
}
use drogon_api_starter.Text.{◌++◌, size, is_empty}
use drogon_api_starter.Text.Slices.{char_at, take, substr}
pub mod Hex
pub mod Context

abbrev pub is_xdigit : ℕ → Bool
is_xdigit c = (leb b'0' c && leb c b'9') || (leb b'A' c && leb c b'F') || (leb b'a' c && leb c b'f')

abbrev pub valid_hex : String → Bool
valid_hex [] = true
valid_hex (c ∷ s) = if is_xdigit (code c) then valid_hex s else false

abbrev pub hex_digit : ℕ → Char
hex_digit zero = "0"
hex_digit (suc zero) = "1"
hex_digit (suc (suc zero)) = "2"
hex_digit (suc (suc (suc zero))) = "3"
hex_digit (suc (suc (suc (suc zero)))) = "4"
hex_digit (suc (suc (suc (suc (suc zero))))) = "5"
hex_digit (suc (suc (suc (suc (suc (suc zero)))))) = "6"
hex_digit (suc (suc (suc (suc (suc (suc (suc zero))))))) = "7"
hex_digit (suc (suc (suc (suc (suc (suc (suc (suc zero)))))))) = "8"
hex_digit (suc (suc (suc (suc (suc (suc (suc (suc (suc zero))))))))) = "9"
hex_digit (suc (suc (suc (suc (suc (suc (suc (suc (suc (suc zero)))))))))) = "a"
hex_digit (suc (suc (suc (suc (suc (suc (suc (suc (suc (suc (suc zero))))))))))) = "b"
hex_digit (suc (suc (suc (suc (suc (suc (suc (suc (suc (suc (suc (suc zero)))))))))))) = "c"
hex_digit (suc (suc (suc (suc (suc (suc (suc (suc (suc (suc (suc (suc (suc zero))))))))))))) = "d"
hex_digit (suc (suc (suc (suc (suc (suc (suc (suc (suc (suc (suc (suc (suc (suc zero)))))))))))))) =
    "e"
hex_digit _ = "f"

-- The last `k` hexadecimal digits of `n`, in front of a text.
unfoldable pub hex_digits : ℕ → ℕ → String → String
hex_digits zero n s = s
hex_digits (suc k) n s = hex_digits k (n / 16) (hex_digit (n % 16) ∷ s)

-- `stream << std::hex << std::setw(16) << std::setfill('0') << n` for a number of 64 bits
abbrev pub hex16 : ℕ → String
hex16 n = hex_digits 16 n ""

-- The loop of `randomHex`, with the rounds that are left and the number of the next draw.
unfoldable pub fill : ℕ → (ℕ → ℕ) → ℕ → ℕ → String → String
fill zero draws i length s = s
fill (suc f) draws i length s =
    let more = fill f draws (suc i) length (s ++ hex16 (draws i)) in
    if ltb (size s) length then more else s

-- `length` rounds are enough, since each adds sixteen characters.
unfoldable pub random_hex : ℕ → (ℕ → ℕ) → String
random_hex length draws = take length (fill length draws 0 length "")

-- `generateRequestId`
abbrev pub generate_request_id : ℕ → String
generate_request_id draw = hex16 draw

-- What a request has: its headers, and the two attributes that are kept in it.
pub record Request : Type 0 where
  pub x_request_id : String
  pub traceparent_header : String

pub record Attributes : Type 0 where
  pub request_id : Option String
  pub traceparent : Option String

abbrev pub no_attributes : Attributes
no_attributes = record { request_id = none; traceparent = none }

-- What the generators would give at a call.
pub record Draws : Type 0 where
  pub id : ℕ
  pub trace : ℕ → ℕ
  pub parent : ℕ → ℕ

abbrev kept_id : Request → Draws → Attributes → Option String → String × Attributes
kept_id request draws a (some id) = (id, a)
kept_id request draws a none =
    let id =
      if is_empty request.x_request_id
      then generate_request_id draws.id
      else request.x_request_id in
    (id, record a { request_id = some id })

-- `requestId`
unfoldable pub request_id : Request → Draws → Attributes → String × Attributes
request_id request draws a = kept_id request draws a a.request_id

-- The test of a trace context that the request came with.
unfoldable pub is_context : String → Bool
is_context s =
    size s == 55
    && char_at s 2 == b'-'
    && char_at s 35 == b'-'
    && char_at s 52 == b'-'
    && valid_hex (substr s 0 2)
    && valid_hex (substr s 3 32)
    && valid_hex (substr s 36 16)
    && valid_hex (substr s 53 2)

unfoldable pub new_context : Draws → String
unfolding random_hex
new_context draws =
    "00-" ++ (random_hex 32 draws.trace ++ ("-" ++ (random_hex 16 draws.parent ++ "-01")))

abbrev kept_context : Request → Draws → Attributes → Option String → String × Attributes
kept_context request draws a (some context) = (context, a)
kept_context request draws a none =
    let supplied = request.traceparent_header in
    let context = if is_context supplied then supplied else new_context draws in
    (context, record a { traceparent = some context })

-- `traceparent`
unfoldable pub traceparent : Request → Draws → Attributes → String × Attributes
traceparent request draws a = kept_context request draws a a.traceparent
