-- ===== src/Cursor.antt =====
-- messaging/sync_contract.py, decimal_cursor: the text of a cursor in a request.
pub mod RoundTrip
mod Tests
use Prim.Native.String
use Prim.Native.String.{String}
use awiki_open_server.Shared.{
  ℕ, Bool, true, false, not, ◌&&◌, ◌||◌, ltb, nat_eq, if◌then◌else◌, Result, ok, err, AwikiError,
  invalid_params, raise_if, ◌>>=◌, ◌>>◌, ◌==◌,
}
use awiki_open_server.Shared.Json.{Value, str}
use awiki_open_server.Shared.Decimal.{all_digits, number_from, text_length, starts_with_zero}

-- value.isascii() and value.isdecimal(): one ASCII digit at least, and no other character
unfoldable pub is_decimal : String → Bool
unfolding all_digits text_length
is_decimal text = not (nat_eq (text_length text) 0) && all_digits text

abbrev pub cursor_error : String → AwikiError
cursor_error field = invalid_params (String.◌++◌ "sync." (String.◌++◌ field "_invalid"))

unfoldable pub text_cursor : String → String → Bool → Result ℕ
unfolding is_decimal
text_cursor text field positive = do
  raise_if (not (is_decimal text) || (ltb 1 (text_length text) && starts_with_zero text))
      (cursor_error field)
  raise_if (ltb 20 (text_length text)) (cursor_error field)
  raise_if (positive && nat_eq (number_from 0 text) 0) (cursor_error field)
  ok (number_from 0 text)

unfoldable pub decimal_cursor : Value → String → Bool → Result ℕ
unfolding text_cursor
decimal_cursor (str text) field positive = text_cursor text field positive
decimal_cursor _ field positive = err (cursor_error field)
