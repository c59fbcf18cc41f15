-- ===== src/Cursor/RoundTrip.antt =====
-- A cursor that the server printed is read back.
use awiki_open_server.Shared.{
  ℕ, zero, suc, ◌^◌, ◌<◌, ◌≡◌, refl, Bool, true, false, ◌&&◌, ltb, nat_eq, arith, String, ok,
  raise_if, ◌>>◌,
}
use awiki_open_server.Shared.Json.{str}
use awiki_open_server.Shared.Decimal.{
  show, number_from-show, all_digits-show, text_length, text_length-show, starts_with_zero,
  starts_with_zero-show,
}
use awiki_open_server.Cursor.{decimal_cursor, text_cursor, is_decimal, cursor_error}

is_decimal-show : (n : ℕ) → n < 10 ^ 20 → is_decimal (show n) ≡ true
unfolding is_decimal
is_decimal-show n h = ground (arith, all_digits-show n, text_length-show n 19 h)

canonical : (n : ℕ) → (ltb 1 (text_length (show n)) && starts_with_zero (show n)) ≡ false
unfolding show text_length starts_with_zero
canonical zero = refl
canonical (suc n) = ground (arith, starts_with_zero-show (suc n))

-- A number below 10 ^ 20, printed, is read back as itself, if it is not zero or zero is allowed;
-- where a positive number is demanded, a printed zero is refused.
pub decimal_cursor-show :
    (n : ℕ) (field : String) (positive : Bool)
    → n < 10 ^ 20
    → decimal_cursor (str (show n)) field positive
      ≡ (raise_if (positive && nat_eq n 0) (cursor_error field) >> ok n)
unfolding decimal_cursor text_cursor
decimal_cursor-show n field positive h =
    rw (is_decimal-show n h)
      (rw (canonical n) (rw (number_from-show n) (ground (arith, text_length-show n 19 h))))
