-- ===== src/Shared/Python.antt =====
-- What the server uses of the built-in functions of Python beyond its lists and texts: int(), sets,
-- d[key], and except clauses. The digits of int() are those of ASCII.
use Prim.Native.Char.{code}
use Prim.Native.String.{String, [], ◌∷◌}
use Prim.Native.Nat.{ℕ, zero, suc, ◌+◌, ◌-◌, ◌*◌, ◌≤◌, ◌<◌}
use Prim.Native.Char.{Char}
use mathlib.Core.Path.{◌≡◌, refl, ◌∙◌, ap}
use mathlib.Core.Bool.{Bool, true, false, not, ◌&&◌}
use mathlib.Core.List.{List, ◌∷◌, []}
use native.Mathlib.Omega.{arith}
use awiki_open_server.Shared.Tests.{if◌then◌else◌, ltb, leb, nat_eq, &&-eq-true}
use awiki_open_server.Shared.Errors.{AwikiError, python_error, Result, ok, err, raise_if, ◌>>◌}
use awiki_open_server.Shared.Decimal.{
  is_digit, all_digits, number_from, text_length, show, all_digits-show, number_from-show,
  text_length-show,
}
use awiki_open_server.Shared.Text.{is_space}
use awiki_open_server.Shared.Json.{Value, str, num, other_num, bool, obj, arr, get, keys, contains}

pub data ℤ : Type 0 where
  pos : ℕ → ℤ
  negsuc : ℕ → ℤ

abbrev negate : ℕ → ℤ
negate zero = pos zero
negate (suc n) = negsuc n

abbrev value_error : Result ℤ
value_error = err (python_error "ValueError")

-- The spaces that int() strips: not the separators 28 to 31.
abbrev is_int_space : Char → Bool
is_int_space c = is_space c && not (leb 28 (code c) && leb (code c) 31)

unfoldable left_stripped : String → String
left_stripped [] = []
left_stripped (c ∷ s) = let rest = left_stripped s in if is_int_space c then rest else c ∷ s

abbrev is_empty : String → Bool
is_empty [] = true
is_empty (c ∷ s) = false

unfoldable right_stripped : String → String
right_stripped [] = []
right_stripped (c ∷ s) =
    let rest = right_stripped s in if is_int_space c && is_empty rest then [] else c ∷ rest

-- Digits, with single underscores between them; the Boolean tells whether a digit came last.
unfoldable int_digits : (ℕ → ℤ) → ℕ → Bool → String → Result ℤ
int_digits sign n is_last [] = if is_last then ok (sign n) else value_error
int_digits sign n is_last (c ∷ s) = elim (is_digit c) [
  | true ↦ int_digits sign (n * 10 + (code c - b'0')) true s
  | false ↦ elim (is_last && nat_eq (code c) b'_') [
    | true ↦ int_digits sign n false s
    | false ↦ value_error
  ]
]

unfoldable digit_count : String → ℕ
digit_count [] = 0
digit_count (c ∷ s) = let rest = digit_count s in if is_digit c then suc rest else rest

unfoldable int_unsigned : (ℕ → ℤ) → String → Result ℤ
unfolding int_digits digit_count
int_unsigned sign text =
    raise_if (ltb 4300 (digit_count text)) (python_error "ValueError")
    >> int_digits sign 0 false text

unfoldable int_signed : String → Result ℤ
unfolding int_unsigned
int_signed [] = value_error
int_signed (c ∷ s) =
    if nat_eq (code c) b'-'
    then int_unsigned negate s
    else if nat_eq (code c) b'+'
    then int_unsigned pos s
    else int_unsigned pos (c ∷ s)

-- int(text)
unfoldable pub int_of_text : String → Result ℤ
unfolding int_signed left_stripped right_stripped
int_of_text text = int_signed (right_stripped (left_stripped text))

-- int(value), where `truncate` is int() of a number that is negative or no integer.
unfoldable pub int_of : (String → Result ℤ) → Value → Result ℤ
unfolding int_of_text
int_of truncate (str text) = int_of_text text
int_of truncate (num n) = ok (pos n)
int_of truncate (other_num text) = truncate text
int_of truncate (bool true) = ok (pos 1)
int_of truncate (bool false) = ok (pos 0)
int_of truncate _ = err (python_error "TypeError")

-- except (names) as exc: raise error
unfoldable pub catching {ℓ} : {A : Type ℓ} → List String → AwikiError → Result A → Result A
catching names error (err (python_error name)) =
    if contains names name then err error else err (python_error name)
catching names error (err raised) = err raised
catching names error (ok a) = ok a

-- value in {…}, for a set of texts: a list or a dict has no hash
unfoldable pub in_set : Value → List String → Result Bool
in_set (str text) texts = ok (contains texts text)
in_set (obj fields) texts = err (python_error "TypeError")
in_set (arr items) texts = err (python_error "TypeError")
in_set _ texts = ok false

-- d[key]
unfoldable pub item : Value → String → Result Value
item (obj fields) key =
    raise_if (not (contains (keys fields) key)) (python_error "KeyError") >> ok (get fields key)
item _ key = err (python_error "TypeError")

digit-no_space : (c : Char) → is_digit c ≡ true → is_int_space c ≡ false
unfolding is_space
digit-no_space c h = ground arith

left_stripped-digits : (s : String) → all_digits s ≡ true → left_stripped s ≡ s
unfolding left_stripped all_digits
left_stripped-digits [] h = refl
left_stripped-digits (c ∷ s) h =
    let (first, rest) = &&-eq-true (is_digit c) (all_digits s) h in rw (digit-no_space c first) refl

right_stripped-digits : (s : String) → all_digits s ≡ true → right_stripped s ≡ s
unfolding right_stripped all_digits
right_stripped-digits [] h = refl
right_stripped-digits (c ∷ s) h =
    let (first, rest) = &&-eq-true (is_digit c) (all_digits s) h in
    rw (right_stripped-digits s rest) (rw (digit-no_space c first) refl)

digit_count-le : (s : String) → digit_count s ≤ text_length s
unfolding digit_count text_length
digit_count-le [] = omega arith
digit_count-le (c ∷ s) = ground (arith, digit_count-le s)

int_digits-digits :
    (n : ℕ) (s : String)
    → all_digits s ≡ true
    → int_digits pos n true s ≡ ok (pos (number_from n s))
unfolding int_digits all_digits number_from
int_digits-digits n [] h = refl
int_digits-digits n (c ∷ s) h =
    let (first, rest) = &&-eq-true (is_digit c) (all_digits s) h in
    rw (first, int_digits) (int_digits-digits (n * 10 + (code c - b'0')) s rest)

int_signed-digits :
    (s : String)
    → all_digits s ≡ true
    → 0 < text_length s
    → text_length s ≤ 4300
    → int_signed s ≡ ok (pos (number_from 0 s))
unfolding int_signed int_unsigned all_digits text_length number_from int_digits
int_signed-digits [] h k l = absurd (omega arith)
int_signed-digits (c ∷ s) h k l =
    let (first, rest) = &&-eq-true (is_digit c) (all_digits s) h in
    let no_minus : nat_eq (code c) b'-' ≡ false = ground arith in
    let no_plus : nat_eq (code c) b'+' ≡ false = ground arith in
    let short : ltb 4300 (digit_count (c ∷ s)) ≡ false = ground (arith, digit_count-le (c ∷ s)) in
    rw no_minus (
      rw no_plus
        (rw short (rw (first, int_digits) (int_digits-digits (0 * 10 + (code c - b'0')) s rest))))

-- int() of what str() wrote.
pub int_of_text-show : (n : ℕ) → n < 1000 → int_of_text (show n) ≡ ok (pos n)
unfolding int_of_text
int_of_text-show n h =
    let digits = all_digits-show n in
    let (filled, few) = text_length-show n 2 (omega arith) in
    rw (left_stripped-digits (show n) digits) (
      rw (right_stripped-digits (show n) digits) (
        int_signed-digits (show n) digits filled (omega arith)
        ∙ ap (λ (k : ℕ). ok (pos k)) (number_from-show n)))
