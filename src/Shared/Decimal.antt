-- ===== src/Shared/Decimal.antt =====
-- str(n) of a natural number, and int(text) of a text of decimal digits.
use Prim.Native.Nat.{ℕ, zero, suc, ◌+◌, ◌-◌, ◌*◌, ◌/◌, ◌%◌, ◌^◌, ◌≤◌, ◌<◌}
use Prim.Native.Char.{Char, code}
use Prim.Native.String.{String, [], ◌∷◌}
use mathlib.Core.Path.{◌≡◌, refl, ◌∙◌, ap}
use mathlib.Core.Bool.{Bool, true, false, ◌&&◌}
use mathlib.Core.Logic.{inl, inr}
use native.Mathlib.Omega.{arith}
use awiki_open_server.Shared.Tests.{if◌then◌else◌, ltb, leb, nat_eq, ltb→lt, Bool-cases}

abbrev digit : ℕ → Char
digit d =
    if nat_eq d 0
    then "0"
    else if nat_eq d 1
    then "1"
    else if nat_eq d 2
    then "2"
    else if nat_eq d 3
    then "3"
    else if nat_eq d 4
    then "4"
    else if nat_eq d 5
    then "5"
    else if nat_eq d 6
    then "6"
    else if nat_eq d 7
    then "7"
    else if nat_eq d 8
    then "8"
    else "9"

abbrev pub is_digit : Char → Bool
is_digit c = leb b'0' (code c) && leb (code c) b'9'

-- The digits of n before `rest`; the fuel n + 1 is more than the number of digits.
digits : ℕ → ℕ → String → String
digits zero n rest = rest
digits (suc fuel) n rest = elim (ltb n 10) [
  | true ↦ digit n ∷ rest
  | false ↦ digits fuel (n / 10) (digit (n % 10) ∷ rest)
]

unfoldable pub show : ℕ → String
unfolding digits
show n = digits (suc n) n ""

-- repr(float(n)), below 10 ** 16
unfoldable pub show_float : ℕ → String
unfolding digits
show_float n = digits (suc n) n ".0"

-- text.isdecimal(), for an ASCII text that may be empty
unfoldable pub all_digits : String → Bool
all_digits [] = true
all_digits (c ∷ s) = is_digit c && all_digits s

-- int(text) behind a number already read
unfoldable pub number_from : ℕ → String → ℕ
number_from n [] = n
number_from n (c ∷ s) = number_from (n * 10 + (code c - b'0')) s

-- len(text)
unfoldable pub text_length : String → ℕ
text_length [] = 0
text_length (c ∷ s) = suc (text_length s)

code-digit : (d : ℕ) → d < 10 → code (digit d) ≡ b'0' + d
code-digit zero h = refl
code-digit (suc zero) h = refl
code-digit (suc (suc zero)) h = refl
code-digit (suc (suc (suc zero))) h = refl
code-digit (suc (suc (suc (suc zero)))) h = refl
code-digit (suc (suc (suc (suc (suc zero))))) h = refl
code-digit (suc (suc (suc (suc (suc (suc zero)))))) h = refl
code-digit (suc (suc (suc (suc (suc (suc (suc zero))))))) h = refl
code-digit (suc (suc (suc (suc (suc (suc (suc (suc zero)))))))) h = refl
code-digit (suc (suc (suc (suc (suc (suc (suc (suc (suc zero))))))))) h = refl
code-digit (suc (suc (suc (suc (suc (suc (suc (suc (suc (suc n)))))))))) h = absurd (omega arith)

digit-is_digit : (d : ℕ) → d < 10 → is_digit (digit d) ≡ true
digit-is_digit d h = rw (code-digit d h) (ground arith)

digits_last :
    (fuel n : ℕ) (rest : String) → ltb n 10 ≡ true → digits (suc fuel) n rest ≡ digit n ∷ rest
unfolding digits
digits_last fuel n rest e = rw (e, digits)

digits_more :
    (fuel n : ℕ) (rest : String)
    → ltb n 10 ≡ false
    → digits (suc fuel) n rest ≡ digits fuel (n / 10) (digit (n % 10) ∷ rest)
unfolding digits
digits_more fuel n rest e = rw (e, digits)

number_from-digit :
    (m d : ℕ) (rest : String)
    → d < 10
    → number_from m (digit d ∷ rest) ≡ number_from (m * 10 + d) rest
unfolding number_from
number_from-digit m d rest h = ap (λ k. number_from k rest) (omega (arith, code-digit d h))

-- Reading the digits of n before `rest` is reading `rest` behind n.
number_from-digits :
    (fuel n : ℕ) (rest : String)
    → n < fuel
    → number_from 0 (digits fuel n rest) ≡ number_from n rest
number_from-digits zero n rest h = absurd (omega arith)
number_from-digits (suc fuel) n rest h = elim (Bool-cases (ltb n 10)) [
  | inl e ↦
      rw (digits_last fuel n rest e)
        (number_from-digit 0 n rest (ltb→lt n 10 e) ∙ ap (λ k. number_from k rest) (omega arith))
  | inr e ↦ rw (digits_more fuel n rest e) (
      number_from-digits fuel (n / 10) (digit (n % 10) ∷ rest) (ground arith)
      ∙ number_from-digit (n / 10) (n % 10) rest (omega arith)
      ∙ ap (λ k. number_from k rest) (omega arith))
]

pub number_from-show : (n : ℕ) → number_from 0 (show n) ≡ n
unfolding show number_from
number_from-show n = number_from-digits (suc n) n "" (omega arith)

all_digits-digit :
    (d : ℕ) (rest : String) → d < 10 → all_digits rest ≡ true → all_digits (digit d ∷ rest) ≡ true
unfolding all_digits
all_digits-digit d rest h k = rw (digit-is_digit d h) k

all_digits-digits :
    (fuel n : ℕ) (rest : String)
    → n < fuel
    → all_digits rest ≡ true
    → all_digits (digits fuel n rest) ≡ true
all_digits-digits zero n rest h k = absurd (omega arith)
all_digits-digits (suc fuel) n rest h k = elim (Bool-cases (ltb n 10)) [
  | inl e ↦ rw (digits_last fuel n rest e) (all_digits-digit n rest (ltb→lt n 10 e) k)
  | inr e ↦ rw (digits_more fuel n rest e) (
      all_digits-digits fuel (n / 10) (digit (n % 10) ∷ rest) (ground arith)
        (all_digits-digit (n % 10) rest (omega arith) k))
]

pub all_digits-show : (n : ℕ) → all_digits (show n) ≡ true
unfolding show all_digits
all_digits-show n = all_digits-digits (suc n) n "" (omega arith) refl

-- text[0] == "0"
unfoldable pub starts_with_zero : String → Bool
starts_with_zero [] = false
starts_with_zero (c ∷ s) = nat_eq (code c) b'0'

starts_with_zero-digits :
    (fuel n : ℕ) (rest : String) → n < fuel → 0 < n → starts_with_zero (digits fuel n rest) ≡ false
unfolding starts_with_zero
starts_with_zero-digits zero n rest h p = absurd (omega arith)
starts_with_zero-digits (suc fuel) n rest h p = elim (Bool-cases (ltb n 10)) [
  | inl e ↦ rw (digits_last fuel n rest e) (ground (arith, code-digit n))
  | inr e ↦
      rw (digits_more fuel n rest e) (
        starts_with_zero-digits fuel (n / 10) (digit (n % 10) ∷ rest) (ground arith) (ground arith))
]

pub starts_with_zero-show : (n : ℕ) → 0 < n → starts_with_zero (show n) ≡ false
unfolding show
starts_with_zero-show n h = starts_with_zero-digits (suc n) n "" (omega arith) h

text_length-digits :
    (fuel n k : ℕ) (rest : String)
    → n < fuel
    → n < 10 ^ suc k
    → (text_length rest < text_length (digits fuel n rest))
      × (text_length (digits fuel n rest) ≤ suc k + text_length rest)
unfolding text_length
text_length-digits zero n k rest h b = absurd (omega arith)
text_length-digits (suc fuel) n zero rest h b =
    rw (digits_last fuel n rest (ground arith)) (omega arith, omega arith)
text_length-digits (suc fuel) n (suc k) rest h b = elim (Bool-cases (ltb n 10)) [
  | inl e ↦ rw (digits_last fuel n rest e) (omega arith, omega arith)
  | inr e ↦
      let (low, high) =
        text_length-digits fuel (n / 10) k (digit (n % 10) ∷ rest) (ground arith) (omega arith) in
      rw (digits_more fuel n rest e) (omega arith, omega arith)
]

-- A number below 10 ^ (k + 1) has 1 to k + 1 digits.
pub text_length-show :
    (n k : ℕ) → n < 10 ^ suc k → (0 < text_length (show n)) × (text_length (show n) ≤ suc k)
unfolding show text_length
text_length-show n k h =
    let (low, high) = text_length-digits (suc n) n k "" (omega arith) h in
    (omega arith, omega arith)

show_runs : show 90210 ≡ "90210"
unfolding show
show_runs = refl
