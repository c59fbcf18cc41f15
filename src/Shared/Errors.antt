-- ===== src/Shared/Errors.antt =====
-- shared/errors.py: the exceptions of the server, as values. A constructor stands for each class
-- and carries the message; the diagnostic `data` is not modelled.
use Prim.Native.Nat.{ℕ}
use Prim.Native.String.{String}
use mathlib.Core.Path.{◌≡◌, refl}
use mathlib.Core.Bool.{Bool, true, false}

pub data AwikiError : Type 0 where
  server_error : String → AwikiError
  invalid_request : String → AwikiError
  method_not_found : String → AwikiError
  invalid_params : String → AwikiError
  unauthorized : String → AwikiError
  not_supported : String → AwikiError
  not_found : String → AwikiError
  user_service_not_found : String → AwikiError
  conflict : String → AwikiError
  -- an exception of Python itself, such as a KeyError
  python_error : String → AwikiError
  -- the frozen numeric code, and `anp_code`, which is the message too
  sync_protocol_error : ℕ → String → AwikiError

-- A function that may raise returns a `Result`.
pub data Result {ℓ} (A : Type ℓ) : Type ℓ where
  err : AwikiError → Result A
  ok : A → Result A

infixl 5 ◌>>=◌ ◌>>◌
abbrev pub ◌>>=◌ {ℓ κ} : {A : Type ℓ} {B : Type κ} → Result A → (A → Result B) → Result B
ok result >>= next = next result
err raised >>= next = err raised

abbrev pub ◌>>◌ {ℓ} : {B : Type ℓ} → Result (Unit {0}) → Result B → Result B
check >> next = check >>= λ done. next

-- if refused: raise e
abbrev pub raise_if : Bool → AwikiError → Result (Unit {0})
raise_if true e = err e
raise_if false e = ok tt

-- The parts of a chain that did not raise.
pub >>=-eq-ok {ℓ κ} :
    {A : Type ℓ} {B : Type κ} (m : Result A) (f : A → Result B) (b : B)
    → (m >>= f) ≡ ok b
    → (a : A) × (m ≡ ok a) × (f a ≡ ok b)
>>=-eq-ok (ok a) f b h = (a, refl, h)
>>=-eq-ok (err e) f b h = cc

pub raise_if-eq-ok {ℓ} :
    {B : Type ℓ} (refused : Bool) (e : AwikiError) (k : Result B) (b : B)
    → (raise_if refused e >> k) ≡ ok b
    → (refused ≡ false) × (k ≡ ok b)
raise_if-eq-ok true e k b h = cc
raise_if-eq-ok false e k b h = (refl, h)

pub >>-eq-ok {ℓ} :
    {B : Type ℓ} (m : Result (Unit {0})) (k : Result B) (b : B)
    → (m >> k) ≡ ok b
    → (m ≡ ok tt) × (k ≡ ok b)
>>-eq-ok (ok a) k b h = (refl, h)
>>-eq-ok (err e) k b h = cc

pub raise_if-eq-ok_tt :
    (refused : Bool) (e : AwikiError) → raise_if refused e ≡ ok tt → refused ≡ false
raise_if-eq-ok_tt true e h = cc
raise_if-eq-ok_tt false e h = refl

pub ok-injective {ℓ} : {A : Type ℓ} {a b : A} → ◌≡◌ {A = Result A} (ok a) (ok b) → a ≡ b
ok-injective h = cc
