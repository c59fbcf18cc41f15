-- ===== src/Shared/Keys.antt =====
-- The first row of a key after the rows of a key were changed, or a row was added.
use mathlib.Core.Path.{◌≡◌, refl, ap}
use mathlib.Core.Logic.{inl, inr}
use mathlib.Core.Bool.{Bool, true, false}
use mathlib.Core.Option.{Option, none, some}
use mathlib.Core.List.{List, [], ◌∷◌, ◌++◌}
use awiki_open_server.Shared.Tests.{Bool-cases}
use awiki_open_server.Shared.Lists.{any}
use awiki_open_server.Shared.Table.{first_where, update_where}

module _ {ℓ} {R : Type ℓ} where
  pub first-update_same :
      (test : R → Bool) (change : R → R) (t : List R)
      → ((r : R) → test r ≡ true → test (change r) ≡ true)
      → any test t ≡ true
      → (r : R) × (first_where test t ≡ some r)
        × (first_where test (update_where test change t) ≡ some (change r))
  first-update_same test change [] k h = cc
  first-update_same test change (r ∷ t) k h = elim (Bool-cases (test r)) [
    | inl e ↦ (r, rw e refl, rw e (rw (k r e) refl))
    | inr e ↦
        let (s, found, changed) = first-update_same test change t k (rw e at h) in
        (s, rw e found, rw e (rw e changed))
  ]

  pub first-update_other :
      (other test : R → Bool) (change : R → R) (t : List R)
      → ((r : R) → test r ≡ true → other r ≡ false)
      → ((r : R) → other (change r) ≡ other r)
      → first_where other (update_where test change t) ≡ first_where other t
  first-update_other other test change [] d k = refl
  first-update_other other test change (r ∷ t) d k = elim (Bool-cases (test r)) [
    | inl e ↦ rw e (rw (k r) (rw (d r e) (first-update_other other test change t d k)))
    | inr e ↦ elim (Bool-cases (other r)) [
      | inl f ↦ rw e (rw f refl)
      | inr f ↦ rw e (rw f (first-update_other other test change t d k))
    ]
  ]

  pub first-append_same :
      (test : R → Bool) (row : R) (t : List R)
      → test row ≡ true
      → any test t ≡ false
      → first_where test (t ++ row ∷ []) ≡ some row
  first-append_same test row [] h n = rw h refl
  first-append_same test row (r ∷ t) h n = elim (Bool-cases (test r)) [
    | inl e ↦ cc (rw e at n)
    | inr e ↦ rw e (first-append_same test row t h (rw e at n))
  ]

  pub first-append_other :
      (test : R → Bool) (row : R) (t : List R)
      → test row ≡ false
      → first_where test (t ++ row ∷ []) ≡ first_where test t
  first-append_other test row [] h = rw h refl
  first-append_other test row (r ∷ t) h = elim (Bool-cases (test r)) [
    | inl e ↦ rw e refl
    | inr e ↦ rw e (first-append_other test row t h)
  ]

  pub first-update_some :
      (test : R → Bool) (change : R → R) (t : List R) (r : R)
      → ((r : R) → test r ≡ true → test (change r) ≡ true)
      → first_where test t ≡ some r
      → first_where test (update_where test change t) ≡ some (change r)
  first-update_some test change [] r k h = cc
  first-update_some test change (s ∷ t) r k h = elim (Bool-cases (test s)) [
    | inl e ↦
        let same : s ≡ r = some-injective (rw e at h) in
        rw e (rw (k s e) (ap (λ (x : R). some (change x)) same))
    | inr e ↦ rw e (rw e (first-update_some test change t r k (rw e at h)))
  ]
    where
      some-injective : {a b : R} → ◌≡◌ {A = Option R} (some a) (some b) → a ≡ b
      some-injective h = cc

  -- Rows that a change touches and that another test never meets, before or after.
  pub first-update_apart :
      (other test : R → Bool) (change : R → R) (t : List R)
      → ((r : R) → test r ≡ true → (other r ≡ false) × (other (change r) ≡ false))
      → first_where other (update_where test change t) ≡ first_where other t
  first-update_apart other test change [] d = refl
  first-update_apart other test change (r ∷ t) d = elim (Bool-cases (test r)) [
    | inl e ↦
        let (before, after) = d r e in
        rw e (rw before (rw after (first-update_apart other test change t d)))
    | inr e ↦ elim (Bool-cases (other r)) [
      | inl f ↦ rw e (rw f refl)
      | inr f ↦ rw e (rw f (first-update_apart other test change t d))
    ]
  ]

  -- Rows of a test that the change takes out of it.
  pub first-update_none :
      (other test : R → Bool) (change : R → R) (t : List R)
      → ((r : R) → test r ≡ false → other r ≡ false)
      → ((r : R) → test r ≡ true → other (change r) ≡ false)
      → first_where other (update_where test change t) ≡ none
  first-update_none other test change [] d k = refl
  first-update_none other test change (r ∷ t) d k = elim (Bool-cases (test r)) [
    | inl e ↦ rw e (rw (k r e) (first-update_none other test change t d k))
    | inr e ↦ rw e (rw (d r e) (first-update_none other test change t d k))
  ]

  -- Rows of a key that all become one row, which is met by the other test.
  pub first-update_all :
      (other test : R → Bool) (row : R) (t : List R)
      → ((r : R) → test r ≡ false → other r ≡ false)
      → other row ≡ true
      → any test t ≡ true
      → first_where other (update_where test (λ r. row) t) ≡ some row
  first-update_all other test row [] d k h = cc
  first-update_all other test row (r ∷ t) d k h = elim (Bool-cases (test r)) [
    | inl e ↦ rw e (rw k refl)
    | inr e ↦ rw e (rw (d r e) (first-update_all other test row t d k (rw e at h)))
  ]

  pub any-eq-false-imp :
      (p q : R → Bool) (t : List R)
      → ((r : R) → p r ≡ false → q r ≡ false)
      → any p t ≡ false
      → any q t ≡ false
  any-eq-false-imp p q [] d h = refl
  any-eq-false-imp p q (r ∷ t) d h = elim (Bool-cases (p r)) [
    | inl e ↦ cc (rw e at h)
    | inr e ↦ rw (d r e) (any-eq-false-imp p q t d (rw e at h))
  ]

  pub first_where-none :
      (test : R → Bool) (t : List R) → any test t ≡ false → first_where test t ≡ none
  first_where-none test [] h = refl
  first_where-none test (r ∷ t) h = elim (Bool-cases (test r)) [
    | inl e ↦ cc (rw e at h)
    | inr e ↦ rw e (first_where-none test t (rw e at h))
  ]
