-- ===== src/DeviceAuth/Nonces.antt =====
-- A signed request is accepted once.
use mathlib.Core.List.Memᴰ
use mathlib.Core.List.{Memᴰ}
use awiki_open_server.Shared.{
  ℕ, ◌+◌, ◌≤◌, String, ◌≡◌, ◌≢◌, refl, sym, subst, ◌∙◌, not, List, [], ◌∷◌, ◌++◌, ltb, Bool-cases,
  inl, inr, arith, ◌==◌, eq_refl, Result, ok, err, unauthorized, raise_if-eq-ok, false≢true,
}
use awiki_open_server.Shared.Lists.{any, any-eq-false_at, All}
use awiki_open_server.Shared.Table.{delete_where, mem-select_where}
use awiki_open_server.Shared.Json.{Value, num, str, obj, field, end, is_dict}
use awiki_open_server.DeviceAuth.{
  Nonce, consume_auth_nonce, consume_values, store_nonce, is_refused, bad_signature,
}

-- A request whose signature is checked.
pub record Attempt : Type 0 where
  pub key_id : String
  pub params : Value
  pub now : ℕ

abbrev pub after : List Nonce → Result (List Nonce) → List Nonce
after table (ok changed) = changed
after table (err e) = table

All_map_le :
    (between : List Attempt) (again bound : ℕ)
    → again ≤ bound
    → All (λ a. a.now ≤ again) between
    → All (λ a. a.now ≤ bound) between
All_map_le [] again bound le h = tt
All_map_le (a ∷ rest) again bound le h = (omega (arith, h.0), All_map_le rest again bound le h.1)

-- The nonce and the times that a signature names.
abbrev pub signed : String → ℕ → ℕ → Value
signed nonce created expires =
    obj (
      field "nonce" (str nonce) (field "created" (num created) (field "expires" (num expires) end)))

module _ (hash : String → String → String) where
  -- The table after requests in turn; a refused one changes nothing.
  unfoldable pub consume_all : List Attempt → List Nonce → List Nonce
  unfolding consume_auth_nonce
  consume_all [] table = table
  consume_all (a ∷ rest) table =
      consume_all rest (after table (consume_auth_nonce hash a.key_id a.params a.now table))

  mem-store :
      (n : Nonce) (digest : String) (expires now : ℕ) (table : List Nonce)
      → Memᴰ n table
      → now ≤ n.expires_at
      → Memᴰ n (after table (store_nonce digest expires now table))
  unfolding store_nonce
  mem-store n digest expires now table m le =
      let kept = delete_where (λ (x : Nonce). ltb x.expires_at now) table in
      let here =
        mem-select_where (λ (x : Nonce). not (ltb x.expires_at now)) table n m (ground arith) in
      elim (Bool-cases (any (λ x. x.nonce_hash == digest) kept)) [
        | inl e ↦ rw e m
        | inr e ↦ rw e (Memᴰ.append_left _ here)
      ]

  mem-consume_values :
      (n : Nonce) (key_id : String) (nonce created expires : Value) (now : ℕ) (table : List Nonce)
      → Memᴰ n table
      → now ≤ n.expires_at
      → Memᴰ n (after table (consume_values hash key_id nonce created expires now table))
  mem-consume_values n key_id (str nonce) (num created) (num expires) now table m le =
      elim (Bool-cases (is_refused nonce created expires now)) [
        | inl e ↦ rw e m
        | inr e ↦ rw e (mem-store n (hash key_id nonce) expires now table m le)
      ]
  mem-consume_values n key_id nonce created expires now table m le = m

  mem-consume :
      (n : Nonce) (a : Attempt) (table : List Nonce)
      → Memᴰ n table
      → a.now ≤ n.expires_at
      → Memᴰ n (after table (consume_auth_nonce hash a.key_id a.params a.now table))
  unfolding consume_auth_nonce
  mem-consume n a table m le = elim (Bool-cases (is_dict a.params)) [
    | inl e ↦ rw e (mem-consume_values n a.key_id _ _ _ a.now table m le)
    | inr e ↦ rw e m
  ]

  mem-consume_all :
      (n : Nonce) (attempts : List Attempt) (table : List Nonce)
      → Memᴰ n table
      → All (λ a. a.now ≤ n.expires_at) attempts
      → Memᴰ n (consume_all attempts table)
  unfolding consume_all
  mem-consume_all n [] table m h = m
  mem-consume_all n (a ∷ rest) table m h =
      mem-consume_all n rest _ (mem-consume n a table m h.0) h.1

  refuses_stored :
      (digest : String) (expires now : ℕ) (table changed : List Nonce)
      → Memᴰ (record { nonce_hash = digest; expires_at = expires + 30 }) table
      → now ≤ expires + 30
      → store_nonce digest expires now table ≢ ok changed
  unfolding store_nonce
  refuses_stored digest expires now table changed m le e =
      let n : Nonce = record { nonce_hash = digest; expires_at = expires + 30 } in
      let kept = delete_where (λ (x : Nonce). ltb x.expires_at now) table in
      let here =
        mem-select_where (λ (x : Nonce). not (ltb x.expires_at now)) table n m (ground arith) in
      elim (Bool-cases (any (λ x. x.nonce_hash == digest) kept)) [
        | inl f ↦ cc (rw f at e)
        | inr f ↦ absurd (
            false≢true (
              sym (any-eq-false_at (λ (x : Nonce). x.nonce_hash == digest) kept f n here)
              ∙ eq_refl digest))
      ]

  stored :
      (digest : String) (expires now : ℕ) (table changed : List Nonce)
      → store_nonce digest expires now table ≡ ok changed
      → Memᴰ (record { nonce_hash = digest; expires_at = expires + 30 }) changed
  unfolding store_nonce
  stored digest expires now table changed h =
      let kept = delete_where (λ (x : Nonce). ltb x.expires_at now) table in
      let n : Nonce = record { nonce_hash = digest; expires_at = expires + 30 } in
      let (new, same) =
        raise_if-eq-ok (any (λ x. x.nonce_hash == digest) kept) (unauthorized "signature_replayed")
          (ok (kept ++ n ∷ [])) changed h in
      subst (λ (t : List Nonce). Memᴰ n t) (ok-injective same)
        (Memᴰ.append_right kept (Memᴰ.head refl))
    where
      ok-injective : {a b : List Nonce} → ◌≡◌ {A = Result (List Nonce)} (ok a) (ok b) → a ≡ b
      ok-injective h = cc

  -- A signed request that was accepted is never accepted again, at any later time and after any
  -- other requests in between, if the clock of none of these is ahead of it.
  pub nonce_accepted_once :
      (key_id nonce : String) (created expires first again : ℕ) (table changed later : List Nonce)
      (between : List Attempt)
      → consume_auth_nonce hash key_id (signed nonce created expires) first table ≡ ok changed
      → All (λ a. a.now ≤ again) between
      → consume_auth_nonce hash key_id
          (signed nonce created expires)
          again
          (consume_all between changed)
        ≢ ok later
  unfolding consume_auth_nonce is_refused
  nonce_accepted_once key_id nonce created expires first again table changed later between h clock
        e =
      let digest = hash key_id nonce in
      let (good, h1) =
        raise_if-eq-ok (is_refused nonce created expires first) bad_signature
          (store_nonce digest expires first table) changed h in
      let (good_again, e1) =
        raise_if-eq-ok (is_refused nonce created expires again) bad_signature
          (store_nonce digest expires again (consume_all between changed)) later e in
      let in_time : again ≤ expires + 30 = ground arith in
      let n : Nonce = record { nonce_hash = digest; expires_at = expires + 30 } in
      refuses_stored digest expires again (consume_all between changed) later
        (mem-consume_all n between changed (stored digest expires first table changed h1)
          (All_map_le between again (expires + 30) in_time clock))
        in_time e1
