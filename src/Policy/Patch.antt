-- ===== src/Policy/Patch.antt =====
-- The merge patch of RFC 7396, entry by entry.
use awiki_open_server.Shared.{
  String, ◌≡◌, refl, sym, ap, subst, ◌∙◌, Option, none, some, eq_refl, true, false, if◌then◌else◌,
  Bool-cases, inl, inr, arith, ◌==◌, eq_iff,
}
use awiki_open_server.Shared.Json.{
  Value, Fields, obj, null, end, field, get, put, keys, entries, contains, is_null,
}
use awiki_open_server.Policy.{pop, patch_fields, merge_patch}

-- The entry of a key, none where there is none: unlike get, which reads a missing key and a null alike.
unfoldable pub lookup : Fields → String → Option Value
lookup end key = none
lookup (field k v rest) key = if k == key then some v else lookup rest key

-- Distinct keys, which json.loads returns.
unfoldable pub IsDistinct : Fields → Type 0
IsDistinct end = Unit
IsDistinct (field k v rest) = (contains (keys rest) k ≡ false) × IsDistinct rest

lookup-put_same : (key : String) (v : Value) (fs : Fields) → lookup (put key v fs) key ≡ some v
unfolding lookup
lookup-put_same key v end = rw (eq_refl key) refl
lookup-put_same key v (field k w rest) = elim (Bool-cases (k == key)) [
  | inl e ↦ rw e (rw e refl)
  | inr e ↦ rw e (rw e (lookup-put_same key v rest))
]

lookup-put_other :
    (key other : String) (v : Value) (fs : Fields)
    → (key == other) ≡ false
    → lookup (put key v fs) other ≡ lookup fs other
unfolding lookup
lookup-put_other key other v end h = rw h refl
lookup-put_other key other v (field k w rest) h = elim (Bool-cases (k == key)) [
  | inl e ↦
      let apart = subst (λ (x : String). (x == other) ≡ false) (sym ((eq_iff k key).0 e)) h in
      rw e (rw apart refl)
  | inr e ↦ elim (Bool-cases (k == other)) [
    | inl f ↦ rw e (rw f refl)
    | inr f ↦ rw e (rw f (lookup-put_other key other v rest h))
  ]
]

lookup-pop_same : (key : String) (fs : Fields) → lookup (pop key fs) key ≡ none
unfolding lookup
lookup-pop_same key end = refl
lookup-pop_same key (field k v rest) = elim (Bool-cases (k == key)) [
  | inl e ↦ rw e (lookup-pop_same key rest)
  | inr e ↦ rw e (rw e (lookup-pop_same key rest))
]

lookup-pop_other :
    (key other : String) (fs : Fields)
    → (key == other) ≡ false
    → lookup (pop key fs) other ≡ lookup fs other
unfolding lookup
lookup-pop_other key other end h = refl
lookup-pop_other key other (field k v rest) h = elim (Bool-cases (k == key)) [
  | inl e ↦
      let same = (eq_iff k key).0 e in
      rw e (
        rw (subst (λ (x : String). (x == other) ≡ false) (sym same) h)
          (lookup-pop_other key other rest h))
  | inr e ↦ elim (Bool-cases (k == other)) [
    | inl f ↦ rw e (rw f refl)
    | inr f ↦ rw e (rw f (lookup-pop_other key other rest h))
  ]
]

-- What the entry of a patch leaves under its key, and under the others.
abbrev patched : String → Value → Fields → Fields
patched k v result = if is_null v then pop k result else put k (merge_patch (get result k) v) result

unfoldable value_of : Option Value → Value
value_of none = null
value_of (some v) = v

get-lookup : (fs : Fields) (key : String) → get fs key ≡ value_of (lookup fs key)
unfolding lookup value_of
get-lookup end key = refl
get-lookup (field k v rest) key = elim (Bool-cases (k == key)) [
  | inl e ↦ rw e refl
  | inr e ↦ rw e (get-lookup rest key)
]

lookup-patched_same :
    (k : String) (v : Value) (result : Fields)
    → lookup (patched k v result) k
      ≡ (if is_null v then none else some (merge_patch (get result k) v))
lookup-patched_same k v result = elim (Bool-cases (is_null v)) [
  | inl e ↦ rw e (lookup-pop_same k result)
  | inr e ↦ rw e (lookup-put_same k (merge_patch (get result k) v) result)
]

lookup-patched_other :
    (k key : String) (v : Value) (result : Fields)
    → (k == key) ≡ false
    → lookup (patched k v result) key ≡ lookup result key
lookup-patched_other k key v result h = elim (Bool-cases (is_null v)) [
  | inl e ↦ rw e (lookup-pop_other k key result h)
  | inr e ↦ rw e (lookup-put_other k key (merge_patch (get result k) v) result h)
]

get-patched_other :
    (k key : String) (v : Value) (result : Fields)
    → (k == key) ≡ false
    → get (patched k v result) key ≡ get result key
get-patched_other k key v result h =
    get-lookup (patched k v result) key
    ∙ ap value_of (lookup-patched_other k key v result h)
    ∙ sym (get-lookup result key)

lookup-patch_fields_absent :
    (patch result : Fields) (key : String)
    → contains (keys patch) key ≡ false
    → lookup (patch_fields result patch) key ≡ lookup result key
unfolding patch_fields
lookup-patch_fields_absent end result key h = refl
lookup-patch_fields_absent (field k v rest) result key h =
    lookup-patch_fields_absent rest (patched k v result) key (ground arith)
    ∙ lookup-patched_other k key v result (ground arith)

lookup-patch_fields :
    (patch result : Fields) (key : String)
    → IsDistinct patch
    → contains (keys patch) key ≡ true
    → lookup (patch_fields result patch) key ≡ (
        if is_null (get patch key)
        then none
        else some (merge_patch (get result key) (get patch key)))
unfolding patch_fields IsDistinct
lookup-patch_fields end result key d h = cc
lookup-patch_fields (field k v rest) result key d h = elim (Bool-cases (k == key)) [
  | inl e ↦
      let same = (eq_iff k key).0 e in
      let absent = subst (λ (x : String). contains (keys rest) x ≡ false) same d.0 in
      let here =
        subst
          (λ (x : String).
            lookup (patched k v result) x
            ≡ (if is_null v then none else some (merge_patch (get result x) v)))
          same (lookup-patched_same k v result) in
      rw e (lookup-patch_fields_absent rest (patched k v result) key absent ∙ here)
  | inr e ↦ rw e (
      subst
        (λ (x : Value).
          lookup (patch_fields (patched k v result) rest) key
          ≡ (if is_null (get rest key) then none else some (merge_patch x (get rest key))))
        (get-patched_other k key v result e)
        (lookup-patch_fields rest (patched k v result) key d.1 (rw e at h)))
]

-- A patch that is an object changes exactly the keys that it names: a null takes the key away, so
-- that there is no entry, and another value is merged into what stood under the key, or into null
-- where nothing did. A key that is not named keeps its entry, or has none still.
pub lookup-merge_patch :
    (document : Value) (patch : Fields) (key : String)
    → IsDistinct patch
    → lookup (entries (merge_patch document (obj patch))) key ≡ (
        if contains (keys patch) key
        then (if is_null (get patch key)
            then none
            else some (merge_patch (get (entries document) key) (get patch key)))
        else lookup (entries document) key)
unfolding merge_patch
lookup-merge_patch document patch key d = elim (Bool-cases (contains (keys patch) key)) [
  | inl e ↦ rw e (lookup-patch_fields patch (entries document) key d e)
  | inr e ↦ rw e (lookup-patch_fields_absent patch (entries document) key e)
]
