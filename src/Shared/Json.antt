-- ===== src/Shared/Json.antt =====
-- The values that json.loads returns. `num n` is an int that is not negative, `other_num` a negative
-- int or a float, by its repr.
-- Of a dict with two entries of one key the first counts; json.loads makes none.
use Prim.Native.Nat.{ℕ}
use Prim.Native.String.{String}
use mathlib.Core.Bool.{Bool, true, false, ◌&&◌}
use mathlib.Core.List.{List, [], ◌∷◌}
use text.Mathlib.Text.{◌==◌}
use text.Mathlib.TextEquality.{eq_iff}
use text.Mathlib.TextPositions.{eq_refl}
use mathlib.Core.Path.{◌≡◌, refl}
use native.Mathlib.Omega.{arith}
use awiki_open_server.Shared.Tests.{if◌then◌else◌, nat_eq}
use awiki_open_server.Shared.Lists.{any, all}
use awiki_open_server.Shared.Decimal.{show_float}

mutual
  pub data Fields : Type 0 where
    end : Fields
    field : String → Value → Fields → Fields

  pub data Items : Type 0 where
    nil : Items
    cons : Value → Items → Items

  pub data Value : Type 0 where
    str : String → Value
    num : ℕ → Value
    other_num : String → Value
    bool : Bool → Value
    obj : Fields → Value
    arr : Items → Value
    null : Value

-- list(d)
abbrev pub keys : Fields → List String
keys end = []
keys (field k v fs) = k ∷ keys fs

-- d.get(key), which is None for a missing key and for a null
abbrev pub get : Fields → String → Value
get end key = null
get (field k v fs) key = let rest = get fs key in if k == key then v else rest

abbrev pub elements : Items → List Value
elements nil = []
elements (cons v vs) = v ∷ elements vs

-- key in d, key in a list of strings
abbrev pub contains : List String → String → Bool
contains ks key = any (λ k. k == key) ks

-- set(ks) <= set(ls)
abbrev pub is_subset : List String → List String → Bool
is_subset ks ls = all (contains ls) ks

-- set(ks) == set(ls)
abbrev pub same_set : List String → List String → Bool
same_set ks ls = is_subset ks ls && is_subset ls ks

-- value == text, for a text
abbrev pub equals_str : Value → String → Bool
equals_str (str s) text = s == text
equals_str _ text = false

-- value == n, for a number: True is equal to 1 and False to 0
abbrev pub equals_num : Value → ℕ → Bool
equals_num (num m) n = nat_eq m n
equals_num (other_num text) n = text == show_float n
equals_num (bool true) n = nat_eq 1 n
equals_num (bool false) n = nat_eq 0 n
equals_num _ n = false

-- value is None
abbrev pub is_null : Value → Bool
is_null null = true
is_null _ = false

-- { key: value, … }
abbrev pub dict : List (String × Value) → Value
dict entries = obj (fields entries)
  where
    fields : List (String × Value) → Fields
    fields [] = end
    fields ((k, v) ∷ rest) = field k v (fields rest)

-- value.get(key), where a value that is no dict has no entries
abbrev pub entries : Value → Fields
entries (obj fs) = fs
entries _ = end

-- isinstance(value, dict)
abbrev pub is_dict : Value → Bool
is_dict (obj fs) = true
is_dict _ = false

-- d[key] = value: the entry keeps its place, a new one comes last
abbrev pub put : String → Value → Fields → Fields
put key value end = field key value end
put key value (field k v fs) =
    let rest = field k v (put key value fs) in if k == key then field k value fs else rest

-- {**first, **second}
abbrev pub merge : Fields → Fields → Fields
merge first end = first
merge first (field k v fs) = merge (put k v first) fs

pub get-put_same : (key : String) (value : Value) (fs : Fields) → get (put key value fs) key ≡ value
get-put_same key value end = rw (eq_refl key) refl
get-put_same key value (field k v fs) = ground (arith, eq_refl key, get-put_same key value fs)

pub get-put_other :
    (key other : String) (value : Value) (fs : Fields)
    → (key == other) ≡ false
    → get (put key value fs) other ≡ get fs other
get-put_other key other value end h = rw h refl
get-put_other key other value (field k v fs) h =
    ground (arith, eq_iff k key, get-put_other key other value fs)
