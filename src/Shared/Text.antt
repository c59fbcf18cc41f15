-- ===== src/Shared/Text.antt =====
-- str.strip() of a text, as far as the server asks whether anything is left of it, and
-- str.startswith().
use Prim.Native.Nat.{ℕ}
use Prim.Native.Char.{Char, code}
use Prim.Native.String.{String, [], ◌∷◌}
use mathlib.Core.Bool.{Bool, true, false, ◌&&◌, ◌||◌}
use awiki_open_server.Shared.Tests.{leb, nat_eq}

abbrev is_within : ℕ → ℕ → ℕ → Bool
is_within low high n = leb low n && leb n high

-- c.isspace()
unfoldable pub is_space : Char → Bool
is_space c =
    is_within 9 13 (code c)
    || is_within 28 32 (code c)
    || nat_eq (code c) 133
    || nat_eq (code c) 160
    || nat_eq (code c) 5760
    || is_within 8192 8202 (code c)
    || is_within 8232 8233 (code c)
    || nat_eq (code c) 8239
    || nat_eq (code c) 8287
    || nat_eq (code c) 12288

-- not text.strip()
unfoldable pub is_blank : String → Bool
unfolding is_space
is_blank [] = true
is_blank (c ∷ s) = is_space c && is_blank s

-- text.startswith(start)
unfoldable pub starts_with : String → String → Bool
starts_with text [] = true
starts_with [] (d ∷ start) = false
starts_with (c ∷ text) (d ∷ start) = nat_eq (code c) (code d) && starts_with text start
