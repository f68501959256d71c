-- ===== src/Base/Text.antt =====
-- Text as the list of its bytes, and the functions of Go's `strings` and `bytes` that the program
-- calls.
use Prim.Native.Char.{code}
use Prim.Native.String.{String}
use Prim.Native.Nat.{ℕ, zero, suc}
use mathlib.Core.Path.{◌≡◌, refl}
use mathlib.Core.Logic.{◌↔◌}
use mathlib.Core.Bool.{Bool, true, false, ◌&&◌, ◌||◌}
use mathlib.Core.List.{List, [], ◌∷◌, reverse}
use mathlib.Core.Option.{Option, none, some}
use native.Mathlib.Omega.{arith}
use wifi_presence.Base.Tests.{◌==◌, leb, if◌then◌else◌}
use wifi_presence.Base.Lists.{drop, length}

abbrev pub Bytes : Type 0
Bytes = List ℕ

-- The bytes of an ASCII literal.
abbrev pub codes : String → Bytes
codes String.[] = []
codes (String.◌∷◌ c s) = code c ∷ codes s

-- `==` on strings.
unfoldable pub equal : Bytes → Bytes → Bool
equal [] [] = true
equal (x ∷ xs) (y ∷ ys) = x == y && equal xs ys
equal _ _ = false

pub equal_iff : (s t : Bytes) → (equal s t ≡ true) ↔ (s ≡ t)
unfolding equal
equal_iff (c ∷ s) (d ∷ t) = ground (arith, equal_iff s t)
equal_iff _ _ = ground arith

pub equal_refl : (a : Bytes) → equal a a ≡ true
equal_refl a = (equal_iff a a).1 refl

-- `strings.HasPrefix(s, p)`.
unfoldable pub has_prefix : Bytes → Bytes → Bool
has_prefix s [] = true
has_prefix [] (p ∷ ps) = false
has_prefix (x ∷ xs) (p ∷ ps) = x == p && has_prefix xs ps

-- `strings.TrimPrefix(s, p)`.
unfoldable pub trim_prefix : Bytes → Bytes → Bytes
unfolding has_prefix
trim_prefix s p = if has_prefix s p then drop (length p) s else s

-- `strings.Contains(s, p)`.
unfoldable pub contains : Bytes → Bytes → Bool
unfolding has_prefix
contains [] p = has_prefix [] p
contains (x ∷ xs) p = has_prefix (x ∷ xs) p || contains xs p

-- The ASCII white space of `unicode.IsSpace`, which `strings.TrimSpace` cuts off.
unfoldable pub is_space : ℕ → Bool
is_space c = (leb 9 c && leb c 13) || c == 32

unfoldable pub trim_left : Bytes → Bytes
unfolding is_space
trim_left [] = []
trim_left (c ∷ cs) = if is_space c then trim_left cs else c ∷ cs

unfoldable pub trim_right : Bytes → Bytes
unfolding trim_left
trim_right s = reverse (trim_left (reverse s))

-- `strings.TrimSpace(s)` on ASCII text.
unfoldable pub trim_space : Bytes → Bytes
unfolding trim_left trim_right
trim_space s = trim_right (trim_left s)

-- `strings.Replace(s, old, "", n)` with a one-byte `old`.
unfoldable pub remove_first : ℕ → ℕ → Bytes → Bytes
remove_first zero old s = s
remove_first (suc n) old [] = []
remove_first (suc n) old (c ∷ cs) =
    let kept = c ∷ remove_first (suc n) old cs in
    let removed = remove_first n old cs in if c == old then removed else kept

-- `strings.SplitN(s, sep, 2)` with a one-byte `sep`: `none` where there is one part only.
unfoldable pub split_pair : ℕ → Bytes → Option (Bytes × Bytes)
split_pair sep [] = none
split_pair sep (c ∷ cs) =
    if c == sep
    then some ([], cs)
    else elim (split_pair sep cs) [ none ↦ none | some (key, val) ↦ some (c ∷ key, val) ]
