-- ===== src/Base/Trim.antt =====
-- Laws of the prefix tests and of trimming.
use mathlib.Core.Path.{◌≡⟨◌⟩◌, ◌∎}
use mathlib.Core.List.{reverse, reverse-append, reverse-reverse, reverse-cons}
use wifi_presence.Base.{
  ℕ, ◌≡◌, refl, ap, ◌∙◌, arith, true, false, [], ◌∷◌, ◌++◌, Bytes, Bool-cases, inl, inr, length,
  drop, has_prefix, trim_prefix, trim_left, trim_right, is_space,
}

pub has_prefix-append : (p s : Bytes) → has_prefix (p ++ s) p ≡ true
unfolding has_prefix
has_prefix-append [] s = refl
has_prefix-append (c ∷ p) s = ground (arith, has_prefix-append p s)

drop-length-append : (p s : Bytes) → drop (length p) (p ++ s) ≡ s
drop-length-append [] s = refl
drop-length-append (c ∷ p) s = drop-length-append p s

pub trim_prefix-append : (p s : Bytes) → trim_prefix (p ++ s) p ≡ s
unfolding trim_prefix
trim_prefix-append p s = rw (has_prefix-append p s) (drop-length-append p s)

-- Trimming on the left stops at a byte that is no space.
trim_left-append :
    (xs : Bytes) (c : ℕ) (ys : Bytes)
    → is_space c ≡ false
    → trim_left (xs ++ (c ∷ ys)) ≡ trim_left xs ++ (c ∷ ys)
unfolding trim_left
trim_left-append [] c ys h = rw h
trim_left-append (x ∷ xs) c ys h = elim (Bool-cases (is_space x)) [
  | inl space ↦ rw space (trim_left-append xs c ys h)
  | inr other ↦ rw other refl
]

-- Trimming on the right does too.
pub trim_right-append :
    (xs : Bytes) (c : ℕ) (s : Bytes)
    → is_space c ≡ false
    → trim_right ((xs ++ c ∷ []) ++ s) ≡ (xs ++ c ∷ []) ++ trim_right s
unfolding trim_right
trim_right-append xs c s h =
    reverse (trim_left (reverse ((xs ++ c ∷ []) ++ s)))
    ≡⟨ ap (λ t. reverse (trim_left t))
        (reverse-append (xs ++ c ∷ []) s ∙ ap (λ t. reverse s ++ t) (reverse-append xs (c ∷ []))) ⟩
      reverse (trim_left (reverse s ++ (c ∷ reverse xs)))
    ≡⟨ ap reverse (trim_left-append (reverse s) c (reverse xs) h) ⟩
      reverse (trim_left (reverse s) ++ (c ∷ reverse xs))
    ≡⟨ reverse-append (trim_left (reverse s)) (c ∷ reverse xs) ⟩
      reverse (c ∷ reverse xs) ++ reverse (trim_left (reverse s))
    ≡⟨ ap (λ t. t ++ reverse (trim_left (reverse s)))
        (reverse-cons c (reverse xs) ∙ ap (λ t. t ++ c ∷ []) (reverse-reverse xs)) ⟩
      (xs ++ c ∷ []) ++ reverse (trim_left (reverse s)) ∎
