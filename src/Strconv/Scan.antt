-- ===== src/Strconv/Scan.antt =====
-- The lines of a text that is written line by line.
use mathlib.Core.List.{append_assoc, append-nil}
use wifi_presence.Base.{ℕ, ◌≤◌, ◌≡◌, refl, arith, false, [], ◌∷◌, ◌++◌, ◌==◌, Bytes, All}
use wifi_presence.Strconv.Lines.{drop_cr, last_line, scan_from, scan_lines}

-- Text with no control character.
abbrev pub IsPlain : Bytes → Type 0
IsPlain s = All (λ c. 32 ≤ c) s

drop_cr-IsPlain : (s : Bytes) → IsPlain s → drop_cr s ≡ s
unfolding drop_cr
drop_cr-IsPlain [] h = refl
drop_cr-IsPlain (c ∷ []) (h, hs) = ground arith
drop_cr-IsPlain (c ∷ d ∷ s) (h, hs) = rw (drop_cr-IsPlain (d ∷ s) hs) refl

scan_from-line :
    (acc s rest : Bytes)
    → IsPlain s
    → scan_from acc (s ++ b'\n' ∷ rest) ≡ drop_cr (acc ++ s) ∷ scan_from [] rest
unfolding scan_from
scan_from-line acc [] rest h = rw (append-nil acc) refl
scan_from-line acc (c ∷ s) rest (h, hs) =
    let other : (c == b'\n') ≡ false = ground arith in
    rw (other, scan_from-line (acc ++ c ∷ []) s rest hs, append_assoc acc (c ∷ []) s) refl

scan_from-last : (acc s : Bytes) → IsPlain s → scan_from acc s ≡ last_line (acc ++ s)
unfolding scan_from
scan_from-last acc [] h = rw (append-nil acc) refl
scan_from-last acc (c ∷ s) (h, hs) =
    let other : (c == b'\n') ≡ false = ground arith in
    rw (other, scan_from-last (acc ++ c ∷ []) s hs, append_assoc acc (c ∷ []) s) refl

-- A line that is ended is read back, and then the rest.
pub scan_lines-line :
    (s rest : Bytes) → IsPlain s → scan_lines ((s ++ b'\n' ∷ []) ++ rest) ≡ s ∷ scan_lines rest
unfolding scan_lines
scan_lines-line s rest h =
    rw (append_assoc s (b'\n' ∷ []) rest, scan_from-line [] s rest h, drop_cr-IsPlain s h) refl

-- So is a last line that is not ended.
pub scan_lines-last : (c : ℕ) (s : Bytes) → IsPlain (c ∷ s) → scan_lines (c ∷ s) ≡ (c ∷ s) ∷ []
unfolding scan_lines last_line
scan_lines-last c s h = rw (scan_from-last [] (c ∷ s) h, drop_cr-IsPlain (c ∷ s) h) refl

-- A line that is ended, and nothing more.
pub scan_lines-ended : (s : Bytes) → IsPlain s → scan_lines (s ++ b'\n' ∷ []) ≡ s ∷ []
unfolding scan_lines scan_from last_line
scan_lines-ended s h = rw (scan_from-line [] s [] h, drop_cr-IsPlain s h) refl
