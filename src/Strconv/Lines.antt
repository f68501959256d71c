-- ===== src/Strconv/Lines.antt =====
-- `bufio.Scanner` with its default split function `ScanLines`, on a message that fits the 4096 bytes of
-- the control connection's buffer, so that no line meets the scanner's limit of 64 KB.
use wifi_presence.Base.{refl, arith, ℕ, ◌≢◌, List, [], ◌∷◌, ◌++◌, ◌==◌, if◌then◌else◌, Bytes}

-- `dropCR`: a trailing carriage return is not part of the line.
unfoldable pub drop_cr : Bytes → Bytes
drop_cr [] = []
drop_cr (c ∷ []) = if c == b'\r' then [] else c ∷ []
drop_cr (c ∷ d ∷ cs) = c ∷ drop_cr (d ∷ cs)

-- The last line counts only if it is not empty.
unfoldable pub last_line : Bytes → List Bytes
unfolding drop_cr
last_line [] = []
last_line (c ∷ cs) = drop_cr (c ∷ cs) ∷ []

unfoldable pub scan_from : Bytes → Bytes → List Bytes
unfolding last_line
scan_from line [] = last_line line
scan_from line (c ∷ cs) =
    let ended = drop_cr line ∷ scan_from [] cs in
    let longer = scan_from (line ++ c ∷ []) cs in if c == b'\n' then ended else longer

-- The texts of the successive calls of `Scan`.
unfoldable pub scan_lines : Bytes → List Bytes
unfolding scan_from
scan_lines = scan_from []

scan_from-ne-nil : (c : ℕ) (line s : Bytes) → scan_from (c ∷ line) s ≢ []
unfolding scan_from
scan_from-ne-nil c line [] = λ e. cc
scan_from-ne-nil c line (x ∷ s) = ground (arith, scan_from-ne-nil c (line ++ x ∷ []) s)

-- A message that is not empty has a line.
pub scan_lines-ne-nil : (s : Bytes) → s ≢ [] → scan_lines s ≢ []
unfolding scan_lines
scan_lines-ne-nil [] h = absurd (h refl)
scan_lines-ne-nil (c ∷ s) h = ground (arith, scan_from-ne-nil c [] s)
