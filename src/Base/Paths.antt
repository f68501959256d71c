-- ===== src/Base/Paths.antt =====
-- The functions of Go's `path` that the program calls, on the bytes of a slash-separated path.
pub mod Laws
use Prim.Native.Nat.{ℕ}
use mathlib.Core.Path.{◌≡◌}
use mathlib.Core.Bool.{Bool, true, false}
use mathlib.Core.List.{List, [], ◌∷◌, ◌++◌, reverse}
use wifi_presence.Base.Tests.{◌==◌, if◌then◌else◌}
use wifi_presence.Base.Text.{Bytes, codes, equal}

abbrev pub slash : ℕ
slash = 47

-- What stands between the slashes, from left to right.
unfoldable pub segments_from : Bytes → Bytes → List Bytes
segments_from part [] = part ∷ []
segments_from part (c ∷ s) =
    let closed = segments_from [] s in
    let longer = segments_from (part ++ c ∷ []) s in if c == slash then part ∷ closed else longer

unfoldable pub join_segments : List Bytes → Bytes
join_segments [] = []
join_segments (p ∷ []) = p
join_segments (p ∷ q ∷ ps) = p ++ slash ∷ join_segments (q ∷ ps)

unfoldable pub is_rooted : Bytes → Bool
is_rooted [] = false
is_rooted (c ∷ s) = c == slash

-- "..": it drops the segment before it, if there is one that is not itself "..".
unfoldable pub go_up : Bool → List Bytes → List Bytes
go_up true [] = []
go_up false [] = codes ".." ∷ []
go_up rooted (p ∷ stack) = if equal p (codes "..") then codes ".." ∷ p ∷ stack else stack

-- One segment, on the segments so far, the last of them first.
unfoldable pub clean_segment : Bool → List Bytes → Bytes → List Bytes
clean_segment rooted stack p =
    if equal p []
    then stack
    else if equal p (codes ".")
    then stack
    else if equal p (codes "..")
    then go_up rooted stack
    else p ∷ stack

unfoldable pub clean_segments : Bool → List Bytes → List Bytes → List Bytes
clean_segments rooted stack [] = stack
clean_segments rooted stack (p ∷ ps) = clean_segments rooted (clean_segment rooted stack p) ps

unfoldable pub render : Bool → List Bytes → Bytes
render true stack = slash ∷ join_segments (reverse stack)
render false [] = codes "."
render false (p ∷ stack) = join_segments (reverse (p ∷ stack))

-- `path.Clean(p)`.
unfoldable pub clean : Bytes → Bytes
clean s = render (is_rooted s) (clean_segments (is_rooted s) [] (segments_from [] s))

-- `path.Join(dir, file)`: an empty element is left out.
unfoldable pub join_path : Bytes → Bytes → Bytes
join_path [] [] = []
join_path [] (c ∷ file) = clean (c ∷ file)
join_path (d ∷ dir) [] = clean (d ∷ dir)
join_path (d ∷ dir) (c ∷ file) = clean ((d ∷ dir) ++ slash ∷ c ∷ file)

-- What `path.Base` does after the case of the empty path: trailing slashes are cut off, then
-- everything up to the last slash.
unfoldable pub cut_slash : ℕ → Bytes → Bytes
cut_slash c [] = if c == slash then [] else c ∷ []
cut_slash c (d ∷ s) = c ∷ d ∷ s

unfoldable pub trim_slashes : Bytes → Bytes
trim_slashes [] = []
trim_slashes (c ∷ s) = cut_slash c (trim_slashes s)

unfoldable pub last_segment : Bytes → Bytes → Bytes
last_segment part [] = part
last_segment part (c ∷ s) =
    let closed = last_segment [] s in
    let longer = last_segment (part ++ c ∷ []) s in if c == slash then closed else longer

unfoldable pub base_of : Bytes → Bytes
base_of [] = codes "/"
base_of (c ∷ s) = c ∷ s

-- `path.Base(p)`.
unfoldable pub base : Bytes → Bytes
base [] = codes "."
base (c ∷ s) = base_of (last_segment [] (trim_slashes (c ∷ s)))
