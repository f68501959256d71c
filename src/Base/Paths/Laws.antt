-- ===== src/Base/Paths/Laws.antt =====
-- Laws of the paths: what is joined to a directory as its file is the last segment.
use mathlib.Core.List.{reverse, reverse-cons, append-nil, append_assoc}
use wifi_presence.Base.Paths.{
  slash, segments_from, join_segments, is_rooted, clean_segment, clean_segments, render, clean,
  join_path, last_segment, base, base_of, trim_slashes,
}
use wifi_presence.Base.{
  sym, All-append, ◌≡◌, ◌≢◌, ◌∙◌, refl, arith, Bool, true, false, List, [], ◌∷◌, ◌++◌, Bytes, All,
  codes, equal, equal_iff, ◌==◌, Bool-cases, inl, inr,
}

-- No byte of a segment is a slash.
abbrev pub IsSegment : Bytes → Type 0
IsSegment p = All (λ c. c ≢ slash) p

-- A segment that names a file.
pub record IsName (p : Bytes) : Type 0 where
  pub segment : IsSegment p
  pub not_empty : p ≢ []
  pub not_here : p ≢ codes "."
  pub not_up : p ≢ codes ".."

segments_from-append :
    (part s f : Bytes)
    → segments_from part (s ++ slash ∷ f) ≡ segments_from part s ++ segments_from [] f
unfolding segments_from
segments_from-append part [] f = refl
segments_from-append part (c ∷ s) f = elim (Bool-cases (c == slash)) [
  | inl e ↦ rw (e, segments_from-append [] s f) refl
  | inr e ↦ rw (e, segments_from-append (part ++ c ∷ []) s f) refl
]

segments_from-segment : (part f : Bytes) → IsSegment f → segments_from part f ≡ (part ++ f) ∷ []
unfolding segments_from
segments_from-segment part [] h = rw (append-nil part) refl
segments_from-segment part (c ∷ f) (h, hs) =
    let other : (c == slash) ≡ false = ground arith in
    rw (other, segments_from-segment (part ++ c ∷ []) f hs, append_assoc part (c ∷ []) f) refl

last_segment-append : (part s f : Bytes) → last_segment part (s ++ slash ∷ f) ≡ last_segment [] f
unfolding last_segment
last_segment-append part [] f = refl
last_segment-append part (c ∷ s) f = elim (Bool-cases (c == slash)) [
  | inl e ↦ rw e (last_segment-append [] s f)
  | inr e ↦ rw e (last_segment-append (part ++ c ∷ []) s f)
]

last_segment-segment : (part f : Bytes) → IsSegment f → last_segment part f ≡ part ++ f
unfolding last_segment
last_segment-segment part [] h = sym (append-nil part)
last_segment-segment part (c ∷ f) (h, hs) =
    let other : (c == slash) ≡ false = ground arith in
    rw (other, last_segment-segment (part ++ c ∷ []) f hs, append_assoc part (c ∷ []) f) refl

-- The last segment of a path has no slash.
last_segment-IsSegment : (part s : Bytes) → IsSegment part → IsSegment (last_segment part s)
unfolding last_segment
last_segment-IsSegment part [] h = h
last_segment-IsSegment part (c ∷ s) h = elim (Bool-cases (c == slash)) [
  | inl e ↦ rw e (last_segment-IsSegment [] s tt)
  | inr e ↦ rw e (
      last_segment-IsSegment (part ++ c ∷ []) s
        (All-append (λ x. x ≢ slash) part (c ∷ []) h (ground arith, tt)))
]

last_segment-join_segments :
    (ps : List Bytes) (f : Bytes) → IsSegment f → last_segment [] (join_segments (ps ++ f ∷ [])) ≡ f
unfolding join_segments
last_segment-join_segments [] f h = last_segment-segment [] f h
last_segment-join_segments (p ∷ []) f h = last_segment-append [] p f ∙ last_segment-segment [] f h
last_segment-join_segments (p ∷ q ∷ ps) f h =
    last_segment-append [] p (join_segments (q ∷ (ps ++ f ∷ [])))
    ∙ last_segment-join_segments (q ∷ ps) f h

clean_segments-append :
    (r : Bool) (stack ps : List Bytes) (p : Bytes)
    → clean_segments r stack (ps ++ p ∷ []) ≡ clean_segment r (clean_segments r stack ps) p
unfolding clean_segments
clean_segments-append r stack [] p = refl
clean_segments-append r stack (q ∷ ps) p = clean_segments-append r (clean_segment r stack q) ps p

not_equal : (s t : Bytes) → s ≢ t → equal s t ≡ false
not_equal s t ne = ground (arith, equal_iff s t)

clean_segment-name :
    (r : Bool) (stack : List Bytes) (f : Bytes) → IsName f → clean_segment r stack f ≡ f ∷ stack
unfolding clean_segment
clean_segment-name r stack f h =
    rw
      (
        not_equal f [] h.not_empty,
        not_equal f (codes ".") h.not_here,
        not_equal f (codes "..") h.not_up,
      )
      refl

last_segment-render :
    (r : Bool) (stack : List Bytes) (f : Bytes)
    → IsSegment f
    → last_segment [] (render r (f ∷ stack)) ≡ f
unfolding render
last_segment-render true stack f h = rw (reverse-cons f stack) (
    last_segment-append [] [] (join_segments (reverse stack ++ f ∷ []))
    ∙ last_segment-join_segments (reverse stack) f h)
last_segment-render false stack f h =
    rw (reverse-cons f stack) (last_segment-join_segments (reverse stack) f h)

-- A named file, joined to a directory, is the last segment of the path.
pub last_segment-join_path : (dir f : Bytes) → IsName f → last_segment [] (join_path dir f) ≡ f
unfolding join_path clean clean_segments last_segment render is_rooted
last_segment-join_path [] [] h = absurd (h.not_empty refl)
last_segment-join_path [] (c ∷ f) h =
    let r = is_rooted (c ∷ f) in
    rw
      (
        segments_from-segment [] (c ∷ f) h.segment,
        clean_segments-append r [] [] (c ∷ f),
        clean_segment-name r [] (c ∷ f) h,
      )
      (last_segment-render r [] (c ∷ f) h.segment)
last_segment-join_path (d ∷ dir) [] h = absurd (h.not_empty refl)
last_segment-join_path (d ∷ dir) (c ∷ f) h =
    let r = is_rooted (d ∷ dir) in
    let ps = segments_from [] (d ∷ dir) in
    let stack = clean_segments r [] ps in
    let cleaned : clean_segments r [] (segments_from [] ((d ∷ dir) ++ slash ∷ c ∷ f))
        ≡ (c ∷ f) ∷ stack =
      rw
        (
          segments_from-append [] (d ∷ dir) (c ∷ f),
          segments_from-segment [] (c ∷ f) h.segment,
          clean_segments-append r [] ps (c ∷ f),
          clean_segment-name r stack (c ∷ f) h,
        )
        refl in
    rw cleaned (last_segment-render r stack (c ∷ f) h.segment)

base_of-IsSegment : (s : Bytes) → IsSegment s → base_of s ≢ codes "/" → IsSegment (base_of s)
unfolding base_of
base_of-IsSegment [] h ne = absurd (ne refl)
base_of-IsSegment (c ∷ s) h ne = h

-- Where there is a part of the path that is no slash, the base has no slash.
pub base-IsSegment : (p : Bytes) → base p ≢ codes "/" → IsSegment (base p)
unfolding base
base-IsSegment [] h = (ground arith, tt)
base-IsSegment (c ∷ s) h =
    base_of-IsSegment (last_segment [] (trim_slashes (c ∷ s)))
      (last_segment-IsSegment [] (trim_slashes (c ∷ s)) tt) h
