-- ===== src/Command/Sockets.antt =====
-- The list of sockets as one text, and the files that are found.
use mathlib.Core.List.{append_assoc, append-nil}
use wifi_presence.Base.{
  ◌≡◌, ◌≢◌, refl, sym, ap, ◌∙◌, arith, false, List, [], ◌∷◌, ◌++◌, Bytes, All, ◌==◌, ==_iff,
  Bool-cases, inl, inr,
}
use wifi_presence.Command.{
  Entry, find_unix_sockets, separator, join, split_from, split, default_args,
}

-- A path with no separator in it.
abbrev pub IsPath : Bytes → Type 0
IsPath p = All (λ c. c ≢ separator) p

split_from-path :
    (part p rest : Bytes)
    → IsPath p
    → split_from part (p ++ separator ∷ rest) ≡ (part ++ p) ∷ split_from [] rest
unfolding split_from
split_from-path part [] rest h = rw (append-nil part) refl
split_from-path part (c ∷ p) rest (h, hs) =
    let other : (c == separator) ≡ false = ground arith in
    rw (other, split_from-path (part ++ c ∷ []) p rest hs, append_assoc part (c ∷ []) p) refl

split_from-last : (part p : Bytes) → IsPath p → split_from part p ≡ (part ++ p) ∷ []
unfolding split_from
split_from-last part [] h = rw (append-nil part) refl
split_from-last part (c ∷ p) (h, hs) =
    let other : (c == separator) ≡ false = ground arith in
    rw (other, split_from-last (part ++ c ∷ []) p hs, append_assoc part (c ∷ []) p) refl

-- Where there is a path, and no path has a separator in it, splitting what was joined gives the paths
-- back.
pub split-join : (paths : List Bytes) → paths ≢ [] → All IsPath paths → split (join paths) ≡ paths
unfolding split join
split-join [] ne h = absurd (ne refl)
split-join (p ∷ []) ne (h, hs) = split_from-last [] p h
split-join (p ∷ q ∷ paths) ne (h, hs) =
    split_from-path [] p (join (q ∷ paths)) h
    ∙ ap (λ t. p ∷ t) (split-join (q ∷ paths) (λ e. cc) hs)

join-cons :
    (p : Bytes) (paths : List Bytes) → paths ≢ [] → join (p ∷ paths) ≡ p ++ separator ∷ join paths
unfolding join
join-cons p [] h = absurd (h refl)
join-cons p (q ∷ paths) h = refl

split_from-ne-nil : (part s : Bytes) → split_from part s ≢ []
unfolding split_from
split_from-ne-nil part [] = λ e. cc
split_from-ne-nil part (c ∷ s) = elim (Bool-cases (c == separator)) [
  | inl e ↦ rw e (λ x. cc)
  | inr e ↦ rw e (split_from-ne-nil (part ++ c ∷ []) s)
]

pub split-ne-nil : (s : Bytes) → split s ≢ []
unfolding split
split-ne-nil s = split_from-ne-nil [] s

join-split_from : (part s : Bytes) → join (split_from part s) ≡ part ++ s
unfolding split_from join
join-split_from part [] = sym (append-nil part)
join-split_from part (c ∷ s) = elim (Bool-cases (c == separator)) [
  | inl e ↦
      let same = (==_iff c separator).0 e in
      rw (e, same)
        (join-cons part (split_from [] s) (split_from-ne-nil [] s)
          ∙ ap (λ t. part ++ separator ∷ t) (join-split_from [] s))
  | inr e ↦ rw e (join-split_from (part ++ c ∷ []) s ∙ append_assoc part (c ∷ []) s)
]

-- Joining what was split gives the text back.
pub join-split : (s : Bytes) → join (split s) ≡ s
unfolding split
join-split s = join-split_from [] s

-- With no flag for the sockets, `run` connects to exactly the sockets that `findUnixSockets` found, in
-- order, where it found one and none of their paths has a separator in it.
pub default_sockets :
    (host_name temp_dir : Bytes) (entries : List Entry)
    → find_unix_sockets entries ≢ []
    → All IsPath (find_unix_sockets entries)
    → split (default_args host_name temp_dir entries).hostapd_socks ≡ find_unix_sockets entries
unfolding default_args
default_sockets host_name temp_dir entries ne h = split-join (find_unix_sockets entries) ne h
