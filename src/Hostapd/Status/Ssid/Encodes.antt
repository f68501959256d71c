-- ===== src/Hostapd/Status/Ssid/Encodes.antt =====
-- The encoding that `decodeSSID` reads, as a relation, and the proof that it reads just this.
use mathlib.Core.List.{append-nil, append_assoc}
use native.Mathlib.Decide.{ℕ_discrete}
use wifi_presence.Base.{
  Option, sym, ◌==◌, ◌↔◌, Bool-cases, refl, Option-cases, ap, ◌∙◌, ℕ, zero, suc, ◌+◌, ◌*◌, ◌<◌, ◌≡◌,
  ◌≢◌, arith, none, some, [], ◌∷◌, ◌++◌, Bytes, length, inl, inr,
}
use wifi_presence.Base.Errors.{Result, ok, Result-cases}
use wifi_presence.Strconv.Hex.{hex_value}
use wifi_presence.Hostapd.Status.Ssid.{
  finished, decode_ssid, copy_hex, control_char, read_escape, decode_loop,
}

-- `Escapes k x`: the character `k` after a backslash stands for the byte `x`. A tag after "\e" etc. is
-- the ASCII control character, and any other character stands for itself.
pub data Escapes : ℕ → ℕ → Type 0 where
  escape_character : Escapes b'e' 0x1b
  line_feed : Escapes b'n' 0x0a
  carriage_return : Escapes b'r' 0x0d
  horizontal_tab : Escapes b't' 0x09
  itself : {k : ℕ} → k ≢ b'e' → k ≢ b'n' → k ≢ b'r' → k ≢ b't' → k ≢ b'x' → Escapes k k

-- `Encodes v s`: the text `v` of a status reply stands for the SSID `s`.
pub data Encodes : Bytes → Bytes → Type 0 where
  done : Encodes [] []
  plain : {c : ℕ} {v s : Bytes} → c ≢ b'\\' → Encodes v s → Encodes (c ∷ v) (c ∷ s)
  escape :
      {c k x : ℕ} {v s : Bytes}
      → c ≡ b'\\'
      → Escapes k x
      → Encodes v s
      → Encodes (c ∷ k ∷ v) (x ∷ s)
  hex :
      {c k a b x y : ℕ} {v s : Bytes}
      → c ≡ b'\\'
      → k ≡ b'x'
      → hex_value a ≡ some x
      → hex_value b ≡ some y
      → Encodes v s
      → Encodes (c ∷ k ∷ a ∷ b ∷ v) ((x * 16 + y) ∷ s)
  -- A last "\x" with no digits is dropped.
  cut : {c k : ℕ} → c ≡ b'\\' → k ≡ b'x' → Encodes (c ∷ k ∷ []) []

Escapes-control_char : {k x : ℕ} → Escapes k x → (k ≢ b'x') × (control_char k ≡ x)
unfolding control_char
Escapes-control_char escape_character = ground arith
Escapes-control_char line_feed = ground arith
Escapes-control_char carriage_return = ground arith
Escapes-control_char horizontal_tab = ground arith
Escapes-control_char (itself e n r t x) = ground arith

control_char-Escapes : (k : ℕ) → k ≢ b'x' → Escapes k (control_char k)
unfolding control_char
control_char-Escapes k h = elim (ℕ_discrete k b'e') [
  | yes e ↦ rw e escape_character
  | no e ↦ elim (ℕ_discrete k b'n') [
    | yes n ↦ rw n line_feed
    | no n ↦ elim (ℕ_discrete k b'r') [
      | yes r ↦ rw r carriage_return
      | no r ↦ elim (ℕ_discrete k b't') [
        | yes t ↦ rw t horizontal_tab
        | no t ↦ let same : control_char k ≡ k = ground arith in rw same (itself e n r t h)
      ]
    ]
  ]
]

-- An escape consumes at least one byte.
read_escape-lt : (r : Bytes) {out r' : Bytes} → read_escape r ≡ ok (out, r') → length r' < length r
unfolding read_escape copy_hex
read_escape-lt [] h = ground arith
read_escape-lt (c ∷ []) h = ground arith
read_escape-lt (c ∷ a ∷ []) h = ground arith
read_escape-lt (c ∷ a ∷ b ∷ r) h = ground arith

-- The fuel of the loop of `decodeSSID` is enough where it exceeds the number of bytes that are
-- left.
pub decode_loop-ne-none : (fuel : ℕ) (r s : Bytes) → length r < fuel → decode_loop fuel r s ≢ none
unfolding decode_loop
decode_loop-ne-none zero r s h = absurd (omega arith)
decode_loop-ne-none (suc fuel) [] s h = λ e. cc
decode_loop-ne-none (suc fuel) (c ∷ r) s h = elim (Result-cases (read_escape r)) [
  | inl ((out, r'), e) ↦ ground (
    arith,
    read_escape-lt r e,
    decode_loop-ne-none fuel r (s ++ c ∷ []),
    decode_loop-ne-none fuel r' (s ++ out),
  )
  | inr (x, e) ↦ ground (arith, decode_loop-ne-none fuel r (s ++ c ∷ []))
]

decode_loop_plain :
    (fuel c : ℕ) (r s : Bytes)
    → c ≢ b'\\'
    → decode_loop (suc fuel) (c ∷ r) s ≡ decode_loop fuel r (s ++ c ∷ [])
unfolding decode_loop
decode_loop_plain fuel c r s h = ground arith

decode_loop_escape :
    (fuel c : ℕ) (r s : Bytes) {out r' : Bytes}
    → c ≡ b'\\'
    → read_escape r ≡ ok (out, r')
    → decode_loop (suc fuel) (c ∷ r) s ≡ decode_loop fuel r' (s ++ out)
unfolding decode_loop
decode_loop_escape fuel c r s h e = ground arith

read_escape_char :
    (k : ℕ) (v : Bytes) → k ≢ b'x' → read_escape (k ∷ v) ≡ ok (control_char k ∷ [], v)
unfolding read_escape
read_escape_char k v h = ground arith

read_escape_hex :
    (k a b x y : ℕ) (v : Bytes)
    → k ≡ b'x'
    → hex_value a ≡ some x
    → hex_value b ≡ some y
    → read_escape (k ∷ a ∷ b ∷ v) ≡ ok ((x * 16 + y) ∷ [], v)
unfolding read_escape copy_hex
read_escape_hex k a b x y v h p q = ground arith

read_escape_cut : (k : ℕ) → k ≡ b'x' → read_escape (k ∷ []) ≡ ok ([], [])
unfolding read_escape copy_hex
read_escape_cut k h = ground arith

decode_loop_complete :
    (fuel : ℕ) (s : Bytes) {v t : Bytes}
    → Encodes v t
    → length v < fuel
    → decode_loop fuel v s ≡ some (ok (s ++ t))
decode_loop_complete zero s e h = absurd (omega arith)
decode_loop_complete (suc fuel) s done h = unfold decode_loop in rw append-nil
decode_loop_complete (suc fuel) s (plain {c} {v} {s = t} ne e) h =
    decode_loop_plain fuel c v s ne
    ∙ decode_loop_complete fuel (s ++ c ∷ []) e (omega arith)
    ∙ ap (λ x. some (ok x)) (append_assoc s (c ∷ []) t)
decode_loop_complete (suc fuel) s (escape {c} {k} {x} {v} {s = t} p q e) h =
    let (other, same) = Escapes-control_char q in
    let read : read_escape (k ∷ v) ≡ ok (x ∷ [], v) = rw (read_escape_char k v other, same) refl in
    decode_loop_escape fuel c (k ∷ v) s p read
    ∙ decode_loop_complete fuel (s ++ x ∷ []) e (omega arith)
    ∙ ap (λ x. some (ok x)) (append_assoc s (x ∷ []) t)
decode_loop_complete (suc fuel) s (hex {c} {k} {a} {b} {x} {y} {v} {s = t} p q ha hb e) h =
    decode_loop_escape fuel c (k ∷ a ∷ b ∷ v) s p (read_escape_hex k a b x y v q ha hb)
    ∙ decode_loop_complete fuel (s ++ (x * 16 + y) ∷ []) e (omega arith)
    ∙ ap (λ x. some (ok x)) (append_assoc s ((x * 16 + y) ∷ []) t)
decode_loop_complete (suc zero) s (cut {c} {k} p q) h = absurd (omega arith)
decode_loop_complete (suc (suc fuel)) s (cut {c} {k} p q) h =
    decode_loop_escape (suc fuel) c (k ∷ []) s p (read_escape_cut k q)
    ∙ (unfold decode_loop in rw append-nil)

Encodes-nil : {t : Bytes} → Encodes [] t → t ≡ []
Encodes-nil done = refl

-- What `io.Copy` may read after "\x".
copy_hex-Encodes :
    (c k : ℕ) (s out r' t : Bytes)
    → c ≡ b'\\'
    → k ≡ b'x'
    → copy_hex s ≡ ok (out, r')
    → Encodes r' t
    → Encodes (c ∷ k ∷ s) (out ++ t)
copy_hex-Encodes c k [] out r' t p q h e =
    let o : out ≡ [] = unfold copy_hex in ground arith in
    let l : r' ≡ [] = unfold copy_hex in ground arith in
    rw o (rw (Encodes-nil (rw l at e)) (cut p q))
copy_hex-Encodes c k (a ∷ []) out r' t p q h e = absurd (unfold copy_hex in ground arith)
copy_hex-Encodes c k (a ∷ b ∷ s) out r' t p q h e = elim (Option-cases (hex_value a)) [
  | inl ha ↦ absurd (unfold copy_hex in ground arith)
  | inr (x, ha) ↦ elim (Option-cases (hex_value b)) [
    | inl hb ↦ absurd (unfold copy_hex in ground arith)
    | inr (y, hb) ↦
        let o : out ≡ (x * 16 + y) ∷ [] = unfold copy_hex in ground arith in
        let l : r' ≡ s = unfold copy_hex in ground arith in rw o (hex p q ha hb (rw l at e))
  ]
]

read_escape_x : (k : ℕ) (r : Bytes) → k ≡ b'x' → read_escape (k ∷ r) ≡ copy_hex r
unfolding read_escape
read_escape_x k r h = ground arith

-- What an escape may be.
read_escape-Encodes :
    (c : ℕ) (r out r' t : Bytes)
    → c ≡ b'\\'
    → read_escape r ≡ ok (out, r')
    → Encodes r' t
    → Encodes (c ∷ r) (out ++ t)
read_escape-Encodes c [] out r' t p h e = absurd (unfold read_escape in ground arith)
read_escape-Encodes c (k ∷ r) out r' t p h e = elim (Bool-cases (k == b'x')) [
  | inl is_x ↦
      copy_hex-Encodes c k r out r' t p (ground arith) (sym (read_escape_x k r (ground arith)) ∙ h)
        e
  | inr other ↦
      let read = read_escape_char k r (ground arith) in
      let o : out ≡ control_char k ∷ [] = ground arith in
      let l : r' ≡ r = ground arith in
      rw o (escape p (control_char-Escapes k (ground arith)) (rw l at e))
]

decode_loop_sound :
    (fuel : ℕ) (v s u : Bytes)
    → decode_loop fuel v s ≡ some (ok u)
    → (t : Bytes) × Encodes v t × (u ≡ s ++ t)
decode_loop_sound zero v s u h = absurd (unfold decode_loop in ground arith)
decode_loop_sound (suc fuel) [] s u h =
    ([], done, rw append-nil (unfold decode_loop in ground arith))
decode_loop_sound (suc fuel) (c ∷ v) s u h = elim (Bool-cases (c == b'\\')) [
  | inl slash ↦ elim (Result-cases (read_escape v)) [
    | inl ((out, v'), e) ↦
        let (t, enc, eq) =
          decode_loop_sound fuel v' (s ++ out) u
            (sym (decode_loop_escape fuel c v s (ground arith) e) ∙ h) in
        (out ++ t, read_escape-Encodes c v out v' t (ground arith) e enc, eq ∙ append_assoc s out t)
    | inr (x, e) ↦ absurd (unfold decode_loop in ground arith)
  ]
  | inr other ↦
      let ne : c ≢ b'\\' = ground arith in
      let (t, enc, eq) =
        decode_loop_sound fuel v (s ++ c ∷ []) u (sym (decode_loop_plain fuel c v s ne) ∙ h) in
      (c ∷ t, plain ne enc, eq ∙ append_assoc s (c ∷ []) t)
]

finished-eq-ok : (o : Option (Result Bytes)) {s : Bytes} → finished o ≡ ok s → o ≡ some (ok s)
unfolding finished
finished-eq-ok none h = cc
finished-eq-ok (some r) h = cc

-- `decodeSSID` returns `s` with no error exactly where the text encodes `s`.
pub decode_ssid_iff : (v s : Bytes) → (decode_ssid v ≡ ok s) ↔ Encodes v s
unfolding decode_ssid
decode_ssid_iff v s = (
  λ h.
      let run = finished-eq-ok (decode_loop (suc (length v)) v []) h in
      let (t, enc, eq) = decode_loop_sound (suc (length v)) v [] s run in rw eq enc,
  λ e. ap finished (decode_loop_complete (suc (length v)) [] e (omega arith)),
)
