-- ===== src/Command/Exit.antt =====
-- The exit code of `main`.
use wifi_presence.Base.{
  ◌≡◌, ◌↔◌, refl, arith, true, Option, none, some, Bytes, Bool-cases, inl, inr,
}
use wifi_presence.Base.Errors.{Error, wrapped, terminating, is_terminating}
use wifi_presence.Command.{exit_code}

-- The error is another one, or wraps it.
pub data Wraps (target : Error) : Error → Type 0 where
  itself : Wraps target target
  within : {text : Bytes} {e : Error} → Wraps target e → Wraps target (wrapped text e)

is_terminating-Wraps : (e : Error) → is_terminating e ≡ true → Wraps terminating e
unfolding is_terminating
is_terminating-Wraps (wrapped text e) h = within (is_terminating-Wraps e h)
is_terminating-Wraps terminating h = itself
is_terminating-Wraps _ h = absurd (ground arith)

Wraps-is_terminating : {e : Error} → Wraps terminating e → is_terminating e ≡ true
unfolding is_terminating
Wraps-is_terminating itself = refl
Wraps-is_terminating (within w) = Wraps-is_terminating w

-- The program exits with 125 exactly where `run` returns an error that is, or wraps at any depth,
-- the error that hostapd terminates; with 0 exactly where it returns none.
pub exit_code_lem :
    (o : Option Error)
    → ((exit_code o ≡ 125) ↔ ((e : Error) × (o ≡ some e) × Wraps terminating e))
      × ((exit_code o ≡ 0) ↔ (o ≡ none))
unfolding exit_code
exit_code_lem none = (
  (λ h. absurd (ground arith), λ h. let (e, p, q) = h in absurd (ground arith)),
  (λ h. refl, λ h. refl),
)
exit_code_lem (some e) = elim (Bool-cases (is_terminating e)) [
  | inl t ↦
      rw (exit_code, t)
        (
          (λ h. (e, refl, is_terminating-Wraps e t), λ h. refl),
          (λ h. absurd (ground arith), λ h. absurd (ground arith)),
        )
  | inr t ↦
      rw (exit_code, t)
        (
          (
            λ h. absurd (ground arith),
            λ h.
                let (x, p, w) = h in
                let same : e ≡ x = ground arith in
                let y = Wraps-is_terminating w in absurd (ground arith),
          ),
          (λ h. absurd (ground arith), λ h. absurd (ground arith)),
        )
]
