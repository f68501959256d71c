-- ===== src/Command/Resources/Whole.antt =====
-- The descriptors that `run` as a whole leaves open.
use wifi_presence.Base.{◌↔◌, ℕ, true, false, sym, ◌≡◌, ◌∙◌, refl, Option, none, some}
use wifi_presence.Base.Errors.{Error, Result, ok, err}
use wifi_presence.Command.{
  Args, Calls, clean_up, run_online, run_connected, run, validate, mqtt_opts,
}
use wifi_presence.Hass.Mqtt.{Mqtt}
use wifi_presence.Hostapd.Status.{Status}
use wifi_presence.Hostapd.Client.Open.{Platform, Client}
use wifi_presence.Hostapd.Socket.{Os}
use wifi_presence.Hostapd.Socket.Kernel.{Files, Kernel}
use wifi_presence.Command.Resources.{with_clients, SameAt, UsesLink}

module _ {S : Type 0} (os : Os S) (f : Files S) (k : Kernel f os) (p : Platform)
    (calls : Calls (Client S) S) (args : Args) (s0 : S) (link : ℕ)
    (h : UsesLink os f k p calls link (mqtt_opts args) s0) where
  abbrev Same : ℕ → S → S → Type 0
  Same = SameAt os f k p calls

  abbrev all : Calls (Client S) S
  all = with_clients os p calls

  abbrev Leaks : Type 0
  Leaks =
      (m : Mqtt) × (s1 : S) × (s2 : S) × (e : Error) × (calls.connect (mqtt_opts args) s0
        ≡ (s1, ok m))
      × (calls.online m s1 ≡ (s2, some e))
      × (f.is_open link s2 ≡ true)

  true_ne_false : true ≡ false → ⊥
  true_ne_false e = cc

  online-leaks :
      (m : Mqtt) (s1 : S) (q : S × Option Error)
      → calls.connect (mqtt_opts args) s0 ≡ (s1, ok m)
      → calls.online m s1 ≡ q
      → f.is_open link (run_online all args m q).0 ≡ true
      → Leaks
  unfolding clean_up
  online-leaks m s1 (s2, some e) c o x = (m, s1, s2, e, c, o, x)
  online-leaks m s1 (s2, none) c o x = absurd (true_ne_false (sym x ∙ h.closed m _))

  connected-leaks :
      (q : S × Result Mqtt)
      → calls.connect (mqtt_opts args) s0 ≡ q
      → f.is_open link (run_connected all args q).0 ≡ true
      → Leaks
  connected-leaks (s1, err e) c x =
      absurd (true_ne_false (sym x ∙ h.not_connected c ∙ h.was_closed))
  connected-leaks (s1, ok m) c x = online-leaks m s1 (calls.online m s1) c refl x

  pub run_leaks :
      args.version ≡ false
      → args.more_help ≡ false
      → validate args ≡ none
      → (f.is_open link (run all args s0).0 ≡ true) ↔ (
          (m : Mqtt) × (s1 : S) × (s2 : S) × (e : Error) × (calls.connect (mqtt_opts args) s0
            ≡ (s1, ok m))
          × (calls.online m s1 ≡ (s2, some e))
          × (f.is_open link s2 ≡ true))
  unfolding run validate
  run_leaks v m q = (
    λ x. connected-leaks (calls.connect (mqtt_opts args) s0) refl (rw (run, v, m, q) at x),
    λ (m', s1, s2, e, c, o, x). rw (run, v, m, q, c, o) x,
  )
