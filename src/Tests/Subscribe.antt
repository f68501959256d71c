-- ===== src/Tests/Subscribe.antt =====
-- A subscription on concrete messages.
use wifi_presence.Base.{
  ℕ, suc, ◌==◌, ◌≡◌, refl, Bool, true, false, Option, none, some, [], ◌∷◌, Bytes, codes, equal,
  if◌then◌else◌,
}
use wifi_presence.Base.Errors.{Error, Result, ok, err, wrapped, unexpected_eof, terminating}
use wifi_presence.Hass.Messages.{Configuration}
use wifi_presence.Hass.Broker.{completed, token_wait}
use wifi_presence.Hass.Subscribe.{
  message, selects, receive_message, subscribe_config, nothing, handled, subscribe_config_fails,
}

abbrev read_config : Bytes → Result Configuration
read_config p = if equal p (codes "bad") then err unexpected_eof else ok (record { devices = [] })

-- The callback counts, and fails at the third configuration.
abbrev count : Bool → Configuration → ℕ → ℕ × Option Error
count retained cfg n = (suc n, if n == 2 then some terminating else none)

first_handled : receive_message read_config count true (codes "{}") 0 ≡ (1, none)
unfolding receive_message equal
first_handled = refl

second_fails :
    receive_message read_config count false (codes "bad") 1
    ≡ (1, some (wrapped (codes "unable to decode message") unexpected_eof))
unfolding receive_message equal
second_fails = refl

third_handled : receive_message read_config count false (codes "{}") 1 ≡ (2, none)
unfolding receive_message equal
third_handled = refl

fourth_fails : receive_message read_config count false (codes "full") 2 ≡ (3, some terminating)
unfolding receive_message equal
fourth_fails = refl

fifth_handled : receive_message read_config count false (codes "{}") 3 ≡ (4, none)
unfolding receive_message equal
fifth_handled = refl

completes : token_wait (completed none) (codes "subscribe tracking config") ≡ none
unfolding token_wait
completes = refl

subscribe_config_fails_example :
    subscribe_config read_config count
      (completed none)
      (completed none)
      (message true (codes "{}")
        ∷ message false (codes "bad")
        ∷ message false (codes "{}")
        ∷ message false (codes "full")
        ∷ selects
        ∷ message false (codes "{}")
        ∷ [])
      0
    ≡ some (4, some (wrapped (codes "unable to decode message") unexpected_eof))
subscribe_config_fails_example =
    subscribe_config_fails read_config count (completed none) (completed none)
      (message true (codes "{}") ∷ []) (message false (codes "{}") ∷ [])
      (message false (codes "{}") ∷ []) false false (codes "bad") (codes "full")
      (wrapped (codes "unable to decode message") unexpected_eof) terminating completes
      (handled first_handled nothing) second_fails (handled third_handled nothing) fourth_fails
      (handled fifth_handled nothing)
