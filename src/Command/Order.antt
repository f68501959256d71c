-- ===== src/Command/Order.antt =====
-- The order in which `run` connects and cleans up.
use wifi_presence.Base.{◌≡◌, refl, false, none}
use wifi_presence.Base.Errors.{ok}
use wifi_presence.Hass.Mqtt.{Mqtt}
use wifi_presence.Command.{
  daemon_opts, Args, Calls, validate, mqtt_opts, split, connect_clients, run_clients, clean_up, run,
}

module _ {C W : Type 0} (calls : Calls C W) where
  -- Where the arguments pass the checks, `NewMQTT` succeeds and the status online is published, then
  -- whatever fails after that, `run` last publishes the status offline and then closes the MQTT
  -- client, and returns the error that came before.
  run_ends_offline :
      (args : Args) (w : W) {w1 w2 : W} {mqtt : Mqtt}
      → args.version ≡ false
      → args.more_help ≡ false
      → validate args ≡ none
      → calls.connect (mqtt_opts args) w ≡ (w1, ok mqtt)
      → calls.online mqtt w1 ≡ (w2, none)
      → let (w3, e) =
          run_clients calls args mqtt
            (connect_clients calls args.sock_dir (split args.hostapd_socks) w2) in
        run calls args w ≡ (calls.close_mqtt mqtt (calls.offline mqtt w3).0, e)
  unfolding run clean_up validate connect_clients daemon_opts
  run_ends_offline args w v m ok_args c o = rw (v, m, ok_args, c, o) refl
