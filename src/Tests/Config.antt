-- ===== src/Tests/Config.antt =====
-- The handler of configurations on concrete configurations.
use wifi_presence.Presence.Connected.{
  connected_or_none, connected_stations, connected_from, add_stations,
}
use wifi_presence.Presence.State.{list_stations}
use wifi_presence.Presence.Events.{get_daemon}
use wifi_presence.Presence.Config.{remove_missing}
use wifi_presence.Base.Maps.{erase}
use wifi_presence.Base.{
  All, arith, ◌++◌, ◌≢◌, ◌↔◌, equal, true, false, ◌≡◌, refl, inl, inr, none, [], ◌∷◌, codes,
}
use wifi_presence.Presence.Config.{
  sta_removed, Changes, classify, is_update, or_zero, sta_added, remove_all_missing, sta_no_change,
  diff_devices, process_changes, on_config_change,
}
use wifi_presence.Presence.Events.Branches.{published}
use wifi_presence.Presence.Config.Publishes.{all_messages, discovery_message, removal_message}
use wifi_presence.Presence.Config.Publishes.Whole.{view_of}
use wifi_presence.Presence.Config.Publishes.Handler.{connected_if, on_config_change_publish}
use wifi_presence.Presence.Delivery.{not_home_message}
use wifi_presence.Presence.Mac.{to_string}
use wifi_presence.Presence.Config.Reapply.{Listed, Tracked, reapply_silent, duplicate_device_lost}
use wifi_presence.Presence.Config.OnlyListed.{tracked_iff_Listed}
use wifi_presence.Presence.State.{get_station, ◌>>=◌, State, put_station, zero_station}
use wifi_presence.Tests.Fixtures.{daemon, mac1, mac2, mac3, phone, laptop, state}
use wifi_presence.Base.Maps.{insert, lookup}
use wifi_presence.Base.Errors.{ok}
use wifi_presence.Hass.Messages.{TrackConfig, Configuration}
use wifi_presence.Presence.Mac.{mac_key, mac_eq, decode}

abbrev phone_config : TrackConfig
phone_config = record { name = codes "Phone"; mac = codes "01:23:45:67:89:ab" }

abbrev laptop_config : TrackConfig
laptop_config = record { name = codes "Laptop"; mac = codes "FE:DC:BA:98:76:54" }

abbrev tablet_config : TrackConfig
tablet_config = record { name = codes "Tablet"; mac = codes "00:01:02:03:04:05" }

abbrev config : Configuration
config = record { devices = laptop_config ∷ phone_config ∷ [] }

phone_decodes : decode phone_config.mac ≡ ok mac1
unfolding decode
phone_decodes = refl

laptop_decodes : decode laptop_config.mac ≡ ok mac2
unfolding decode
laptop_decodes = refl

tablet_decodes : decode tablet_config.mac ≡ ok mac3
unfolding decode
tablet_decodes = refl

phone-Tracked : Tracked state phone_config
unfolding lookup mac_eq
phone-Tracked = record {
  mac = mac1;
  sta = phone;
  decodes = phone_decodes;
  found = refl;
  name = refl;
  keyed = refl;
}

laptop-Tracked : Tracked state laptop_config
unfolding lookup mac_eq
laptop-Tracked = record {
  mac = mac2;
  sta = laptop;
  decodes = laptop_decodes;
  found = refl;
  name = refl;
  keyed = refl;
}

reapply_silent_example : on_config_change (λ changes. changes) config state ≡ (state, ok tt)
reapply_silent_example =
    reapply_silent (λ changes. changes) config state (λ P changes h. h)
      (laptop-Tracked, (phone-Tracked, tt)) (inr (inl phone_decodes), (inl laptop_decodes, tt))

tablet_is_new : lookup mac3 state.daemon.stations ≡ none
unfolding lookup mac_eq
tablet_is_new = refl

duplicate_device_lost_example :
    let s' =
      (put_station mac3 (record zero_station { name = codes "Tablet"; mac = mac3 }) state).0 in
    (diff_devices (tablet_config ∷ tablet_config ∷ []) [] false state
      ≡ (s', ok ((mac3, sta_no_change) ∷ [], true)))
    × (process_changes [] ((mac3, sta_no_change) ∷ []) s' ≡ (s', ok tt))
duplicate_device_lost_example =
    duplicate_device_lost tablet_config mac3 [] state tablet_decodes tablet_is_new

abbrev next_config : Configuration
next_config = record { devices = tablet_config ∷ laptop_config ∷ [] }

abbrev after_diff : State
after_diff = record state {
  daemon = record daemon {
    stations =
        (mac1, phone)
        ∷ (mac2, laptop)
        ∷ (mac3, record zero_station { name = codes "Tablet"; mac = mac3 })
        ∷ [];
  };
}

next_changes :
    diff_devices next_config.devices [] false state
    ≡ (after_diff, ok ((mac3, sta_added) ∷ (mac2, sta_no_change) ∷ [], true))
unfolding diff_devices decode lookup insert mac_eq equal ◌>>=◌ get_station put_station classify
    is_update or_zero
next_changes = refl

tracked_iff_Listed_example :
    (lookup mac1
        (remove_all_missing
          ((mac3, sta_added) ∷ (mac2, sta_no_change) ∷ [])
          after_diff).0.daemon.stations
      ≢ none)
    ↔ Listed mac1 next_config.devices
tracked_iff_Listed_example = tracked_iff_Listed next_config state mac1 next_changes

abbrev removed : State
removed = record state {
  daemon = record daemon {
    stations =
        (mac2, laptop) ∷ (mac3, record zero_station { name = codes "Tablet"; mac = mac3 }) ∷ [];
  };
}

abbrev all_changes : Changes
all_changes = (mac3, sta_added) ∷ (mac2, sta_no_change) ∷ (mac1, sta_removed) ∷ []

removes :
    remove_all_missing ((mac3, sta_added) ∷ (mac2, sta_no_change) ∷ []) after_diff
    ≡ (removed, ok all_changes)
unfolding remove_all_missing ◌>>=◌ get_daemon remove_missing lookup mac_eq insert erase
removes = refl

abbrev listed : State
listed = (connected_if true removed).0

lists : connected_if true removed ≡ (listed, ok [])
unfolding connected_or_none connected_stations ◌>>=◌ get_daemon connected_from list_stations
    add_stations
lists = refl

next_named : All (λ (dev : TrackConfig). dev.name ≢ []) next_config.devices
next_named = (λ e. absurd (ground (arith, e)), (λ e. absurd (ground (arith, e)), tt))

on_config_change_publish_example :
    ((on_config_change (λ changes. changes) next_config state).1 ≡ ok tt)
    × (published (on_config_change (λ changes. changes) next_config state).0
        ≡ published state ++ all_messages (view_of listed) [] state.world.readings all_changes)
on_config_change_publish_example =
    on_config_change_publish (λ changes. changes) next_config state (λ n. refl) (λ changes d. d)
      (λ P changes h. h) next_named next_changes removes lists

-- The messages: the tablet is announced and is not connected, and the phone is withdrawn.
three_messages :
    all_messages (view_of listed) [] state.world.readings all_changes
    ≡ discovery_message daemon.hass (record zero_station { name = codes "Tablet"; mac = mac3 })
      ∷ not_home_message daemon.hass (to_string mac3)
      ∷ removal_message daemon.hass mac1
      ∷ []
unfolding connected_or_none connected_stations ◌>>=◌ get_daemon connected_from list_stations
    add_stations or_zero lookup mac_eq
three_messages = refl
