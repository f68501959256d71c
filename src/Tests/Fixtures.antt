-- ===== src/Tests/Fixtures.antt =====
-- A daemon with two stations, one of them connected, and what it meets.
use wifi_presence.Base.{◌*◌, ◌+◌, true, none, [], ◌∷◌, codes}
use wifi_presence.Base.Errors.{ok}
use wifi_presence.Base.Int.{pos}
use wifi_presence.Hass.Broker.{completed}
use wifi_presence.Hostapd.Status.{Status, no_status}
use wifi_presence.Presence.Mac.{Mac}
use wifi_presence.Presence.Debounce.{new_debouncer}
use wifi_presence.Presence.State.{Station, Daemon, State, zero_station}

abbrev pub mac1 : Mac
mac1 = record { b0 = 1; b1 = 35; b2 = 69; b3 = 103; b4 = 137; b5 = 171 }

abbrev pub mac2 : Mac
mac2 = record { b0 = 254; b1 = 220; b2 = 186; b3 = 152; b4 = 118; b5 = 84 }

abbrev pub mac3 : Mac
mac3 = record { b0 = 0; b1 = 1; b2 = 2; b3 = 3; b4 = 4; b5 = 5 }

abbrev pub hap1 : Status
hap1 = record no_status { ssid = codes "home"; bssid = codes "00:00:00:00:00:01" }

abbrev pub hap2 : Status
hap2 = record no_status { ssid = codes "home"; bssid = codes "00:00:00:00:00:02" }

abbrev pub phone : Station
phone = record zero_station {
  name = codes "Phone";
  mac = mac1;
  connected = true;
  bssid = codes "00:00:00:00:00:01";
  connected_at = pos 63000000000000000000;
}

abbrev pub laptop : Station
laptop = record zero_station { name = codes "Laptop"; mac = mac2 }

abbrev pub daemon : Daemon
daemon = record {
  ap_name = codes "AP";
  hass = record {
    topics = record {
      name = codes "AP";
      prefix = codes "wifi-presence";
      hass_prefix = codes "homeassistant";
    };
    ap_name = codes "AP";
  };
  haps = hap1 ∷ hap2 ∷ [];
  db = new_debouncer 10000000000;
  hass_auto_disc = true;
  stations = (mac1, phone) ∷ (mac2, laptop) ∷ [];
}

-- A reading of the clock each second.
abbrev pub state : State
state = record {
  daemon = daemon;
  world = record {
    broker = record { published = []; outcome = λ n. completed none };
    clock = λ n. pos (63000000100000000000 + n * 1000000000);
    readings = 0;
    listing = λ n. ok [];
    listings = 0;
  };
}
