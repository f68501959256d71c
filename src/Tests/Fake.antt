-- ===== src/Tests/Fake.antt =====
-- The client connected to the fake hostapd.
use wifi_presence.Base.{
  false, ℕ, ◌≡◌, ◌≤◌, refl, arith, true, none, some, [], ◌∷◌, Bytes, codes, length, take, take_all,
}
use wifi_presence.Base.Errors.{Result, ok, err, external}
use wifi_presence.Base.Int.{pos, negsuc}
use wifi_presence.Strconv.Itoa.{itoa}
use wifi_presence.Hostapd.Mac.{is_mac}
use wifi_presence.Hostapd.Ctrl.{get_status, Ctrl, is_positive}
use wifi_presence.Hostapd.Client.{stations}
use wifi_presence.Hostapd.Status.Ssid.Encodes.{Encodes, done, plain}
use wifi_presence.HostapdTest.{
  StatusResp, StationResp, Handler, Round, went_on, left, no_handler, default_handler,
  serve_message, encode_station, encode_status,
}
use wifi_presence.HostapdTest.Encode.{IsStatus}
use wifi_presence.HostapdTest.EncodeStation.{IsStation, station_of}
use wifi_presence.HostapdTest.Links.{Links}
use wifi_presence.HostapdTest.Answers.{stations-default_handler, get_status-default_handler}
use wifi_presence.HostapdTest.Panics.{serve_message-panicked}
use wifi_presence.HostapdTest.{serve_message, panicked}
use wifi_presence.Base.{◌↔◌, true, has_prefix, none}

abbrev phone : StationResp
phone = record { mac = codes "01:23:45:67:89:ab"; assoc = true; signal = negsuc 39 }

abbrev laptop : StationResp
laptop = record { mac = codes "fe:dc:ba:98:76:54"; assoc = false; signal = pos 7 }

abbrev status : StatusResp
status = record {
  state = codes "ENABLED";
  channel = pos 11;
  ssid = codes "ab";
  bssid = codes "00:00:00:00:00:01";
  max_tx_power = pos 20;
}

abbrev fake : Handler (Unit {0})
fake = default_handler status (phone ∷ laptop ∷ [])

-- What a read returns after a round of `Serve`.
abbrev reply_of : ℕ → Round → Result Bytes
reply_of n (went_on (some p)) = ok (take n p)
reply_of n (left p) = ok (take n p)
reply_of n _ = err (external 0)

-- A connection whose state is the last command.
abbrev linked : Ctrl Bytes
linked = record {
  read_timeout = pos 1000000000;
  write_timeout = pos 1000000000;
  conn = record {
    set_write_deadline = λ timeout s. (s, none);
    set_read_deadline = λ timeout s. (s, none);
    write = λ command s. (command, none);
    read = λ n s. (s, reply_of n (serve_message fake (take 128 s) tt).1);
  };
  buffer = 4096;
}

linked-Links : Links linked fake
unfolding is_positive
linked-Links = record {
  after = λ command s. command;
  answers = λ command p s short fits e. record {
    before_write = s;
    before_deadline = command;
    before_read = command;
    write_deadline = refl;
    written = refl;
    read_deadline = refl;
    response = rw (take_all 128 command short, e, take_all 4096 p fits) refl;
  };
}

status-IsStatus : IsStatus status
status-IsStatus = record {
  state = ground arith;
  ssid = ground arith;
  bssid = ground arith;
  channel = (omega arith, omega arith);
  max_tx_power = (omega arith, omega arith);
}

phone-IsStation : IsStation phone
unfolding is_mac
phone-IsStation = record { mac = refl; signal = (omega arith, omega arith) }

laptop-IsStation : IsStation laptop
unfolding is_mac
laptop-IsStation = record { mac = refl; signal = (omega arith, omega arith) }

phone_fits : length (encode_station phone) ≤ 4096
unfolding encode_station itoa
phone_fits = omega arith

laptop_fits : length (encode_station laptop) ≤ 4096
unfolding encode_station itoa
laptop_fits = omega arith

status_fits : length (encode_status status) ≤ 4096
unfolding encode_status itoa
status_fits = omega arith

ssid-Encodes : Encodes (codes "ab") (codes "ab")
ssid-Encodes = plain (ground arith) (plain (ground arith) done)

stations-default_handler_example :
    (s' : Bytes) × (stations 2 linked []
      ≡ some (s', ok (station_of phone ∷ station_of laptop ∷ [])))
stations-default_handler_example =
    stations-default_handler 2 linked status (phone ∷ laptop ∷ []) [] linked-Links
      ((ground arith, tt), (tt, tt))
      (
        record { station = phone-IsStation; reply = phone_fits },
        (record { station = laptop-IsStation; reply = laptop_fits }, tt),
      )
      (omega arith)

-- A handler of nothing.
abbrev nothing_set : Handler (Unit {0})
nothing_set = no_handler

get_status-default_handler_example : get_status linked [] ≡ (
  linked-Links.after (codes "STATUS") [],
  ok (record {
    state = codes "ENABLED";
    channel = pos 11;
    max_tx_power = pos 20;
    ssid = codes "ab";
    bssid = codes "00:00:00:00:00:01";
  }),
)
get_status-default_handler_example =
    get_status-default_handler linked status (phone ∷ laptop ∷ []) (codes "ab") [] linked-Links
      status-IsStatus ssid-Encodes status_fits

serve_message-panicked_example :
    ((serve_message nothing_set (codes "STA-NEXT 01") tt).1 ≡ panicked) ↔ (
      (has_prefix (codes "STA-NEXT 01") (codes "STA-NEXT") ≡ true)
      × (nothing_set.on_station_next ≡ none))
serve_message-panicked_example = serve_message-panicked nothing_set (codes "STA-NEXT 01") tt
