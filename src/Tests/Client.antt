-- ===== src/Tests/Client.antt =====
-- `Stations` with a fake hostapd.
use wifi_presence.Base.{
  ◌≡◌, refl, arith, true, none, some, [], ◌∷◌, Bytes, codes, equal, if◌then◌else◌, has_prefix,
  split_pair,
}
use wifi_presence.Base.Errors.{Result, ok}
use wifi_presence.Base.Int.{pos, negsuc}
use wifi_presence.Strconv.Atoi.{atoi}
use wifi_presence.Hostapd.Mac.{is_mac}
use wifi_presence.Hostapd.Station.{Station, no_station, parse_station}
use wifi_presence.Hostapd.Ctrl.{
  Ctrl, nothing, got, is_unknown, is_positive, station_first, station_next,
}
use wifi_presence.Hostapd.Client.{stations}
use wifi_presence.Hostapd.Client.Listing.{ends, more, Responds, stations-Answers}

-- The state of the fake is the last command.
abbrev answer : Bytes → Result Bytes
answer command =
    if equal command (codes "STA-FIRST")
    then ok (codes "01:23:45:67:89:ab\nsignal=-40\n")
    else if equal command (codes "STA-NEXT 01:23:45:67:89:ab")
    then ok (codes "fe:dc:ba:98:76:54\n")
    else ok []

abbrev fake : Ctrl Bytes
fake = record {
  read_timeout = pos 1000000000;
  write_timeout = pos 0;
  conn = record {
    set_write_deadline = λ timeout s. (s, none);
    set_read_deadline = λ timeout s. (s, none);
    write = λ command s. (command, none);
    read = λ size s. (s, answer s);
  };
  buffer = 4096;
}

-- A hostapd without the station commands.
abbrev basic : Ctrl Bytes
basic = record {
  read_timeout = pos 0;
  write_timeout = pos 1000000000;
  conn = record {
    set_write_deadline = λ timeout s. (s, none);
    set_read_deadline = λ timeout s. (s, none);
    write = λ command s. (command, none);
    read = λ size s. (s, ok (codes "UNKNOWN COMMAND\n"));
  };
  buffer = 4096;
}

abbrev first : Station
first = record no_station { mac = codes "01:23:45:67:89:ab"; signal = negsuc 39 }

abbrev second : Station
second = record no_station { mac = codes "fe:dc:ba:98:76:54" }

first_answer : station_first fake [] ≡ (codes "STA-FIRST", got first)
unfolding station_first equal has_prefix parse_station is_mac split_pair atoi
first_answer = refl

second_answer :
    station_next fake (codes "01:23:45:67:89:ab") (codes "STA-FIRST")
    ≡ (codes "STA-NEXT 01:23:45:67:89:ab", got second)
unfolding station_next equal has_prefix parse_station is_mac
second_answer = refl

no_answer :
    station_next fake (codes "fe:dc:ba:98:76:54") (codes "STA-NEXT 01:23:45:67:89:ab")
    ≡ (codes "STA-NEXT fe:dc:ba:98:76:54", nothing)
unfolding station_next equal has_prefix
no_answer = refl

stations-Answers_example :
    stations 5 fake [] ≡ some (codes "STA-NEXT fe:dc:ba:98:76:54", ok (first ∷ second ∷ []))
stations-Answers_example =
    stations-Answers 5 fake nothing first (second ∷ []) [] (omega arith) tt first_answer
      (more second_answer (ends no_answer))

basic-Responds :
    Responds basic (codes "STA-FIRST") (codes "UNKNOWN COMMAND\n") [] (codes "STA-FIRST")
unfolding is_positive
basic-Responds = record {
  before_write = [];
  before_deadline = codes "STA-FIRST";
  before_read = codes "STA-FIRST";
  write_deadline = refl;
  written = refl;
  read_deadline = refl;
  response = refl;
}

basic_is_unknown : is_unknown (codes "UNKNOWN COMMAND\n") ≡ true
unfolding is_unknown has_prefix
basic_is_unknown = refl
