-- ===== src/Tests/Attach.antt =====
-- The loop of `attach` on messages that wait to be read.
use wifi_presence.Base.{
  ◌≡◌, refl, arith, false, Option, none, some, List, [], ◌∷◌, ◌++◌, Bytes, codes, equal, has_prefix,
  trim_space, trim_prefix,
}
use wifi_presence.Base.Errors.{Error, Result, ok, err, external, terminating}
use wifi_presence.Base.Int.{pos}
use wifi_presence.Hostapd.Mac.{is_mac}
use wifi_presence.Hostapd.Event.{Event, station_connect, parse_event, connect_mac}
use wifi_presence.Hostapd.Ctrl.{Ctrl}
use wifi_presence.Hostapd.Attach.{stop, deliver, receive, attach_loop}
use wifi_presence.Hostapd.Attach.Order.{ends, more, all_events, attach_loop-Reads}

abbrev connect_text : Bytes
connect_text = codes "<3>AP-STA-CONNECTED 01:23:45:67:89:ab"

abbrev connect_read : Event
connect_read = station_connect connect_text (codes "01:23:45:67:89:ab")

abbrev take_next : List Bytes → List Bytes × Result Bytes
take_next [] = ([], err (external 0))
take_next (p ∷ ps) = (ps, ok p)

abbrev waiting_messages : Ctrl (List Bytes)
waiting_messages = record {
  read_timeout = pos 0;
  write_timeout = pos 0;
  conn = record {
    set_write_deadline = λ timeout s. (s, none);
    set_read_deadline = λ timeout s. (s, none);
    write = λ command s. (s, none);
    read = λ size s. take_next s;
  };
  buffer = 4096;
}

abbrev collect : Event → List Event → List Event × Option Error
collect event seen = (seen ++ event ∷ [], none)

connect_delivered : receive false connect_text ≡ deliver connect_read
unfolding receive parse_event has_prefix is_mac connect_mac trim_space trim_prefix equal
connect_delivered = refl

terminating_stops : receive false (codes "<3>CTRL-EVENT-TERMINATING ") ≡ stop (some terminating)
unfolding receive parse_event has_prefix trim_space equal
terminating_stops = refl

attach_loop-Reads_example :
    attach_loop 2 waiting_messages
      (λ s. false)
      collect
      (connect_text ∷ codes "<3>CTRL-EVENT-TERMINATING " ∷ [])
      []
    ≡ some ([], all_events collect (connect_read ∷ []) [], some terminating)
attach_loop-Reads_example =
    attach_loop-Reads 2 waiting_messages (λ s. false) collect (some terminating) (connect_read ∷ [])
      [] (connect_text ∷ codes "<3>CTRL-EVENT-TERMINATING " ∷ []) (λ event d. refl) (omega arith)
      (more refl connect_delivered (ends refl terminating_stops))
