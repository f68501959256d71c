-- ===== src/Tests/Detach.antt =====
-- `attach` as a whole, with a context that is cancelled after the first event.
use wifi_presence.Base.{
  ℕ, suc, ◌≡◌, refl, true, not, none, some, List, [], ◌∷◌, ◌++◌, Bytes, codes, equal, ◌==◌,
  if◌then◌else◌, Option, has_prefix, trim_space, trim_prefix,
}
use wifi_presence.Base.Errors.{Error, Result, ok, err, external}
use wifi_presence.Base.Int.{pos}
use wifi_presence.Hostapd.Mac.{is_mac}
use wifi_presence.Hostapd.Event.{Event, parse_event, connect_mac, station_connect}
use wifi_presence.Hostapd.Ctrl.{Ctrl, cmd}
use wifi_presence.Hostapd.Attach.{attach_loop, receive}
use wifi_presence.Hostapd.Attach.Detach.{
  Attached, attach_response, send_detach, detach, read_attached, finally_detach, attach,
}
use wifi_presence.Hostapd.Attach.Detach.Once.{Counts, attach_detaches}

-- The messages that will come, and the number of requests DETACH.
record Wire : Type 0 where
  inbox : List Bytes
  sent : ℕ

abbrev first : List Bytes → Result Bytes
first [] = err (external 0)
first (p ∷ ps) = ok p

abbrev rest : List Bytes → List Bytes
rest [] = []
rest (p ∷ ps) = ps

abbrev wire : Ctrl Wire
wire = record {
  read_timeout = pos 1000000000;
  write_timeout = pos 1000000000;
  conn = record {
    set_write_deadline = λ timeout s. (s, none);
    set_read_deadline = λ timeout s. (s, none);
    write = λ command s.
        (if equal command (codes "DETACH") then record s { sent = suc s.sent } else s, none);
    read = λ size s. (record s { inbox = rest s.inbox }, first s.inbox);
  };
  buffer = 4096;
}

abbrev unset : Wire → Wire × Option Error
unset s = (s, none)

wire-Counts : Counts wire unset (λ s. s.sent)
unfolding equal
wire-Counts = record {
  write_deadline = λ t s. refl;
  read_deadline = λ t s. refl;
  read = λ n s. refl;
  write = λ s. refl;
  unset_deadline = λ s. refl;
}

abbrev connect_text : Bytes
connect_text = codes "<3>AP-STA-CONNECTED 01:23:45:67:89:ab"

abbrev connect_read : Event
connect_read = station_connect connect_text (codes "01:23:45:67:89:ab")

abbrev collect : Event → List Event → List Event × Option Error
collect event seen = (seen ++ event ∷ [], none)

abbrev before : Wire
before = record { inbox = codes "OK\n" ∷ connect_text ∷ codes "OK\n" ∷ []; sent = 0 }

abbrev attached : Wire
attached = record { inbox = connect_text ∷ codes "OK\n" ∷ []; sent = 0 }

abbrev after : Attached Wire
after = record { conn = record { inbox = []; sent = 1 }; detached = true; reads = 2 }

answers_ok : cmd wire (codes "ATTACH") attach_response before ≡ (attached, ok tt)
unfolding cmd attach_response equal has_prefix trim_space
answers_ok = refl

returns :
    attach wire 2 unset (λ n. not (n == 0)) collect before []
    ≡ some (after, connect_read ∷ [], none)
unfolding attach cmd attach_response equal attach_loop receive parse_event detach send_detach
    read_attached finally_detach is_mac connect_mac trim_space trim_prefix has_prefix
returns = refl

attach_detaches_example : after.conn.sent ≡ 1
attach_detaches_example =
    attach_detaches wire unset (λ s. s.sent) wire-Counts 2 (λ n. not (n == 0)) collect before []
      answers_ok returns
