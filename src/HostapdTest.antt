-- ===== src/HostapdTest.antt =====
-- internal/hostapd/hostapdtest: the fake hostapd of the tests. The lock of the handler, which is held
-- during each callback, is left out. The socket gives the messages in order and takes the replies;
-- the messages that the goroutine of ATTACH sends are left out.
pub mod Encode
pub mod EncodeStation
pub mod Links
pub mod Answers
pub mod Panics
pub mod Listener
use wifi_presence.Base.{
  ℕ, Bool, true, false, Option, none, some, List, [], ◌∷◌, ◌++◌, Bytes, codes, equal, has_prefix,
  trim_prefix, take, if◌then◌else◌,
}
use wifi_presence.Base.Errors.{Error}
use wifi_presence.Base.Int.{ℤ, pos}
use wifi_presence.Strconv.Itoa.{itoa}

-- `type StatusResp struct`.
pub record StatusResp : Type 0 where
  pub state : Bytes
  pub channel : ℤ
  pub ssid : Bytes
  pub bssid : Bytes
  pub max_tx_power : ℤ

-- `type StationResp struct`.
pub record StationResp : Type 0 where
  pub mac : Bytes
  pub assoc : Bool
  pub signal : ℤ

-- The zero value.
abbrev pub no_station_resp : StationResp
no_station_resp = record { mac = []; assoc = false; signal = pos 0 }

abbrev pub line : Bytes → Bytes
line s = s ++ b'\n' ∷ []

-- `(*StatusResp).encode`.
unfoldable pub encode_status : StatusResp → Bytes
encode_status s =
    line (codes "state=" ++ s.state)
    ++ (line (codes "channel=" ++ itoa s.channel)
        ++ (line (codes "max_txpower=" ++ itoa s.max_tx_power)
            ++ (line (codes "ssid[0]=" ++ s.ssid) ++ line (codes "bssid[0]=" ++ s.bssid))))

-- `(*StationResp).encode`.
unfoldable pub encode_station : StationResp → Bytes
encode_station s =
    line s.mac
    ++ ((if s.assoc then line (codes "flags=[ASSOC]") else [])
        ++ (codes "signal=" ++ itoa s.signal))

-- What `onStationFirst` returns: `(resp, unknown, ok)`.
pub record First : Type 0 where
  pub resp : StationResp
  pub unknown : Bool
  pub ok : Bool

-- `type Handler struct`: the callbacks that may be unset. `H` is what they change. `on_attach` tells
-- whether the channel that it returns is not nil, and `on_station_next` gives `none` for `ok` false.
pub record Handler (H : Type 0) : Type 0 where
  pub on_message : Option (Bytes → H → H)
  pub on_undef : Option (Bytes → H → H × Bytes)
  pub on_ping : Option (H → H × Bool)
  pub on_status : Option (H → H × StatusResp)
  pub on_station_first : Option (H → H × First)
  pub on_station_next : Option (Bytes → H → H × Option StationResp)
  pub on_attach : Option (H → H × Bool)
  pub on_detach : Option (H → H)

-- What `Serve` does with a message: it goes on, after a reply if there is one; it replies and returns
-- no error; or it calls a function that is nil.
pub data Round : Type 0 where
  went_on : Option Bytes → Round
  left : Bytes → Round
  panicked : Round

-- The replies to STA-FIRST and STA-NEXT.
unfoldable pub first_reply : First → Bytes
first_reply first =
    if first.unknown
    then codes "UNKNOWN COMMAND"
    else if first.ok
    then encode_station first.resp
    else []

unfoldable pub next_reply : Option StationResp → Bytes
next_reply none = []
next_reply (some resp) = encode_station resp

-- How `Serve` ends: it returns an error or none, or a function that is nil is called.
pub data Served : Type 0 where
  returned : Option Error → Served
  panics : Served

module _ {H : Type 0} where
  abbrev pub no_handler : Handler H
  no_handler = record {
    on_message = none;
    on_undef = none;
    on_ping = none;
    on_status = none;
    on_station_first = none;
    on_station_next = none;
    on_attach = none;
    on_detach = none;
  }

  -- `OnPing`, `OnStatus`, `OnStationFirst` and `OnStationNext` register a callback.
  abbrev pub set_ping : (H → H × Bool) → Handler H → Handler H
  set_ping f handler = record handler { on_ping = some f }

  abbrev pub set_status : (H → H × StatusResp) → Handler H → Handler H
  set_status f handler = record handler { on_status = some f }

  abbrev pub set_station_first : (H → H × First) → Handler H → Handler H
  set_station_first f handler = record handler { on_station_first = some f }

  abbrev pub set_station_next : (Bytes → H → H × Option StationResp) → Handler H → Handler H
  set_station_next f handler = record handler { on_station_next = some f }

  -- `handleMessage`, and the handlers with what they return where the callback is nil.
  unfoldable pub handle_message : Handler H → Bytes → H → H
  handle_message handler msg h = elim handler.on_message [ none ↦ h | some f ↦ f msg h ]

  unfoldable pub handle_undef : Handler H → Bytes → H → H × Option Bytes
  handle_undef handler msg h = elim handler.on_undef [
    | none ↦ (h, none)
    | some f ↦ let (h', reply) = f msg h in (h', some reply)
  ]

  unfoldable pub handle_ping : Handler H → H → H × Bool
  handle_ping handler h = elim handler.on_ping [ none ↦ (h, true) | some f ↦ f h ]

  unfoldable pub handle_status : Handler H → H → H × Option StatusResp
  handle_status handler h = elim handler.on_status [
    | none ↦ (h, none)
    | some f ↦ let (h', resp) = f h in (h', some resp)
  ]

  unfoldable pub handle_station_first : Handler H → H → H × First
  handle_station_first handler h = elim handler.on_station_first [
    | none ↦ (h, record { resp = no_station_resp; unknown = false; ok = false })
    | some f ↦ f h
  ]

  unfoldable pub handle_attach : Handler H → H → H × Bool
  handle_attach handler h = elim handler.on_attach [ none ↦ (h, false) | some f ↦ f h ]

  unfoldable pub handle_detach : Handler H → H → H
  handle_detach handler h = elim handler.on_detach [ none ↦ h | some f ↦ f h ]

  -- STA-NEXT calls `handler.onStationNext` itself, and not `handleStationNext`.
  unfoldable pub call_station_next : Handler H → Bytes → H → H × Round
  call_station_next handler msg h = elim handler.on_station_next [
    | none ↦ (h, panicked)
    | some f ↦
        let (h', resp) = f (trim_prefix msg (codes "STA-NEXT ")) h in
        (h', went_on (some (next_reply resp)))
  ]

  abbrev pub status_reply : H × Option StatusResp → H × Round
  status_reply (h, none) = (h, went_on none)
  status_reply (h, some resp) = (h, went_on (some (encode_status resp)))

  abbrev pub ping_reply : H × Bool → H × Round
  ping_reply (h, pong) = (h, went_on (if pong then some (codes "PONG") else none))

  abbrev pub attach_reply : H × Bool → H × Round
  attach_reply (h, there) = (h, went_on (if there then some (codes "OK") else none))

  -- The `switch` of `Serve`.
  unfoldable pub serve_message : Handler H → Bytes → H → H × Round
  serve_message handler msg h0 =
      let h = handle_message handler msg h0 in
      if equal msg (codes "PING")
      then ping_reply (handle_ping handler h)
      else if equal msg (codes "STATUS")
      then status_reply (handle_status handler h)
      else if equal msg (codes "STA-FIRST")
      then (let (h', first) = handle_station_first handler h in
          (h', went_on (some (first_reply first))))
      else if has_prefix msg (codes "STA-NEXT")
      then call_station_next handler msg h
      else if equal msg (codes "ATTACH")
      then attach_reply (handle_attach handler h)
      else if equal msg (codes "DETACH")
      then (handle_detach handler h, left (codes "OK"))
      else (let (h', reply) = handle_undef handler msg h in (h', went_on reply))

  -- `Serve`: the messages that come until a read fails with `failure`, `closed` whether `Close` was
  -- called by then, and `write` the error of sending a reply. A read takes at most 128 bytes. The
  -- result has the replies that were sent.
  unfoldable pub serve :
      Handler H → (Bytes → Option Error) → Bool → Error → List Bytes → H → H × List Bytes × Served
  serve handler write closed failure [] h =
      (h, [], returned (if closed then none else some failure))
  serve handler write closed failure (msg ∷ msgs) h =
      let (h', round) = serve_message handler (take 128 msg) h in
      let (h'', replies, e) = serve handler write closed failure msgs h' in
      elim round [
        | panicked ↦ (h', [], panics)
        | left reply ↦ (h', elim (write reply) [ none ↦ reply ∷ [] | some e' ↦ [] ], returned none)
        | went_on none ↦ (h'', replies, e)
        | went_on (some reply) ↦ elim (write reply) [
          | none ↦ (h'', reply ∷ replies, e)
          | some e' ↦ (h', [], returned (some e'))
        ]
      ]

-- The callbacks of `DefaultHostAPDHandler`.
unfoldable pub first_of : List StationResp → First
first_of [] = record { resp = no_station_resp; unknown = false; ok = false }
first_of (s ∷ stations) = record { resp = s; unknown = false; ok = true }

unfoldable pub head : List StationResp → Option StationResp
head [] = none
head (s ∷ stations) = some s

unfoldable pub station_after : Bytes → List StationResp → Option StationResp
station_after mac [] = none
station_after mac (s ∷ stations) =
    let later = station_after mac stations in if equal s.mac mac then head stations else later

-- `DefaultHostAPDHandler`.
unfoldable pub default_handler : {H : Type 0} → StatusResp → List StationResp → Handler H
default_handler status stations =
    set_station_next (λ mac h. (h, station_after mac stations))
      (set_station_first (λ h. (h, first_of stations))
        (set_status (λ h. (h, status)) (set_ping (λ h. (h, true)) no_handler)))
