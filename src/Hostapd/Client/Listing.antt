-- ===== src/Hostapd/Client/Listing.antt =====
-- What `Stations` returns, by what hostapd answers.
use mathlib.Core.List.{append_assoc, append-nil}
use wifi_presence.Base.{
  ℕ, zero, suc, ◌<◌, ◌≡◌, refl, arith, none, some, List, [], ◌∷◌, ◌++◌, Bytes, length, codes, true,
  if◌then◌else◌,
}
use wifi_presence.Base.Errors.{Result, ok, err, as_unknown_cmd, unknown_cmd}
use wifi_presence.Hostapd.Station.{Station}
use wifi_presence.Hostapd.Ctrl.{
  Ctrl, Reply, failed, nothing, bad, got, is_unknown, is_positive, unless_error, respond, cmd,
  station_first, station_next, to_reply, first_response,
}
use wifi_presence.Hostapd.Client.{stations_loop, stations}

-- What the loop makes of the last answer.
abbrev pub outcome : Reply → List Station → Result (List Station)
outcome (failed e) found = ok found
outcome nothing found = ok found
outcome (bad e) found = err e
outcome (got sta) found = ok found

-- The last answer is not a station.
abbrev pub IsLast : Reply → Type 0
IsLast (got sta) = ⊥
IsLast _ = Unit

module _ {S : Type 0} where
  -- `Answers c mac xs last s s'`: from `s` on, hostapd answers STA-NEXT after `mac` with the stations
  -- `xs` in turn, and then with `last`, which leaves the connection in `s'`.
  pub data Answers (c : Ctrl S) (last : Reply) (s' : S) : Bytes → List Station → S → Type 0 where
    ends : {mac : Bytes} {s : S} → station_next c mac s ≡ (s', last) → Answers c last s' mac [] s
    more :
        {mac : Bytes} {xs : List Station} {s s1 : S} {sta : Station}
        → station_next c mac s ≡ (s1, got sta)
        → Answers c last s' sta.mac xs s1
        → Answers c last s' mac (sta ∷ xs) s

  stations_loop-Answers :
      (fuel : ℕ) (c : Ctrl S) (last : Reply) (mac : Bytes) (xs found : List Station) {s s' : S}
      → length xs < fuel
      → IsLast last
      → Answers c last s' mac xs s
      → stations_loop fuel c mac found s ≡ some (s', outcome last (found ++ xs))
  unfolding stations_loop
  stations_loop-Answers zero c last mac xs found h i a = absurd (omega arith)
  stations_loop-Answers (suc fuel) c (failed e) mac [] found h i (ends p) =
      ground (arith, append-nil found)
  stations_loop-Answers (suc fuel) c nothing mac [] found h i (ends p) =
      ground (arith, append-nil found)
  stations_loop-Answers (suc fuel) c (bad e) mac [] found h i (ends p) = ground arith
  stations_loop-Answers (suc fuel) c (got sta) mac [] found h i a = elim i [ ]
  stations_loop-Answers (suc fuel) c last mac (sta ∷ xs) found h i (more p a) =
      let rest =
        stations_loop-Answers fuel c last sta.mac xs (found ++ sta ∷ []) (omega arith) i a in
      ground (arith, append_assoc found (sta ∷ []) xs)

  -- Where hostapd answers STA-FIRST with a station and STA-NEXT with the stations `xs` and then with an
  -- answer that is no station, and the fuel exceeds the length of `xs`: `Stations` returns all these
  -- stations in order, if the last answer is that there are no more, but also if it is a failed
  -- call; it returns the error of a last answer that cannot be parsed.
  pub stations-Answers :
      (fuel : ℕ) (c : Ctrl S) (last : Reply) (sta : Station) (xs : List Station) (s : S) {s1 s' : S}
      → length xs < fuel
      → IsLast last
      → station_first c s ≡ (s1, got sta)
      → Answers c last s' sta.mac xs s1
      → stations fuel c s ≡ some (s', outcome last (sta ∷ xs))
  unfolding stations
  stations-Answers fuel c last sta xs s h i e a =
      let rest = stations_loop-Answers fuel c last sta.mac xs (sta ∷ []) h i a in ground arith

  -- Every call of the connection that a command makes succeeds, and the response is `p`.
  pub record Responds (c : Ctrl S) (command p : Bytes) (s s' : S) : Type 0 where
    pub before_write : S
    pub before_deadline : S
    pub before_read : S
    pub write_deadline :
        (if is_positive c.write_timeout
          then c.conn.set_write_deadline c.write_timeout s
          else (s, none))
        ≡ (before_write, none)
    pub written : c.conn.write command before_write ≡ (before_deadline, none)
    pub read_deadline :
        (if is_positive c.read_timeout
          then c.conn.set_read_deadline c.read_timeout before_deadline
          else (before_deadline, none))
        ≡ (before_read, none)
    pub response : c.conn.read c.buffer before_read ≡ (s', ok p)

  -- What a command returns where the calls of the connection succeed.
  pub cmd-Responds :
      {A : Type 0} (c : Ctrl S) (command p : Bytes) (resp : Bytes → Result A) {s s' : S}
      → Responds c command p s s'
      → cmd c command resp s ≡ (s', if is_unknown p then err (unknown_cmd command) else resp p)
  unfolding cmd unless_error respond
  cmd-Responds c command p resp r = rw (r.write_deadline, r.written, r.read_deadline, r.response)

  -- Where the calls of the connection succeed and hostapd answers STA-FIRST by a text that starts
  -- with "UNKNOWN COMMAND", `Stations` returns an error that the daemon tells from the others.
  pub stations_unknown :
      (fuel : ℕ) (c : Ctrl S) (p : Bytes) {s s' : S}
      → Responds c (codes "STA-FIRST") p s s'
      → is_unknown p ≡ true
      → (stations fuel c s ≡ some (s', err (unknown_cmd (codes "STA-FIRST"))))
        × (as_unknown_cmd (unknown_cmd (codes "STA-FIRST")) ≡ true)
  unfolding stations station_first to_reply as_unknown_cmd
  stations_unknown fuel c p r u =
      let answer = cmd-Responds c (codes "STA-FIRST") p first_response r in (ground arith, refl)
