-- ===== src/Tests/Ending.antt =====
-- The end of `Run` with a group that keeps its first error, and the flags of the command line.
use wifi_presence.Base.{
  ◌≡◌, ◌≢◌, refl, arith, Bool, true, false, Option, none, some, [], ◌∷◌, codes,
}
use wifi_presence.Base.Errors.{Error, external, terminating, wrapped}
use wifi_presence.Command.{exit_code}
use wifi_presence.Command.Exit.{within, itself}
use wifi_presence.Command.Terminating.{terminating_exits}
use wifi_presence.Presence.Ending.{
  Group, IsErrgroup, Running, or_first, ended, send, take_error, Step, fails, receives, started,
  Reach, here, next,
}
use wifi_presence.Presence.Ending.Reports.{Reported, result-Reported, sent_ends}

record Plain : Type 0 where
  cancelled : Bool
  first : Option Error

abbrev plain_done : Option Error → Plain → Plain
plain_done none x = x
plain_done (some e) x = record { cancelled = true; first = or_first x.first e }

abbrev plain : Group Plain
plain = record {
  empty = record { cancelled = false; first = none };
  done = plain_done;
  end_context = λ x. record x { cancelled = true };
  is_cancelled = λ x. x.cancelled;
  result = λ x. x.first;
}

plain-IsErrgroup : IsErrgroup plain
plain-IsErrgroup = record {
  empty_result = refl;
  done_none = λ x. refl;
  done_some = λ e x. refl;
  done_cancels = λ e x. refl;
  cancel_result = λ x. refl;
  cancel_cancels = λ x. refl;
}

-- A callback fails, and the watcher receives its error.
abbrev failed : Running Plain
failed = send plain (external 7) (started plain)

abbrev reported : Running Plain
reported = take_error plain (external 7) failed

reached_failed : Reach plain (started plain) failed
reached_failed = next here (fails (external 7))

reached : Reach plain (started plain) reported
unfolding send
reached = next reached_failed (receives (external 7) refl refl)

reported_first : plain.result reported.group ≡ some (external 7)
unfolding take_error send
reported_first = refl

result-Reported_example : Reported plain plain-IsErrgroup reported (external 7)
result-Reported_example = result-Reported plain plain-IsErrgroup (external 7) reached reported_first

still_watches : failed.watcher ≡ none
unfolding send
still_watches = refl

has_sent : failed.sent ≢ []
unfolding send
has_sent e = absurd (ground (arith, e))

sent_ends_example :
    (s : Running Plain) × Step plain failed s
    × (plain.is_cancelled s.group ≡ true)
    × (plain.result s.group ≢ none)
sent_ends_example = sent_ends plain plain-IsErrgroup reached_failed still_watches has_sent

-- The context ends, the watcher leaves, and three callbacks fail.
abbrev left : Running Plain
left = record (started plain) {
  watcher = some none;
  group = record { cancelled = true; first = none };
  errs = some (external 1);
  blocked = external 2 ∷ [];
  sent = external 1 ∷ external 2 ∷ [];
}

-- The `Attach` of the second goroutine ends, as hostapd terminates.
abbrev stopped : Running Plain
stopped = record (started plain) {
  workers = ended (λ i. none) 1 (some (wrapped (codes "attach") terminating));
  group = record { cancelled = true; first = some (wrapped (codes "attach") terminating) };
}

terminating_exits_example :
    exit_code (
      plain.result (
        plain.done
          (some (external 5))
          (plain.done (plain.result (send plain (external 3) stopped).group) plain.empty)))
    ≡ 125
terminating_exits_example =
    terminating_exits plain plain-IsErrgroup (started plain) 1
      (wrapped (codes "attach") terminating) (send plain (external 3) stopped) (some (external 5))
      refl (within itself) (next here (fails (external 3)))
