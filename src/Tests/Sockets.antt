-- ===== src/Tests/Sockets.antt =====
-- A small operating system: the socket files, the open descriptors, and the messages that will come.
use wifi_presence.Hostapd.Client.Open.Returns.{Bounds}
use wifi_presence.Base.{length}
use mathlib.Core.Path.{subst}
use wifi_presence.Base.{
  ℕ, suc, ◌+◌, ◌≤◌, ◌≡◌, refl, ap, arith, Bool, true, false, Option, none, some, List, [], ◌∷◌,
  Bytes, equal, equal_iff, ◌==◌, ==_iff,
}
use wifi_presence.Base.Errors.{Error, Result, ok, err, external}
use wifi_presence.Base.Int.{pos}
use wifi_presence.Base.Maps.{Map, Eq, lookup, insert, erase, lookup-insert, lookup-erase, nat_key}
use wifi_presence.Hostapd.Socket.{Os}
use wifi_presence.Hostapd.Socket.Kernel.{Files, Kernel, SameBut, Opens, Same-refl, SameBut-Same}

instance abbrev pub bytes_key : Eq Bytes
bytes_key = record { beq = equal; beq_iff = equal_iff }

pub record Host : Type 0 where
  pub files : Map Bytes (Unit {0})
  pub opened : Map ℕ (Unit {0})
  pub inbox : List Bytes

-- A number above all descriptors.
abbrev fresh : Map ℕ (Unit {0}) → ℕ
fresh [] = 0
fresh ((n, u) ∷ m) = suc (n + fresh m)

lookup-fresh : (n : ℕ) (m : Map ℕ (Unit {0})) → fresh m ≤ n → lookup n m ≡ none
unfolding lookup
lookup-fresh n [] h = refl
lookup-fresh n ((k, u) ∷ m) h =
    let other : (k == n) ≡ false = ground (arith, ==_iff k n) in
    rw other (lookup-fresh n m (omega arith))

abbrev is_some : Option (Unit {0}) → Bool
is_some none = false
is_some (some u) = true

abbrev dial_at : Bytes → Host → Option (Unit {0}) → Host × Result ℕ
dial_at l s (some u) = (s, err (external 98))
dial_at l s none = (
  record s { files = insert l tt s.files; opened = insert (fresh s.opened) tt s.opened },
  ok (fresh s.opened),
)

abbrev remove_at : Bytes → Host → Option (Unit {0}) → Host × Option Error
remove_at p s none = (s, some (external 2))
remove_at p s (some u) = (record s { files = erase p s.files }, none)

abbrev first : List Bytes → Result Bytes
first [] = err (external 11)
first (p ∷ ps) = ok p

abbrev rest : List Bytes → List Bytes
rest [] = []
rest (p ∷ ps) = ps

abbrev pub host_os : Os Host
host_os = record {
  dial = λ l r s. dial_at l s (lookup l s.files);
  close = λ fd s. (record s { opened = erase fd s.opened }, none);
  remove = λ p s. remove_at p s (lookup p s.files);
  clock = λ s. (s, pos 63000000000000000000);
  set_read_deadline = λ fd t s. (s, none);
  set_write_deadline = λ fd t s. (s, none);
  write = λ fd p s. (s, none);
  read = λ fd n s. (record s { inbox = rest s.inbox }, first s.inbox);
}

abbrev pub host_files : Files Host
host_files = record {
  exists = λ p s. is_some (lookup p s.files);
  is_open = λ fd s. is_some (lookup fd s.opened);
}

dial_ok :
    (l : Bytes) (s s' : Host) (fd : ℕ) (o : Option (Unit {0}))
    → lookup l s.files ≡ o
    → dial_at l s o ≡ (s', ok fd)
    → Opens host_files l fd s s'
dial_ok l s s' fd (some u) e h = absurd (ground (arith, ap (λ q. q.1) h))
dial_ok l s s' fd none e h =
    let new : Host = record s {
      files = insert l tt s.files;
      opened = insert (fresh s.opened) tt s.opened;
    } in
    let opens : Opens host_files l (fresh s.opened) s new = record {
      was_absent = rw e refl;
      is_present = ground (arith, lookup-insert l l tt s.files, equal_iff l l);
      was_closed = rw (lookup-fresh (fresh s.opened) s.opened (omega arith)) refl;
      is_open = ground (
        arith,
        lookup-insert (fresh s.opened) (fresh s.opened) tt s.opened,
        ==_iff (fresh s.opened) (fresh s.opened),
      );
      files = λ p ne. ground (arith, lookup-insert l p tt s.files, equal_iff l p);
      descriptors = λ n ne.
          ground (arith, lookup-insert (fresh s.opened) n tt s.opened, ==_iff (fresh s.opened) n);
    } in
    let same : new ≡ s' = ap (λ q. q.0) h in
    let number : fresh s.opened ≡ fd = ground (arith, ap (λ q. q.1) h) in
    subst (λ n. Opens host_files l n s s') number
      (subst (λ x. Opens host_files l (fresh s.opened) s x) same opens)

dial_err :
    (l : Bytes) (s s' : Host) (x : Error) (o : Option (Unit {0}))
    → dial_at l s o ≡ (s', err x)
    → SameBut host_files l s s'
dial_err l s s' x none h = absurd (ground (arith, ap (λ q. q.1) h))
dial_err l s s' x (some u) h =
    subst (SameBut host_files l s) (ap (λ q. q.0) h)
      (SameBut-Same host_files l s s (Same-refl host_files s))

remove_lem :
    (p : Bytes) (s : Host) (o : Option (Unit {0})) → SameBut host_files p s (remove_at p s o).0
remove_lem p s none = SameBut-Same host_files p s s (Same-refl host_files s)
remove_lem p s (some u) = record {
  files = λ q ne. ground (arith, lookup-erase p q s.files, equal_iff p q);
  descriptors = λ fd. refl;
}

removed_lem :
    (p : Bytes) (s : Host) (o : Option (Unit {0}))
    → (remove_at p s o).1 ≡ none
    → host_files.exists p (remove_at p s o).0 ≡ false
removed_lem p s none h = absurd (ground (arith, h))
removed_lem p s (some u) h = ground (arith, lookup-erase p p s.files, equal_iff p p)

pub host-Kernel : Kernel host_files host_os
host-Kernel = record {
  dial_ok = λ l r s s' fd h. dial_ok l s s' fd (lookup l s.files) refl h;
  dial_err = λ l r s s' x h. dial_err l s s' x (lookup l s.files) h;
  close = λ fd s. record {
    is_closed = ground (arith, lookup-erase fd fd s.opened, ==_iff fd fd);
    files = λ p. refl;
    descriptors = λ n ne. ground (arith, lookup-erase fd n s.opened, ==_iff fd n);
  };
  remove = λ p s. remove_lem p s (lookup p s.files);
  removed = λ p s h. removed_lem p s (lookup p s.files) h;
  clock = λ s. Same-refl host_files s;
  read_deadline = λ fd t s. Same-refl host_files s;
  write_deadline = λ fd t s. Same-refl host_files s;
  write = λ fd p s. Same-refl host_files s;
  read = λ fd n s. record { files = λ p. refl; descriptors = λ fd'. refl };
}

-- The messages that will come bound the reads.
dial-inbox :
    (l : Bytes) (s : Host) (o : Option (Unit {0})) → length (dial_at l s o).0.inbox ≤ length s.inbox
dial-inbox l s none = omega arith
dial-inbox l s (some u) = omega arith

length-rest : (ps : List Bytes) → length (rest ps) ≤ length ps
length-rest [] = omega arith
length-rest (p ∷ ps) = omega arith

length-first : (ps : List Bytes) (p : Bytes) → first ps ≡ ok p → suc (length (rest ps)) ≤ length ps
length-first [] p h = absurd (ground (arith, h))
length-first (q ∷ ps) p h = omega arith

pub host-Bounds : Bounds (λ (s : Host). length s.inbox) host_os
host-Bounds = record {
  dial = λ l r s. dial-inbox l s (lookup l s.files);
  clock = λ s. omega arith;
  read_deadline = λ fd t s. omega arith;
  write_deadline = λ fd t s. omega arith;
  write = λ fd p s. omega arith;
  read = λ fd n s. length-rest s.inbox;
  read_ok = λ fd n s p h. length-first s.inbox p h;
}
