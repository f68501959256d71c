-- ===== src/Hostapd/Socket/Kernel.antt =====
-- What the program relies on of the operating system's calls: which socket files exist, which
-- descriptors are open, and what each call changes of them.
use wifi_presence.Base.{
  inr, sym, arith, inl, ◌==◌, Bool-cases, refl, ◌∙◌, ℕ, ◌≡◌, ◌≢◌, Bool, true, false, none, Bytes,
}
use wifi_presence.Base.Errors.{Error, ok, err}
use wifi_presence.Base.Time.{Time}
use wifi_presence.Hostapd.Socket.{Os}

-- The files and descriptors of a state.
pub record Files (S : Type 0) : Type 0 where
  pub exists : Bytes → S → Bool
  pub is_open : ℕ → S → Bool

module _ {S : Type 0} (f : Files S) where
  -- No file and no descriptor changes.
  pub record Same (s s' : S) : Type 0 where
    pub files : (p : Bytes) → f.exists p s' ≡ f.exists p s
    pub descriptors : (fd : ℕ) → f.is_open fd s' ≡ f.is_open fd s

  -- No file but `path` changes, and no descriptor.
  pub record SameBut (path : Bytes) (s s' : S) : Type 0 where
    pub files : (p : Bytes) → p ≢ path → f.exists p s' ≡ f.exists p s
    pub descriptors : (fd : ℕ) → f.is_open fd s' ≡ f.is_open fd s

  -- A new descriptor is opened, with a new file.
  pub record Opens (path : Bytes) (fd : ℕ) (s s' : S) : Type 0 where
    pub was_absent : f.exists path s ≡ false
    pub is_present : f.exists path s' ≡ true
    pub was_closed : f.is_open fd s ≡ false
    pub is_open : f.is_open fd s' ≡ true
    pub files : (p : Bytes) → p ≢ path → f.exists p s' ≡ f.exists p s
    pub descriptors : (fd' : ℕ) → fd' ≢ fd → f.is_open fd' s' ≡ f.is_open fd' s

  -- A descriptor is closed.
  pub record Closes (fd : ℕ) (s s' : S) : Type 0 where
    pub is_closed : f.is_open fd s' ≡ false
    pub files : (p : Bytes) → f.exists p s' ≡ f.exists p s
    pub descriptors : (fd' : ℕ) → fd' ≢ fd → f.is_open fd' s' ≡ f.is_open fd' s

  -- The documented behaviour of the calls: `bind` fails where the file exists, a descriptor is closed
  -- whatever `close` returns, and a file that `remove` returns no error for is gone.
  pub record Kernel (os : Os S) : Type 0 where
    pub dial_ok : (l r : Bytes) (s s' : S) (fd : ℕ) → os.dial l r s ≡ (s', ok fd) → Opens l fd s s'
    pub dial_err :
        (l r : Bytes) (s s' : S) (e : Error) → os.dial l r s ≡ (s', err e) → SameBut l s s'
    pub close : (fd : ℕ) (s : S) → Closes fd s (os.close fd s).0
    pub remove : (p : Bytes) (s : S) → SameBut p s (os.remove p s).0
    pub removed :
        (p : Bytes) (s : S) → (os.remove p s).1 ≡ none → f.exists p (os.remove p s).0 ≡ false
    pub clock : (s : S) → Same s (os.clock s).0
    pub read_deadline : (fd : ℕ) (t : Time) (s : S) → Same s (os.set_read_deadline fd t s).0
    pub write_deadline : (fd : ℕ) (t : Time) (s : S) → Same s (os.set_write_deadline fd t s).0
    pub write : (fd : ℕ) (p : Bytes) (s : S) → Same s (os.write fd p s).0
    pub read : (fd n : ℕ) (s : S) → Same s (os.read fd n s).0

  pub Same-trans : (s s' s'' : S) → Same s s' → Same s' s'' → Same s s''
  Same-trans s s' s'' a b = record {
    files = λ p. b.files p ∙ a.files p;
    descriptors = λ fd. b.descriptors fd ∙ a.descriptors fd;
  }

  pub Same-refl : (s : S) → Same s s
  Same-refl s = record { files = λ p. refl; descriptors = λ fd. refl }

  pub SameBut-trans :
      (path : Bytes) (s s' s'' : S) → SameBut path s s' → SameBut path s' s'' → SameBut path s s''
  SameBut-trans path s s' s'' a b = record {
    files = λ p ne. b.files p ne ∙ a.files p ne;
    descriptors = λ fd. b.descriptors fd ∙ a.descriptors fd;
  }

  pub SameBut-Same : (path : Bytes) (s s' : S) → Same s s' → SameBut path s s'
  SameBut-Same path s s' a = record { files = λ p ne. a.files p; descriptors = a.descriptors }

  pub Opens-Same :
      (path : Bytes) (fd : ℕ) (s s' s'' : S)
      → Opens path fd s s'
      → Same s' s''
      → Opens path fd s s''
  Opens-Same path fd s s' s'' a b = record {
    was_absent = a.was_absent;
    is_present = b.files path ∙ a.is_present;
    was_closed = a.was_closed;
    is_open = b.descriptors fd ∙ a.is_open;
    files = λ p ne. b.files p ∙ a.files p ne;
    descriptors = λ fd' ne. b.descriptors fd' ∙ a.descriptors fd' ne;
  }

  -- What was opened, closed and removed is as before, but for the file.
  pub SameBut-Opens :
      (os : Os S) (k : Kernel os) (path : Bytes) (fd : ℕ) (s s' : S)
      → Opens path fd s s'
      → SameBut path s (os.remove path (os.close fd s').0).0
  SameBut-Opens os k path fd s s' a =
      let c = k.close fd s' in
      let r = k.remove path (os.close fd s').0 in
      record {
        files = λ p ne. r.files p ne ∙ c.files p ∙ a.files p ne;
        descriptors = λ fd'. elim (Bool-cases (fd' == fd)) [
          | inl e ↦
              let same : fd' ≡ fd = ground arith in
              r.descriptors fd' ∙ rw same (c.is_closed ∙ sym a.was_closed)
          | inr e ↦
              let ne : fd' ≢ fd = ground arith in
              r.descriptors fd' ∙ c.descriptors fd' ne ∙ a.descriptors fd' ne
        ];
      }
