-- ===== src/Command/Flags/RoundTrip.antt =====
-- Every argument can be given by a flag.
use wifi_presence.Base.{
  ◌<◌, ◌≤◌, Bool, true, false, Option, none, some, List, [], ◌∷◌, ◌++◌, ◌≡◌, ◌∙◌, refl, equal,
  Bytes, codes,
}
use wifi_presence.Base.Int.{ℤ, pos_part, neg_part, int64_half}
use wifi_presence.Command.{Args, Calls, run, exit_code}
use wifi_presence.Command.Flags.{
  main, parsed, parse_words, parse_flags, parse_bool, read_flag, read_defined, read_one, read_word,
  read_name, split_value, find_flag,
}

-- The values of an `int64`.
abbrev pub IsInt64 : ℤ → Type 0
IsInt64 z = (pos_part z < int64_half) × (neg_part z ≤ int64_half)

-- The words that give all the arguments.
abbrev show_bool : Bool → Bytes
show_bool true = codes "true"
show_bool false = codes "false"

abbrev pub words_of : (ℤ → Bytes) → Args → List Bytes
words_of show_duration a =
    (codes "-apName=" ++ a.ap_name)
    ∷ (codes "-sockDir=" ++ a.sock_dir)
    ∷ (codes "-hostapd.socks=" ++ a.hostapd_socks)
    ∷ (codes "-mqtt.addr=" ++ a.mqtt_addr)
    ∷ (codes "-mqtt.id=" ++ a.mqtt_id)
    ∷ (codes "-mqtt.prefix=" ++ a.mqtt_prefix)
    ∷ (codes "-mqtt.username=" ++ a.mqtt_username)
    ∷ (codes "-mqtt.password=" ++ a.mqtt_password)
    ∷ (codes "-hass.prefix=" ++ a.hass_prefix)
    ∷ (codes "-hass.autodiscovery=" ++ show_bool a.hass_autodiscovery)
    ∷ (codes "-debounce=" ++ show_duration a.debounce)
    ∷ (codes "-verbose=" ++ show_bool a.verbose)
    ∷ (codes "-version=" ++ show_bool a.version)
    ∷ (codes "-help=" ++ show_bool a.more_help)
    ∷ []

module _ (parse_duration : Bytes → Option ℤ) where
  read_autodiscovery :
      (b : Bool) (words : List Bytes) (args : Args)
      → parse_words parse_duration none ((codes "-hass.autodiscovery=" ++ show_bool b) ∷ words) args
        ≡ parse_words parse_duration none words (record args { hass_autodiscovery = b })
  unfolding parse_words parse_bool equal read_flag read_defined read_one read_word read_name
      split_value find_flag
  read_autodiscovery true words args = refl
  read_autodiscovery false words args = refl

  read_verbose :
      (b : Bool) (words : List Bytes) (args : Args)
      → parse_words parse_duration none ((codes "-verbose=" ++ show_bool b) ∷ words) args
        ≡ parse_words parse_duration none words (record args { verbose = b })
  unfolding parse_words parse_bool equal read_flag read_defined read_one read_word read_name
      split_value find_flag
  read_verbose true words args = refl
  read_verbose false words args = refl

  read_version :
      (b : Bool) (words : List Bytes) (args : Args)
      → parse_words parse_duration none ((codes "-version=" ++ show_bool b) ∷ words) args
        ≡ parse_words parse_duration none words (record args { version = b })
  unfolding parse_words parse_bool equal read_flag read_defined read_one read_word read_name
      split_value find_flag
  read_version true words args = refl
  read_version false words args = refl

  read_help :
      (b : Bool) (words : List Bytes) (args : Args)
      → parse_words parse_duration none ((codes "-help=" ++ show_bool b) ∷ words) args
        ≡ parse_words parse_duration none words (record args { more_help = b })
  unfolding parse_words parse_bool equal read_flag read_defined read_one read_word read_name
      split_value find_flag
  read_help true words args = refl
  read_help false words args = refl

  read_debounce :
      (show_duration : ℤ → Bytes) (n : ℤ) (words : List Bytes) (args : Args)
      → parse_duration (show_duration n) ≡ some n
      → parse_words parse_duration none ((codes "-debounce=" ++ show_duration n) ∷ words) args
        ≡ parse_words parse_duration none words (record args { debounce = n })
  unfolding parse_words parse_bool equal read_flag read_defined read_one read_word read_name
      split_value find_flag
  read_debounce show_duration n words args h = rw (parse_words, h) refl

  read_texts :
      (a : Args) (words : List Bytes) (args : Args)
      → parse_words parse_duration none
          ((codes "-apName=" ++ a.ap_name)
            ∷ (codes "-sockDir=" ++ a.sock_dir)
            ∷ (codes "-hostapd.socks=" ++ a.hostapd_socks)
            ∷ (codes "-mqtt.addr=" ++ a.mqtt_addr)
            ∷ (codes "-mqtt.id=" ++ a.mqtt_id)
            ∷ (codes "-mqtt.prefix=" ++ a.mqtt_prefix)
            ∷ (codes "-mqtt.username=" ++ a.mqtt_username)
            ∷ (codes "-mqtt.password=" ++ a.mqtt_password)
            ∷ (codes "-hass.prefix=" ++ a.hass_prefix)
            ∷ words)
          args
        ≡ parse_words parse_duration none words (record args {
          ap_name = a.ap_name;
          sock_dir = a.sock_dir;
          hostapd_socks = a.hostapd_socks;
          mqtt_addr = a.mqtt_addr;
          mqtt_id = a.mqtt_id;
          mqtt_prefix = a.mqtt_prefix;
          mqtt_username = a.mqtt_username;
          mqtt_password = a.mqtt_password;
          hass_prefix = a.hass_prefix;
        })
  unfolding parse_words parse_bool equal read_flag read_defined read_one read_word read_name
      split_value find_flag
  read_texts a words args = refl

-- Whatever the arguments are before, the words of the arguments `a` are read as `a`, where the time of
-- debouncing is an `int64`, and the reading of a duration gives back each `int64` that its printing
-- was given.
pub parse_flags-words_of :
    (parse_duration : Bytes → Option ℤ) (show_duration : ℤ → Bytes)
    → ((n : ℤ) → IsInt64 n → parse_duration (show_duration n) ≡ some n)
    → (a before : Args) → IsInt64 a.debounce
    → parse_flags parse_duration (words_of show_duration a) before ≡ parsed a
unfolding parse_flags parse_words
parse_flags-words_of parse_duration show_duration h a before i =
    let w4 = (codes "-help=" ++ show_bool a.more_help) ∷ [] in
    let w3 = (codes "-version=" ++ show_bool a.version) ∷ w4 in
    let w2 = (codes "-verbose=" ++ show_bool a.verbose) ∷ w3 in
    let w1 = (codes "-debounce=" ++ show_duration a.debounce) ∷ w2 in
    let w0 = (codes "-hass.autodiscovery=" ++ show_bool a.hass_autodiscovery) ∷ w1 in
    let a0 : Args = record a {
      hass_autodiscovery = before.hass_autodiscovery;
      debounce = before.debounce;
      verbose = before.verbose;
      version = before.version;
      more_help = before.more_help;
    } in
    let a1 : Args = record a0 { hass_autodiscovery = a.hass_autodiscovery } in
    let a2 : Args = record a1 { debounce = a.debounce } in
    let a3 : Args = record a2 { verbose = a.verbose } in
    let a4 : Args = record a3 { version = a.version } in
    read_texts parse_duration a w0 before
    ∙ read_autodiscovery parse_duration a.hass_autodiscovery w1 a0
    ∙ read_debounce parse_duration show_duration a.debounce w2 a1 (h a.debounce i)
    ∙ read_verbose parse_duration a.verbose w3 a2
    ∙ read_version parse_duration a.version w4 a3
    ∙ read_help parse_duration a.more_help [] a4

-- The program, on the words that give the arguments `a`, runs with `a` whatever its default values are,
-- and exits as `run` ends.
pub main-words_of :
    {C W : Type 0} (calls : Calls C W) (parse_duration : Bytes → Option ℤ)
    (show_duration : ℤ → Bytes)
    → ((n : ℤ) → IsInt64 n → parse_duration (show_duration n) ≡ some n)
    → (a before : Args) (w : W) → IsInt64 a.debounce
    → main calls parse_duration (words_of show_duration a) before w
      ≡ ((run calls a w).0, exit_code (run calls a w).1)
unfolding main
main-words_of calls parse_duration show_duration h a before w i =
    rw (parse_flags-words_of parse_duration show_duration h a before i) refl
