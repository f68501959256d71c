-- ===== src/Command/Flags.antt =====
-- cmd/wifi-presence/main.go: the flags, and how Go's `flag` reads them from the words of the command
-- line. `parse_duration` is Go's `time.ParseDuration`.
pub mod RoundTrip
use wifi_presence.Base.{
  ℕ, Bool, true, false, Option, none, some, List, [], ◌∷◌, ◌++◌, ◌||◌, Bytes, codes, ◌==◌, equal,
  trim_space, if◌then◌else◌,
}
use wifi_presence.Base.Int.{ℤ}
use wifi_presence.Base.Errors.{Error}
use wifi_presence.Hass.Mqtt.{is_set}
use wifi_presence.Command.{Args, Calls, run, exit_code}

-- A word: an operand or the terminator "--", at which reading stops; a word that is no flag; a flag's
-- name, and its value if there is a "=".
pub data Word : Type 0 where
  operand malformed : Word
  named : Bytes → Option Bytes → Word

unfoldable pub split_value : Bytes → Bytes → Word
split_value name [] = named name none
split_value name (c ∷ s) =
    let longer = split_value (name ++ c ∷ []) s in if c == b'=' then named name (some s) else longer

unfoldable pub read_name : Bytes → Word
read_name [] = malformed
read_name (c ∷ s) = if c == b'-' || c == b'=' then malformed else split_value (c ∷ []) s

unfoldable pub read_long : Bytes → Word
read_long [] = operand
read_long (c ∷ s) = read_name (c ∷ s)

unfoldable pub read_word : Bytes → Word
read_word [] = operand
read_word (a ∷ []) = operand
read_word (a ∷ c ∷ s) =
    if a == b'-' then (if c == b'-' then read_long s else read_name (c ∷ s)) else operand

-- `strconv.ParseBool`.
unfoldable pub parse_bool : Bytes → Option Bool
parse_bool s =
    if equal s (codes "1")
      || equal s (codes "t")
      || equal s (codes "T")
      || equal s (codes "true")
      || equal s (codes "TRUE")
      || equal s (codes "True")
    then some true
    else if equal s (codes "0")
        || equal s (codes "f")
        || equal s (codes "F")
        || equal s (codes "false")
        || equal s (codes "FALSE")
        || equal s (codes "False")
    then some false
    else none

-- A flag by the field that it sets.
pub data Flag : Type 0 where
  text_flag : (Bytes → Args → Args) → Flag
  switch : (Bool → Args → Args) → Flag
  duration_flag : (ℤ → Args → Args) → Flag

-- The flags that `run` defines, by their names.
abbrev pub flags : List (Bytes × Flag)
flags =
    (codes "apName", text_flag (λ v args. record args { ap_name = v }))
    ∷ (codes "sockDir", text_flag (λ v args. record args { sock_dir = v }))
    ∷ (codes "hostapd.socks", text_flag (λ v args. record args { hostapd_socks = v }))
    ∷ (codes "mqtt.addr", text_flag (λ v args. record args { mqtt_addr = v }))
    ∷ (codes "mqtt.id", text_flag (λ v args. record args { mqtt_id = v }))
    ∷ (codes "mqtt.prefix", text_flag (λ v args. record args { mqtt_prefix = v }))
    ∷ (codes "mqtt.username", text_flag (λ v args. record args { mqtt_username = v }))
    ∷ (codes "mqtt.password", text_flag (λ v args. record args { mqtt_password = v }))
    ∷ (codes "hass.autodiscovery", switch (λ b args. record args { hass_autodiscovery = b }))
    ∷ (codes "hass.prefix", text_flag (λ v args. record args { hass_prefix = v }))
    ∷ (codes "debounce", duration_flag (λ n args. record args { debounce = n }))
    ∷ (codes "verbose", switch (λ b args. record args { verbose = b }))
    ∷ (codes "v", switch (λ b args. record args { verbose = b }))
    ∷ (codes "version", switch (λ b args. record args { version = b }))
    ∷ (codes "help", switch (λ b args. record args { more_help = b }))
    ∷ []

unfoldable pub find_flag : Bytes → List (Bytes × Flag) → Option Flag
find_flag name [] = none
find_flag name ((n, f) ∷ fs) = if equal n name then some f else find_flag name fs

-- What a word leads to: the next word with other arguments, the value of a flag in the next word, the
-- end of the flags, or the end of the program with an exit code.
pub data Reading : Type 0 where
  goes_on : Args → Reading
  awaits : (Bytes → Reading) → Reading
  stops : Reading
  fails : ℕ → Reading

-- The result of `flag.Parse`: the arguments, or the exit code of the program.
pub data Parsed : Type 0 where
  parsed : Args → Parsed
  exits : ℕ → Parsed

abbrev pub set_bool : (Bool → Args → Args) → Args → Option Bool → Reading
set_bool f args none = fails 2
set_bool f args (some b) = goes_on (f b args)

abbrev pub set_duration : (ℤ → Args → Args) → Args → Option ℤ → Reading
set_duration f args none = fails 2
set_duration f args (some n) = goes_on (f n args)

module _ (parse_duration : Bytes → Option ℤ) where
  unfoldable pub read_flag : Flag → Option Bytes → Args → Reading
  unfolding parse_bool
  read_flag (switch f) none args = goes_on (f true args)
  read_flag (switch f) (some v) args = set_bool f args (parse_bool v)
  read_flag (text_flag f) (some v) args = goes_on (f v args)
  read_flag (text_flag f) none args = awaits (λ v. goes_on (f v args))
  read_flag (duration_flag f) (some v) args = set_duration f args (parse_duration v)
  read_flag (duration_flag f) none args = awaits (λ v. set_duration f args (parse_duration v))

  -- A flag that is not defined: "-h" asks for the usage.
  unfoldable pub read_defined : Bytes → Option Bytes → Option Flag → Args → Reading
  read_defined name value (some f) args = read_flag f value args
  read_defined name value none args = fails (if equal name (codes "h") then 0 else 2)

  unfoldable pub read_one : Word → Args → Reading
  unfolding find_flag
  read_one operand args = stops
  read_one malformed args = fails 2
  read_one (named name value) args = read_defined name value (find_flag name flags) args

  -- `flag.Parse`, with the flag that waits for its value.
  unfoldable pub parse_words : Option (Bytes → Reading) → List Bytes → Args → Parsed
  unfolding read_word
  parse_words none [] args = parsed args
  parse_words (some k) [] args = exits 2
  parse_words pending (word ∷ words) args =
      let reading : Reading = elim pending [
        | none ↦ read_one (read_word word) args
        | some k ↦ k word
      ] in
      elim reading [
        | goes_on args' ↦ parse_words none words args'
        | awaits k ↦ parse_words (some k) words args
        | stops ↦ parsed args
        | fails code ↦ exits code
      ]

  unfoldable pub parse_flags : List Bytes → Args → Parsed
  parse_flags words args = parse_words none words args

-- version.go: the version, from the file that is embedded.
unfoldable pub version_text : Bytes → Bytes
version_text file = let v = trim_space file in if is_set v then v else codes "DEV"

-- `main`: the flags, `run` and the exit code.
abbrev pub main_parsed : {W : Type 0} → (Args → W → W × Option Error) → Parsed → W → W × ℕ
main_parsed run_args (exits code) w = (w, code)
main_parsed run_args (parsed args) w = let (w', e) = run_args args w in (w', exit_code e)

unfoldable pub main :
    {C W : Type 0} → Calls C W → (Bytes → Option ℤ) → List Bytes → Args → W → W × ℕ
unfolding parse_flags run exit_code
main calls parse_duration words defaults w =
    main_parsed (run calls) (parse_flags parse_duration words defaults) w
