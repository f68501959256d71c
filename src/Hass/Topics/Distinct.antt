-- ===== src/Hass/Topics/Distinct.antt =====
-- The characters of sanitized names, and what the topics tell apart.
use wifi_presence.Base.{
  ◌∙◌, sym, ◌≢◌, ◌⊎◌, refl, ℕ, ◌/◌, ◌%◌, ◌<◌, ◌≡◌, true, [], ◌∷◌, ◌++◌, arith, Bytes, codes, All,
  Bool-cases, inl, inr, ap,
}
use wifi_presence.Presence.Mac.{Mac, IsMac, to_string}
use wifi_presence.Strconv.Hex.{upper_digit}
use wifi_presence.Hass.Topics.{
  MqttTopics, is_topic_char, keep_topic_chars, to_lower_char, to_lower, sanitize_topic,
  sanitize_mac_topic, replace_char, mk_topic, device_state, device_json_attrs, device_discovery,
}

-- `[a-z0-9_-]`.
abbrev pub IsTopicChar : ℕ → Type 0
IsTopicChar c = (is_topic_char c ≡ true) × (to_lower_char c ≡ c)

to_lower_char-IsTopicChar : (c : ℕ) → is_topic_char c ≡ true → IsTopicChar (to_lower_char c)
unfolding is_topic_char to_lower_char
to_lower_char-IsTopicChar c h = ground arith

keep_topic_chars-All : (v : Bytes) → All IsTopicChar (to_lower (keep_topic_chars v))
unfolding keep_topic_chars
keep_topic_chars-All [] = tt
keep_topic_chars-All (c ∷ v) = elim (Bool-cases (is_topic_char c)) [
  | inl good ↦ rw good (to_lower_char-IsTopicChar c good, keep_topic_chars-All v)
  | inr bad ↦ rw bad (keep_topic_chars-All v)
]

keep_of_All : (v : Bytes) → All IsTopicChar v → to_lower (keep_topic_chars v) ≡ v
unfolding keep_topic_chars
keep_of_All [] h = refl
keep_of_All (c ∷ v) h = ground (arith, keep_of_All v h.1)

-- A sanitized name has lower-case letters, digits, underscores and dashes only, so no level separator
-- and no wildcard of MQTT; and sanitizing it again changes nothing.
pub sanitize_topic_lem :
    (v : Bytes)
    → All IsTopicChar (sanitize_topic v) × (sanitize_topic (sanitize_topic v) ≡ sanitize_topic v)
unfolding sanitize_topic
sanitize_topic_lem v =
    (keep_topic_chars-All v, keep_of_All (to_lower (keep_topic_chars v)) (keep_topic_chars-All v))

-- The digit of a value as it stands in a topic.
topic_digit : ℕ → ℕ
topic_digit n = to_lower_char (replace_char b':' b'-' (upper_digit n))

topic_digit_injective : (a b : ℕ) → a < 16 → b < 16 → topic_digit a ≡ topic_digit b → a ≡ b
unfolding topic_digit to_lower_char replace_char upper_digit
topic_digit_injective a b h k e = ground arith

topic_hex_injective :
    (a b : ℕ)
    → a < 256
    → b < 256
    → topic_digit (a / 16) ≡ topic_digit (b / 16)
    → topic_digit (a % 16) ≡ topic_digit (b % 16)
    → a ≡ b
topic_hex_injective a b h k e f =
    let hi = topic_digit_injective (a / 16) (b / 16) (omega arith) (omega arith) e in
    let lo = topic_digit_injective (a % 16) (b % 16) (omega arith) (omega arith) f in omega arith

topic_hex : ℕ → Bytes
topic_hex b = topic_digit (b / 16) ∷ topic_digit (b % 16) ∷ []

-- A printed address as it stands in a topic.
mac_topic : Mac → Bytes
unfolding topic_hex
mac_topic m =
    topic_hex m.b0
    ++ (b'-'
        ∷ (topic_hex m.b1
            ++ (b'-'
                ∷ (topic_hex m.b2
                    ++ (b'-'
                        ∷ (topic_hex m.b3
                            ++ (b'-' ∷ (topic_hex m.b4 ++ (b'-' ∷ topic_hex m.b5)))))))))

sanitize_mac_topic-to_string : (m : Mac) → sanitize_mac_topic (to_string m) ≡ mac_topic m
unfolding sanitize_mac_topic to_string mac_topic topic_digit
sanitize_mac_topic-to_string m = refl

mac_path :
    (a b : Mac)
    → a.b0 ≡ b.b0
    → a.b1 ≡ b.b1
    → a.b2 ≡ b.b2
    → a.b3 ≡ b.b3
    → a.b4 ≡ b.b4
    → a.b5 ≡ b.b5
    → a ≡ b
mac_path a b e0 e1 e2 e3 e4 e5 =
    λ i. record { b0 = e0 i; b1 = e1 i; b2 = e2 i; b3 = e3 i; b4 = e4 i; b5 = e5 i }

mac_topic_injective :
    (a b : Mac) (s t : Bytes) → IsMac a → IsMac b → mac_topic a ++ s ≡ mac_topic b ++ t → a ≡ b
unfolding mac_topic
mac_topic_injective a b s t (h0, (h1, (h2, (h3, (h4, (h5, _))))))
      (k0, (k1, (k2, (k3, (k4, (k5, _)))))) e =
    mac_path a b (topic_hex_injective a.b0 b.b0 h0 k0 (cc) (cc))
      (topic_hex_injective a.b1 b.b1 h1 k1 (cc) (cc))
      (topic_hex_injective a.b2 b.b2 h2 k2 (cc) (cc))
      (topic_hex_injective a.b3 b.b3 h3 k3 (cc) (cc))
      (topic_hex_injective a.b4 b.b4 h4 k4 (cc) (cc))
      (topic_hex_injective a.b5 b.b5 h5 k5 (cc) (cc))

append_cancel : (xs : Bytes) {ys zs : Bytes} → xs ++ ys ≡ xs ++ zs → ys ≡ zs
append_cancel [] h = h
append_cancel (x ∷ xs) h = append_cancel xs (cc)

-- The topics of a station, taken apart at the address.
five_parts : Bytes → Bytes → Bytes → Bytes → Bytes → Bytes
five_parts p kind name mac last = mk_topic (p ∷ kind ∷ name ∷ mac ∷ last ∷ [])

five_parts_injective :
    (p kind name last last' : Bytes) (a b : Mac)
    → IsMac a
    → IsMac b
    → five_parts p kind name (sanitize_mac_topic (to_string a)) last
      ≡ five_parts p kind name (sanitize_mac_topic (to_string b)) last'
    → (a ≡ b) × (last ≡ last')
five_parts_injective p kind name last last' a b ha hb e =
    let e' : p ++ (b'/' ∷ (kind ++ (b'/' ∷ (name ++ (b'/' ∷ (mac_topic a ++ (b'/' ∷ last)))))))
        ≡ p ++ (b'/' ∷ (kind ++ (b'/' ∷ (name ++ (b'/' ∷ (mac_topic b ++ (b'/' ∷ last'))))))) =
      rw (← sanitize_mac_topic-to_string a, ← sanitize_mac_topic-to_string b)
        (unfold five_parts mk_topic in e) in
    let e1 : kind ++ (b'/' ∷ (name ++ (b'/' ∷ (mac_topic a ++ (b'/' ∷ last)))))
        ≡ kind ++ (b'/' ∷ (name ++ (b'/' ∷ (mac_topic b ++ (b'/' ∷ last'))))) =
      let e0 = append_cancel p e' in cc in
    let e2 : name ++ (b'/' ∷ (mac_topic a ++ (b'/' ∷ last)))
        ≡ name ++ (b'/' ∷ (mac_topic b ++ (b'/' ∷ last'))) =
      let e0 = append_cancel kind e1 in cc in
    let e3 : mac_topic a ++ (b'/' ∷ last) ≡ mac_topic b ++ (b'/' ∷ last') =
      let e0 = append_cancel name e2 in cc in
    let same = mac_topic_injective a b (b'/' ∷ last) (b'/' ∷ last') ha hb e3 in
    let e4 : mac_topic b ++ (b'/' ∷ last) ≡ mac_topic b ++ (b'/' ∷ last') = rw same at e3 in
    let e5 = append_cancel (mac_topic b) e4 in (same, cc)

state_five_parts :
    (m : MqttTopics) (mac : Bytes)
    → device_state m mac
      ≡ five_parts m.prefix
          (codes "station")
          (sanitize_topic m.name)
          (sanitize_mac_topic mac)
          (codes "state")
unfolding device_state five_parts
state_five_parts m mac = refl

attrs_five_parts :
    (m : MqttTopics) (mac : Bytes)
    → device_json_attrs m mac
      ≡ five_parts m.prefix
          (codes "station")
          (sanitize_topic m.name)
          (sanitize_mac_topic mac)
          (codes "attrs")
unfolding device_json_attrs five_parts
attrs_five_parts m mac = refl

discovery_five_parts :
    (m : MqttTopics) (mac : Bytes)
    → device_discovery m mac
      ≡ five_parts m.hass_prefix
          (codes "device_tracker")
          (sanitize_topic m.name)
          (sanitize_mac_topic mac)
          (codes "config")
unfolding device_discovery five_parts
discovery_five_parts m mac = refl

-- Two addresses of six bytes that share a state topic, an attributes topic or a discovery topic
-- are equal.
pub topics_injective :
    (m : MqttTopics) (a b : Mac)
    → IsMac a
    → IsMac b
    → (device_state m (to_string a) ≡ device_state m (to_string b))
      ⊎ (device_json_attrs m (to_string a) ≡ device_json_attrs m (to_string b))
      ⊎ (device_discovery m (to_string a) ≡ device_discovery m (to_string b))
    → a ≡ b
topics_injective m a b ha hb (inl e) =
    (five_parts_injective _ _ _ _ _ a b ha hb
      (sym (state_five_parts m (to_string a)) ∙ e ∙ state_five_parts m (to_string b))).0
topics_injective m a b ha hb (inr (inl e)) =
    (five_parts_injective _ _ _ _ _ a b ha hb
      (sym (attrs_five_parts m (to_string a)) ∙ e ∙ attrs_five_parts m (to_string b))).0
topics_injective m a b ha hb (inr (inr e)) =
    (five_parts_injective _ _ _ _ _ a b ha hb
      (sym (discovery_five_parts m (to_string a)) ∙ e ∙ discovery_five_parts m (to_string b))).0

first : Bytes → ℕ
first [] = 0
first (c ∷ cs) = c

-- No state topic of an address of six bytes is an attributes topic of one.
pub state_ne_attrs :
    (m : MqttTopics) (a b : Mac)
    → IsMac a
    → IsMac b
    → device_state m (to_string a) ≢ device_json_attrs m (to_string b)
unfolding first
state_ne_attrs m a b ha hb = λ e.
    let r =
      five_parts_injective m.prefix (codes "station") (sanitize_topic m.name) (codes "state")
        (codes "attrs") a b ha hb
        (sym (state_five_parts m (to_string a)) ∙ e ∙ attrs_five_parts m (to_string b)) in
    absurd (omega (arith, ap first r.1))
