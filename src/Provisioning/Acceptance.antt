-- ===== src/Provisioning/Acceptance.antt =====
-- Which identities logger/firmware/src/ProvisioningPolicy.cpp gives and accepts.
use devices.Prelude.{
  ℕ, zero, suc, ◌*◌, ◌/◌, ◌%◌, ◌^◌, ◌≤◌, ◌<◌, ◌≡◌, ◌⊎◌, refl, ap, ◌∙◌, arith, Bool, true, false,
  none, List, [], ◌∷◌, ◌++◌, length, bytes_eq→eq, not, ◌||◌, ◌==◌,
}
use devices.Provisioning.Policy.{
  Candidate, mqtt, https, logger, hex_digit, hex_digits, is_hex, hex_scan,
  device_id_from_hardware_id, is_canonical_device_id, validate,
}

-- An accepted candidate names exactly this device: its identity is canonical and is the expected
-- one, and it is the MQTT user, or the subject of the bearer is "logger:" and the identity.
pub accepted_is_this_device :
    (c : Candidate) (id : List ℕ)
    → validate c id ≡ none
    → (is_canonical_device_id id ≡ true)
      × (c.expected_device_id ≡ id)
      × (((c.protocol ≡ mqtt) × (c.mqtt_username ≡ id))
          ⊎ ((c.protocol ≡ https) × (c.app_token_subject ≡ logger ++ id)))
      × (12 ≤ length c.ota_password)
      × (8 ≤ length c.wifi_password)
unfolding validate
accepted_is_this_device c id ok = ground (
  arith,
  bytes_eq→eq c.expected_device_id id,
  bytes_eq→eq c.mqtt_username id,
  bytes_eq→eq c.app_token_subject (logger ++ id),
)

hex_digit-is_hex : (n : ℕ) → n < 16 → is_hex (hex_digit n) ≡ true
hex_digit-is_hex n h = ground arith

hex_scan-append :
    (cs : List ℕ) (c : ℕ) (flag : Bool)
    → hex_scan cs true ≡ true
    → is_hex c ≡ true
    → hex_scan (cs ++ c ∷ []) flag ≡ (hex_scan cs flag || not (c == 48))
hex_scan-append [] c flag all h = rw h refl
hex_scan-append (d ∷ ds) c flag all h = ground (arith, hex_scan-append ds c (flag || not (d == 48)))

hex_digits-is_hex : (k n : ℕ) → hex_scan (hex_digits k n) true ≡ true
hex_digits-is_hex zero n = refl
hex_digits-is_hex (suc k) n =
    hex_scan-append (hex_digits k (n / 16)) (hex_digit (n % 16)) true (hex_digits-is_hex k (n / 16))
      (hex_digit-is_hex (n % 16) (omega arith))
    ∙ ap (λ b. b || not (hex_digit (n % 16) == 48)) (hex_digits-is_hex k (n / 16))

hex_digit_zero : (n : ℕ) → n < 16 → (hex_digit n == 48) ≡ (n == 0)
hex_digit_zero n h = ground arith

-- How many numbers have at most `k` digits.
abbrev room : ℕ → ℕ
room zero = 1
room (suc k) = 16 * room k

hex_digits-scan : (k n : ℕ) → n < room k → hex_scan (hex_digits k n) false ≡ not (n == 0)
hex_digits-scan zero n h = ground arith
hex_digits-scan (suc k) n h =
    let up : n / 16 < room k = omega (arith, h) in
    hex_scan-append (hex_digits k (n / 16)) (hex_digit (n % 16)) false
      (hex_digits-is_hex k (n / 16)) (hex_digit-is_hex (n % 16) (omega arith))
    ∙ rw (hex_digits-scan k (n / 16) up, hex_digit_zero (n % 16) (omega arith)) (ground arith)

-- The identity made of a hardware address is canonical for every address but the one whose 48 bits
-- are all 0.
pub device_id_is_canonical :
    (hardware_id : ℕ)
    → is_canonical_device_id (device_id_from_hardware_id hardware_id)
      ≡ not (hardware_id % 2 ^ 48 == 0)
unfolding is_canonical_device_id device_id_from_hardware_id
device_id_is_canonical hardware_id =
    let n = hardware_id % 2 ^ 48 in hex_digits-scan 12 n (omega arith)
