-- ===== src/Provisioning/Policy.antt =====
-- The functions of logger/firmware/src/ProvisioningPolicy.cpp.
use Prim.Native.String.{String}
use devices.Prelude.{
  ℕ, zero, suc, ◌/◌, ◌%◌, ◌+◌, ◌^◌, Bool, true, false, Option, some, none, List, [], ◌∷◌, ◌++◌,
  length, take, drop, bytes_eq, ◌&&◌, ◌||◌, not, ltb, leb, ◌==◌, if◌then◌else◌,
}

pub data Protocol : Type 0 where
  mqtt https : Protocol

pub record Candidate : Type 0 where
  pub expected_device_id : List ℕ
  pub friendly_name : List ℕ
  pub wifi_ssid : List ℕ
  pub wifi_password : List ℕ
  pub ota_password : List ℕ
  pub protocol : Protocol
  pub upload_host : List ℕ
  pub upload_port : ℕ
  pub mqtt_username : List ℕ
  pub mqtt_password : List ℕ
  pub cloudflare_client_id : List ℕ
  pub cloudflare_client_secret : List ℕ
  pub app_device_token : List ℕ
  pub app_token_subject : List ℕ
  pub hardware_revision : List ℕ
  pub provisioned_at : List ℕ

-- "mda-" and "logger:"
abbrev pub mda : List ℕ
mda = 109 ∷ 100 ∷ 97 ∷ 45 ∷ []

abbrev pub logger : List ℕ
logger = 108 ∷ 111 ∷ 103 ∷ 103 ∷ 101 ∷ 114 ∷ 58 ∷ []

abbrev pub no_control : List ℕ → Bool
no_control [] = true
no_control (c ∷ cs) = if ltb c 32 || (c == 127) then false else no_control cs

abbrev pub valid_text : List ℕ → ℕ → Bool → Bool
valid_text value maximum required =
    if (required && (length value == 0)) || ltb maximum (length value)
    then false
    else no_control value

abbrev pub hex_digit : ℕ → ℕ
hex_digit n = if ltb n 10 then n + 48 else n + 87

-- The lowest `k` hexadecimal digits, the highest of them first.
abbrev pub hex_digits : ℕ → ℕ → List ℕ
hex_digits zero n = []
hex_digits (suc k) n = hex_digits k (n / 16) ++ hex_digit (n % 16) ∷ []

unfoldable pub device_id_from_hardware_id : ℕ → List ℕ
device_id_from_hardware_id hardware_id = mda ++ hex_digits 12 (hardware_id % 2 ^ 48)

abbrev pub is_hex : ℕ → Bool
is_hex c = (leb 48 c && leb c 57) || (leb 97 c && leb c 102)

-- The loop over the digits, with the flag for one that is not zero.
abbrev pub hex_scan : List ℕ → Bool → Bool
hex_scan [] non_zero = non_zero
hex_scan (c ∷ cs) non_zero =
    if not (is_hex c) then false else hex_scan cs (non_zero || not (c == 48))

unfoldable pub is_canonical_device_id : List ℕ → Bool
is_canonical_device_id id =
    if not (length id == 16) || not (bytes_eq (take 4 id) mda)
    then false
    else hex_scan (drop 4 id) false

abbrev pub network_allowed : Bool → Bool → Bool
network_allowed production_target provisioned = not production_target || provisioned

abbrev pub fields_valid : Candidate → Bool
fields_valid c =
    valid_text c.friendly_name 63 true
    && (valid_text c.wifi_ssid 32 true
        && (valid_text c.wifi_password 63 true
            && (valid_text c.ota_password 127 true
                && (valid_text c.upload_host 127 true
                    && (not (c.upload_port == 0)
                        && (valid_text c.hardware_revision 31 true
                            && valid_text c.provisioned_at 40 true))))))

-- The error, or `none` for a candidate that is accepted.
unfoldable pub validate : Candidate → List ℕ → Option String
validate c id =
    if not (is_canonical_device_id id)
    then some "hardware identity is malformed"
    else if length c.expected_device_id == 0
    then some "expected_device_id is required"
    else if not (bytes_eq c.expected_device_id id)
    then some "expected_device_id does not match this device"
    else if not (fields_valid c)
    then some "required provisioning field is blank, malformed, or too long"
    else if ltb (length c.ota_password) 12 || ltb (length c.wifi_password) 8
    then some "Wi-Fi and OTA credentials do not meet minimum lengths"
    else elim c.protocol [
      | mqtt ↦
          if not (bytes_eq c.mqtt_username id)
          then some "MQTT username must equal the immutable device ID"
          else if not (valid_text c.mqtt_password 127 true)
          then some "MQTT password is required"
          else none
      | https ↦
          if not (valid_text c.cloudflare_client_id 127 true)
            || (not (valid_text c.cloudflare_client_secret 127 true)
                || not (valid_text c.app_device_token 511 true))
          then some "HTTPS credentials are incomplete"
          else if not (bytes_eq c.app_token_subject (logger ++ id))
          then some "app bearer subject must equal logger:<immutable device ID>"
          else none
    ]
