-- ===== src/Provisioning/Tests.antt =====
-- A candidate for one device.
use devices.Prelude.{
  ℕ, ◌≡◌, ◌≤◌, ◌⊎◌, refl, true, List, [], ◌∷◌, ◌++◌, length, replicate, not, ◌==◌, ◌%◌, ◌^◌,
}
use devices.Provisioning.Policy.{
  Candidate, mqtt, https, logger, device_id_from_hardware_id, is_canonical_device_id, validate,
}
use devices.Provisioning.Acceptance.{accepted_is_this_device, device_id_is_canonical}

abbrev pub id : List ℕ
id = 109 ∷ 100 ∷ 97 ∷ 45 ∷ replicate 11 48 ++ 97 ∷ []

abbrev word : List ℕ
word = replicate 12 120

abbrev pub candidate : Candidate
candidate = record {
  expected_device_id = id;
  friendly_name = word;
  wifi_ssid = word;
  wifi_password = word;
  ota_password = word;
  protocol = https;
  upload_host = word;
  upload_port = 443;
  mqtt_username = [];
  mqtt_password = [];
  cloudflare_client_id = word;
  cloudflare_client_secret = word;
  app_device_token = word;
  app_token_subject = logger ++ id;
  hardware_revision = word;
  provisioned_at = word;
}

accepted_is_this_device_example :
    (is_canonical_device_id id ≡ true)
    × (id ≡ id)
    × (((https ≡ mqtt) × ([] ≡ id)) ⊎ ((https ≡ https) × (logger ++ id ≡ logger ++ id)))
    × (12 ≤ length word)
    × (8 ≤ length word)
unfolding validate is_canonical_device_id
accepted_is_this_device_example = accepted_is_this_device candidate id refl

device_id_is_canonical_example :
    is_canonical_device_id (device_id_from_hardware_id 10) ≡ not (10 % 2 ^ 48 == 0)
device_id_is_canonical_example = device_id_is_canonical 10
