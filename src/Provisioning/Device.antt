-- ===== src/Provisioning/Device.antt =====
-- The start of logger/firmware/src/DeviceProvisioning.cpp, in the ESP32 build: what a logger knows of
-- its owner after a boot. The members of its three configurations that the settings bind are kept once.
use Prim.Native.String.{String}
use devices.Prelude.{
  ℕ, Bool, true, false, Option, some, none, List, [], ◌∷◌, ◌&&◌, not, bytes_eq, ltb, ◌==◌,
  if◌then◌else◌,
}
use devices.Provisioning.Policy.{Protocol, mqtt, https, Candidate, validate}
use devices.Provisioning.Owner.{
  key_device_id, key_name, key_wifi_ssid, key_wifi_pass, key_ota_pass, key_up_host, key_mqtt_user,
  key_mqtt_pass, key_cf_id, key_cf_secret, key_app_token, key_app_subject, key_prov_at, Held,
  OwnerStore,
}

pub record DeviceProvisioning : Type 0 where
  pub device_id : List ℕ
  pub friendly_name : List ℕ
  pub wifi_ssid : List ℕ
  pub wifi_password : List ℕ
  pub ota_password : List ℕ
  pub upload_host : List ℕ
  pub upload_port : ℕ
  pub protocol : Protocol
  pub mqtt_username : List ℕ
  pub mqtt_password : List ℕ
  pub cloudflare_client_id : List ℕ
  pub cloudflare_client_secret : List ℕ
  pub app_device_token : List ℕ
  pub app_token_subject : List ℕ
  pub hardware_revision : List ℕ
  pub provisioned_at : List ℕ
  pub status : String
  pub last_error : String
  pub provisioned : Bool
  pub remote_management_enabled : Bool

unfoldable pub clear_owner_values : DeviceProvisioning → DeviceProvisioning
clear_owner_values d = record d {
  provisioned = false;
  friendly_name = d.device_id;
  wifi_ssid = [];
  wifi_password = [];
  ota_password = [];
  upload_host = [];
  upload_port = 0;
  mqtt_username = [];
  mqtt_password = [];
  cloudflare_client_id = [];
  cloudflare_client_secret = [];
  app_device_token = [];
  app_token_subject = [];
  provisioned_at = [];
  remote_management_enabled = false;
}

abbrev pub or_else {ℓ} : {A : Type ℓ} → Option A → A → A
or_else (some a) d = a
or_else none d = d

-- The settings that are stored.
abbrev pub load_owner_values : Held → DeviceProvisioning → DeviceProvisioning
load_owner_values h d = record d {
  provisioned = true;
  friendly_name = or_else (h.text key_name) d.device_id;
  wifi_ssid = or_else (h.text key_wifi_ssid) [];
  wifi_password = or_else (h.text key_wifi_pass) [];
  ota_password = or_else (h.text key_ota_pass) [];
  upload_host = or_else (h.text key_up_host) [];
  upload_port = or_else h.up_port 0;
  protocol = if or_else h.protocol 255 == 0 then mqtt else https;
  mqtt_username = or_else (h.text key_mqtt_user) [];
  mqtt_password = or_else (h.text key_mqtt_pass) [];
  cloudflare_client_id = or_else (h.text key_cf_id) [];
  cloudflare_client_secret = or_else (h.text key_cf_secret) [];
  app_device_token = or_else (h.text key_app_token) [];
  app_token_subject = or_else (h.text key_app_subject) [];
  provisioned_at = or_else (h.text key_prov_at) [];
  remote_management_enabled = or_else h.remote_mgmt false;
  status = "provisioned";
}

-- The stored settings as a candidate.
abbrev pub stored_candidate : DeviceProvisioning → Candidate
stored_candidate d = record {
  expected_device_id = d.device_id;
  friendly_name = d.friendly_name;
  wifi_ssid = d.wifi_ssid;
  wifi_password = d.wifi_password;
  ota_password = d.ota_password;
  protocol = d.protocol;
  upload_host = d.upload_host;
  upload_port = d.upload_port;
  mqtt_username = d.mqtt_username;
  mqtt_password = d.mqtt_password;
  cloudflare_client_id = d.cloudflare_client_id;
  cloudflare_client_secret = d.cloudflare_client_secret;
  app_device_token = d.app_device_token;
  app_token_subject = d.app_token_subject;
  hardware_revision = d.hardware_revision;
  provisioned_at = d.provisioned_at;
}

-- The last test of `begin`, on the protocol's stored byte.
unfoldable pub check_stored : ℕ → DeviceProvisioning → Bool × DeviceProvisioning
check_stored stored_protocol d =
    let invalid = validate (stored_candidate d) d.device_id in
    let message : String = or_else invalid "stored upload protocol is invalid" in
    let refused = clear_owner_values (record d { status = "fault"; last_error = message }) in
    if not d.provisioned
    then (false, d)
    else if ltb 1 stored_protocol
    then (
      false,
      clear_owner_values
          (record d { status = "fault"; last_error = "stored upload protocol is invalid" }),
    )
    else elim invalid [ none ↦ (true, d) | some reason ↦ (false, refused) ]

module _ {W : Type 0} (nvs : OwnerStore W) where
  unfoldable pub read_factory : DeviceProvisioning → W → DeviceProvisioning × W
  read_factory d w =
      let (opened, w₁) = nvs.open_factory true w in
      let unknown = 117 ∷ 110 ∷ 107 ∷ 110 ∷ 111 ∷ 119 ∷ 110 ∷ [] in
      if opened
      then (record d { hardware_revision = or_else (nvs.hw_rev w₁) unknown }, nvs.close_factory w₁)
      else (d, w₁)

  -- `begin`, once the members hold the defaults and the device's identity.
  unfoldable pub begin : DeviceProvisioning → W → Bool × DeviceProvisioning × W
  begin d w =
      let (opened, w₁) = nvs.open_owner true w in
      let h = nvs.held w₁ in
      let w₂ = nvs.close_owner w₁ in
      let loaded = if or_else h.ready false then load_owner_values h d else clear_owner_values d in
      let (d₃, w₃) = read_factory loaded w₂ in
      let (done, d₄) = check_stored (or_else h.protocol 255) d₃ in
      if not opened
      then (
        false,
        clear_owner_values
            (record d { status = "fault"; last_error = "owner credential store unavailable" }),
        w₁,
      )
      else if or_else h.ready false
          && not (bytes_eq (or_else (h.text key_device_id) []) d.device_id)
      then (
        false,
        clear_owner_values (record d {
          status = "identity-mismatch";
          last_error = "provisioning record belongs to another device";
        }),
        w₂,
      )
      else (done, d₄, w₃)
