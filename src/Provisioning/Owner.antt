-- ===== src/Provisioning/Owner.antt =====
-- The `Preferences` library of the ESP32 core as logger/firmware/src/DeviceProvisioning.cpp uses it, on
-- the namespaces "apexi_owner" and "apexi_factory". It is not part of the repository: a record of
-- operations over a world, with the documented behaviour of a key-value store as laws.
use devices.Prelude.{ℕ, Bool, true, false, Option, some, none, List, ◌≡◌, ◌==◌, if◌then◌else◌}

pub data TextKey : Type 0 where
  key_device_id key_name key_wifi_ssid key_wifi_pass key_ota_pass key_up_host : TextKey
  key_mqtt_user key_mqtt_pass key_cf_id key_cf_secret key_app_token key_app_subject : TextKey
  key_prov_at : TextKey

abbrev key_code : TextKey → ℕ
key_code key_device_id = 0
key_code key_name = 1
key_code key_wifi_ssid = 2
key_code key_wifi_pass = 3
key_code key_ota_pass = 4
key_code key_up_host = 5
key_code key_mqtt_user = 6
key_code key_mqtt_pass = 7
key_code key_cf_id = 8
key_code key_cf_secret = 9
key_code key_app_token = 10
key_code key_app_subject = 11
key_code key_prov_at = 12

-- What is stored in the owner's namespace.
pub record Held : Type 0 where
  pub text : TextKey → Option (List ℕ)
  pub up_port : Option ℕ
  pub protocol : Option ℕ
  pub remote_mgmt : Option Bool
  pub ready : Option Bool

abbrev pub empty_held : Held
empty_held = record {
  text = λ k. none;
  up_port = none;
  protocol = none;
  remote_mgmt = none;
  ready = none;
}

-- The calls that put a value.
pub data Edit : Type 0 where
  put_text : TextKey → List ℕ → Edit
  put_up_port put_protocol : ℕ → Edit
  put_remote_mgmt put_ready : Bool → Edit

abbrev pub edited : Edit → Held → Held
edited (put_text k v) h = record h {
  text = λ j. if key_code j == key_code k then some v else h.text j;
}
edited (put_up_port n) h = record h { up_port = some n }
edited (put_protocol n) h = record h { protocol = some n }
edited (put_remote_mgmt b) h = record h { remote_mgmt = some b }
edited (put_ready b) h = record h { ready = some b }

-- `put` is whether the call reported that it stored something.
pub record OwnerStore (W : Type 0) : Type 0 where
  pub open_owner : Bool → W → Bool × W
  pub held : W → Held
  pub put : Edit → W → Bool × W
  pub clear : W → Bool × W
  pub close_owner : W → W
  pub open_factory : Bool → W → Bool × W
  pub hw_rev : W → Option (List ℕ)
  pub put_hw_rev : List ℕ → W → Bool × W
  pub close_factory : W → W

pub record IsOwnerStore {W : Type 0} (nvs : OwnerStore W) : Type 0 where
  pub open_owner_keeps : (b : Bool) (w : W) → nvs.held (nvs.open_owner b w).1 ≡ nvs.held w
  pub close_owner_keeps : (w : W) → nvs.held (nvs.close_owner w) ≡ nvs.held w
  pub put_done :
      (e : Edit) (w : W) → (nvs.put e w).0 ≡ true → nvs.held (nvs.put e w).1 ≡ edited e (nvs.held w)
  pub put_refused :
      (e : Edit) (w : W) → (nvs.put e w).0 ≡ false → nvs.held (nvs.put e w).1 ≡ nvs.held w
  pub clear_done : (w : W) → (nvs.clear w).0 ≡ true → nvs.held (nvs.clear w).1 ≡ empty_held
  pub clear_refused : (w : W) → (nvs.clear w).0 ≡ false → nvs.held (nvs.clear w).1 ≡ nvs.held w
  pub open_factory_keeps : (b : Bool) (w : W) → nvs.held (nvs.open_factory b w).1 ≡ nvs.held w
  pub put_hw_rev_keeps : (v : List ℕ) (w : W) → nvs.held (nvs.put_hw_rev v w).1 ≡ nvs.held w
  pub close_factory_keeps : (w : W) → nvs.held (nvs.close_factory w) ≡ nvs.held w
