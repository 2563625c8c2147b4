-- ===== src/Provisioning/Settings.antt =====
-- What the record of a new owner holds (logger/firmware/src/DeviceProvisioning.cpp), said key by key, and
-- that it is what the writes leave in an empty store.
use devices.Prelude.{ℕ, ◌≡◌, refl, ap, ◌∙◌, Bool, true, Option, some, none, List, [], ◌∷◌}
use mathlib.Core.Path.{fun_ext}
use devices.Provisioning.Policy.{Protocol, mqtt, https, Candidate}
use devices.Provisioning.Owner.{
  TextKey, key_device_id, key_name, key_wifi_ssid, key_wifi_pass, key_ota_pass, key_up_host,
  key_mqtt_user, key_mqtt_pass, key_cf_id, key_cf_secret, key_app_token, key_app_subject,
  key_prov_at, Held, empty_held, Edit, put_ready, edited,
}
use devices.Provisioning.Change.{owner_edits}

abbrev pub apply_edits : List Edit → Held → Held
apply_edits [] h = h
apply_edits (e ∷ es) h = apply_edits es (edited e h)

-- The text that a new owner's record has under each key: the broker's keys or the server's.
abbrev pub owner_text : Candidate → TextKey → Option (List ℕ)
owner_text c key_device_id = some c.expected_device_id
owner_text c key_name = some c.friendly_name
owner_text c key_wifi_ssid = some c.wifi_ssid
owner_text c key_wifi_pass = some c.wifi_password
owner_text c key_ota_pass = some c.ota_password
owner_text c key_up_host = some c.upload_host
owner_text c key_mqtt_user = elim c.protocol [ mqtt ↦ some c.mqtt_username | https ↦ none ]
owner_text c key_mqtt_pass = elim c.protocol [ mqtt ↦ some c.mqtt_password | https ↦ none ]
owner_text c key_cf_id = elim c.protocol [ mqtt ↦ none | https ↦ some c.cloudflare_client_id ]
owner_text c key_cf_secret = elim c.protocol [
  | mqtt ↦ none
  | https ↦ some c.cloudflare_client_secret
]
owner_text c key_app_token = elim c.protocol [ mqtt ↦ none | https ↦ some c.app_device_token ]
owner_text c key_app_subject = elim c.protocol [ mqtt ↦ none | https ↦ some c.app_token_subject ]
owner_text c key_prov_at = some c.provisioned_at

-- The record of a new owner: each setting under its key, and the mark.
abbrev pub owned : Candidate → Bool → Held
owned c remote = record {
  text = owner_text c;
  up_port = some c.upload_port;
  protocol = some (elim c.protocol [ mqtt ↦ 0 | https ↦ 1 ]);
  remote_mgmt = some remote;
  ready = some true;
}

-- What the writes leave in an empty store.
abbrev pub written : Candidate → Bool → Held
written c remote = edited (put_ready true) (apply_edits (owner_edits c remote) empty_held)

written_text :
    (p : Protocol) (c : Candidate) (remote : Bool) (k : TextKey)
    → (written (record c { protocol = p }) remote).text k ≡ owner_text (record c { protocol = p }) k
unfolding owner_edits
written_text mqtt c remote k =
    elim k
      as (λ k.
        (written (record c { protocol = mqtt }) remote).text k
        ≡ owner_text (record c { protocol = mqtt }) k) [
          | key_device_id ↦ refl
          | key_name ↦ refl
          | key_wifi_ssid ↦ refl
          | key_wifi_pass ↦ refl
          | key_ota_pass ↦ refl
          | key_up_host ↦ refl
          | key_mqtt_user ↦ refl
          | key_mqtt_pass ↦ refl
          | key_cf_id ↦ refl
          | key_cf_secret ↦ refl
          | key_app_token ↦ refl
          | key_app_subject ↦ refl
          | key_prov_at ↦ refl
        ]
written_text https c remote k =
    elim k
      as (λ k.
        (written (record c { protocol = https }) remote).text k
        ≡ owner_text (record c { protocol = https }) k) [
          | key_device_id ↦ refl
          | key_name ↦ refl
          | key_wifi_ssid ↦ refl
          | key_wifi_pass ↦ refl
          | key_ota_pass ↦ refl
          | key_up_host ↦ refl
          | key_mqtt_user ↦ refl
          | key_mqtt_pass ↦ refl
          | key_cf_id ↦ refl
          | key_cf_secret ↦ refl
          | key_app_token ↦ refl
          | key_app_subject ↦ refl
          | key_prov_at ↦ refl
        ]

written_rest :
    (p : Protocol) (c : Candidate) (remote : Bool)
    → written (record c { protocol = p }) remote
      ≡ record (owned (record c { protocol = p }) remote) {
        text = (written (record c { protocol = p }) remote).text;
      }
unfolding owner_edits
written_rest mqtt c remote = refl
written_rest https c remote = refl

pub written_owned : (c : Candidate) (remote : Bool) → written c remote ≡ owned c remote
written_owned c remote =
    written_rest c.protocol c remote
    ∙ ap (λ t. record (owned c remote) { text = t })
        (fun_ext (λ k. written_text c.protocol c remote k))
