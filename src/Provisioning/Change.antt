-- ===== src/Provisioning/Change.antt =====
-- `acceptSerialCommand` and `factoryResetOwnerCredentials` of
-- logger/firmware/src/DeviceProvisioning.cpp: a new owner's settings, written key by key, the flag that
-- makes them valid last. The JSON reader is not part of this repository: it gives the fields of the
-- command, an absent text as the empty one.
use Prim.Native.String.{String, len}
use devices.Prelude.{
  ℕ, Bool, true, false, Option, some, none, List, [], ◌∷◌, ◌++◌, ◌&&◌, not, length, take, drop,
  bytes_eq, ◌==◌, if◌then◌else◌,
}
use devices.Provisioning.Policy.{Protocol, mqtt, https, Candidate, validate}
use devices.Provisioning.Owner.{
  key_device_id, key_name, key_wifi_ssid, key_wifi_pass, key_ota_pass, key_up_host, key_mqtt_user,
  key_mqtt_pass, key_cf_id, key_cf_secret, key_app_token, key_app_subject, key_prov_at, Edit,
  put_text, put_up_port, put_protocol, put_remote_mgmt, put_ready, OwnerStore,
}
use devices.Provisioning.Device.{DeviceProvisioning, or_else}

-- "APEXI_PROVISION "
abbrev pub command_prefix : List ℕ
command_prefix = 65 ∷ 80 ∷ 69 ∷ 88 ∷ 73 ∷ 95 ∷ 80 ∷ 82 ∷ 79 ∷ 86 ∷ 73 ∷ 83 ∷ 73 ∷ 79 ∷ 78 ∷ 32 ∷ []

-- A field that is absent or null, a Boolean, or of another type.
pub data Flag : Type 0 where
  absent wrong_type : Flag
  given : Bool → Flag

pub record Command : Type 0 where
  pub candidate : Candidate
  pub protocol_text : List ℕ
  pub remote_management : Flag

-- "mqtt" and "https"
abbrev pub protocol_of : List ℕ → Option Protocol
protocol_of text =
    if bytes_eq text (109 ∷ 113 ∷ 116 ∷ 116 ∷ [])
    then some mqtt
    else if bytes_eq text (104 ∷ 116 ∷ 116 ∷ 112 ∷ 115 ∷ [])
    then some https
    else none

-- The keys of either protocol.
abbrev pub protocol_edits : Candidate → Protocol → List Edit
protocol_edits c mqtt =
    put_text key_mqtt_user c.mqtt_username ∷ put_text key_mqtt_pass c.mqtt_password ∷ []
protocol_edits c https =
    put_text key_cf_id c.cloudflare_client_id
    ∷ put_text key_cf_secret c.cloudflare_client_secret
    ∷ put_text key_app_token c.app_device_token
    ∷ put_text key_app_subject c.app_token_subject
    ∷ []

-- The writes but the last.
unfoldable pub owner_edits : Candidate → Bool → List Edit
owner_edits c remote =
    put_text key_device_id c.expected_device_id
    ∷ put_text key_name c.friendly_name
    ∷ put_text key_wifi_ssid c.wifi_ssid
    ∷ put_text key_wifi_pass c.wifi_password
    ∷ put_text key_ota_pass c.ota_password
    ∷ put_text key_up_host c.upload_host
    ∷ put_up_port c.upload_port
    ∷ put_protocol (elim c.protocol [ mqtt ↦ 0 | https ↦ 1 ])
    ∷ (protocol_edits c c.protocol
        ++ (put_text key_prov_at c.provisioned_at ∷ put_remote_mgmt remote ∷ []))

abbrev pub failed : String → DeviceProvisioning → DeviceProvisioning
failed e d = record d { last_error = e }

module _ {W : Type 0} (nvs : OwnerStore W) where
  -- `saved = saved && put(...)`, over the writes.
  unfoldable pub put_all : List Edit → W → Bool × W
  put_all [] w = (true, w)
  put_all (e ∷ es) w =
      let (stored, w₁) = nvs.put e w in
      let later = put_all es w₁ in if stored then later else (false, w₁)

  -- The owner's record is replaced: cleared, written, and marked ready.
  unfoldable pub write_owner : Candidate → Bool → W → Bool × W
  write_owner c remote w =
      let (cleared, w₁) = nvs.clear w in
      let (stored, w₂) = put_all (owner_edits c remote) w₁ in
      let (marked, w₃) = nvs.put (put_ready true) w₂ in
      if cleared then (if stored then (marked, w₃) else (false, w₂)) else (false, w₁)

  -- What a failure leaves: the owner's namespace is cleared, if it can be.
  unfoldable pub roll_back : W → W
  roll_back w =
      let (opened, w₁) = nvs.open_owner false w in
      if opened then nvs.close_owner (nvs.clear w₁).1 else w₁

  unfoldable pub save_owner :
      Candidate → Bool → DeviceProvisioning → W → Bool × DeviceProvisioning × W
  save_owner c remote d w =
      let (opened, w₁) = nvs.open_owner false w in
      let (saved, w₂) = write_owner c remote w₁ in
      let w₃ = nvs.close_owner w₂ in
      if not opened
      then (false, failed "owner credential store unavailable" d, w₁)
      else if saved
      then (true, failed "" d, w₃)
      else (
        false,
        if len d.last_error == 0
            then failed "failed to persist complete provisioning record" d
            else d,
        roll_back w₃,
      )

  -- Without a callback, nothing is prepared.
  abbrev pub prepare_owner_change : Option (W → Bool × W) → W → Bool × W
  prepare_owner_change none w = (false, w)
  prepare_owner_change (some call) w = call w

  -- From the factory record on. `prepare` is the callback that ends the old owner's credentials.
  unfoldable pub change_owner :
      Option (W → Bool × W)
      → Candidate
      → Bool
      → DeviceProvisioning
      → W
      → Bool × DeviceProvisioning × W
  change_owner prepare c remote d w =
      let (opened, w₁) = nvs.open_factory false w in
      let existing = or_else (nvs.hw_rev w₁) [] in
      let (prepared, w₂) = prepare_owner_change prepare w₁ in
      let (revised, w₃) = nvs.put_hw_rev c.hardware_revision w₂ in
      if not opened
      then (false, failed "factory metadata store unavailable" d, w₁)
      else if not (length existing == 0) && not (bytes_eq existing c.hardware_revision)
      then (false, failed "hardware_revision conflicts with factory record" d, nvs.close_factory w₁)
      else if not prepared
      then (
        false,
        failed "owner transition incomplete; networking disabled" d,
        nvs.close_factory w₂,
      )
      else if length existing == 0
      then (if revised then save_owner c remote d (nvs.close_factory w₃) else (
        false,
        failed "failed to persist factory hardware revision" d,
        nvs.close_factory w₃,
      ))
      else save_owner c remote d (nvs.close_factory w₂)

  unfoldable pub accept_candidate :
      Option (W → Bool × W)
      → Candidate
      → Bool
      → DeviceProvisioning
      → W
      → Bool × DeviceProvisioning × W
  accept_candidate prepare c remote d w = elim (validate c d.device_id) [
    | some reason ↦ (false, failed reason d, w)
    | none ↦ change_owner prepare c remote d w
  ]

  -- The tests on the command, before anything is changed.
  unfoldable pub accept_command :
      Option (W → Bool × W) → Command → DeviceProvisioning → W → Bool × DeviceProvisioning × W
  accept_command prepare command d w = elim (protocol_of command.protocol_text) [
    | none ↦ (false, failed "upload protocol must be mqtt or https" d, w)
    | some protocol ↦
        let c : Candidate = record (command.candidate) { protocol = protocol } in
        elim command.remote_management [
          | absent ↦ accept_candidate prepare c false d w
          | wrong_type ↦ (false, failed "remote_management_enabled must be boolean" d, w)
          | given remote ↦ accept_candidate prepare c remote d w
        ]
  ]

  unfoldable pub accept_serial_command :
      (List ℕ → Option Command)
      → Option (W → Bool × W)
      → List ℕ
      → DeviceProvisioning
      → W
      → Bool × DeviceProvisioning × W
  accept_serial_command parse prepare line d w =
      if not (bytes_eq (take 16 line) command_prefix)
      then (false, failed "unknown provisioning command" d, w)
      else elim (parse (drop 16 line)) [
        | none ↦ (false, failed "malformed provisioning JSON" d, w)
        | some command ↦ accept_command prepare command d w
      ]

  unfoldable pub factory_reset_owner_credentials :
      DeviceProvisioning → W → Bool × DeviceProvisioning × W
  factory_reset_owner_credentials d w =
      let (opened, w₁) = nvs.open_owner false w in
      let (cleared, w₂) = nvs.clear w₁ in
      let w₃ = nvs.close_owner w₂ in
      if not opened
      then (false, failed "owner credential store unavailable" d, w₁)
      else if cleared
      then (true, d, w₃)
      else (false, failed "failed to clear owner credentials" d, w₃)
