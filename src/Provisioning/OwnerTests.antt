-- ===== src/Provisioning/OwnerTests.antt =====
-- A change of owner over a store in memory.
use devices.Prelude.{ℕ, ◌≡◌, refl, Bool, true, false, Option, some, none, List, [], ◌∷◌}
use devices.Provisioning.Policy.{https, is_canonical_device_id, validate}
use devices.Provisioning.Owner.{Held, empty_held, edited, OwnerStore}
use devices.Provisioning.Device.{DeviceProvisioning}
use devices.Provisioning.Change.{
  Command, command_prefix, absent, owner_edits, put_all, write_owner, save_owner, change_owner,
  accept_candidate, accept_command, accept_serial_command,
}
use devices.Provisioning.Tests.{id, candidate}

abbrev memory : OwnerStore Held
memory = record {
  open_owner = λ b w. (true, w);
  held = λ w. w;
  put = λ e w. (true, edited e w);
  clear = λ w. (true, empty_held);
  close_owner = λ w. w;
  open_factory = λ b w. (true, w);
  hw_rev = λ w. none;
  put_hw_rev = λ v w. (true, w);
  close_factory = λ w. w;
}

abbrev parse : List ℕ → Option Command
parse text = some (record {
  candidate = candidate;
  protocol_text = 104 ∷ 116 ∷ 116 ∷ 112 ∷ 115 ∷ [];
  remote_management = absent;
})

abbrev prepare : Option (Held → Bool × Held)
prepare = some (λ w. (true, empty_held))

abbrev device : DeviceProvisioning
device = record {
  device_id = id;
  friendly_name = id;
  wifi_ssid = [];
  wifi_password = [];
  ota_password = [];
  upload_host = [];
  upload_port = 0;
  protocol = https;
  mqtt_username = [];
  mqtt_password = [];
  cloudflare_client_id = [];
  cloudflare_client_secret = [];
  app_device_token = [];
  app_token_subject = [];
  hardware_revision = [];
  provisioned_at = [];
  status = "unprovisioned";
  last_error = "";
  provisioned = false;
  remote_management_enabled = false;
}

-- The command is accepted, and the boot that follows knows the owner.
accepted : (accept_serial_command memory parse prepare command_prefix device empty_held).0 ≡ true
unfolding accept_serial_command accept_command accept_candidate change_owner save_owner write_owner
    put_all owner_edits validate is_canonical_device_id
accepted = refl
