-- ===== src/Provisioning/Owned.antt =====
-- The serial command of logger/firmware/src/DeviceProvisioning.cpp and the boot that follows it.
use devices.Prelude.{ℕ, ◌≡◌, ◌⊎◌, Bool, true, false, Option, some, none, List, take, drop, bytes_eq}
use devices.Provisioning.Policy.{Candidate, validate}
use devices.Provisioning.Owner.{OwnerStore, IsOwnerStore}
use devices.Provisioning.Device.{DeviceProvisioning, begin}
use devices.Provisioning.Change.{
  Command, command_prefix, protocol_of, absent, wrong_type, given, Flag,
}
use devices.Provisioning.Settings.{owned}

-- The value of the optional flag `remote_management_enabled`, where it has one.
abbrev pub flag_of : Flag → Option Bool
flag_of absent = some false
flag_of wrong_type = none
flag_of (given b) = some b

module _ {W : Type 0} (nvs : OwnerStore W) (is : IsOwnerStore nvs) where
  -- How a change of owner ends, where it was asked for as told.
  abbrev pub Ended : (Candidate → Bool → Type 0) → DeviceProvisioning → W → Bool → W → Type 0
  Ended Asked d w done w' =
      ((done ≡ true)
        × (c : Candidate) × (remote : Bool) × Asked c remote
        × (validate c d.device_id ≡ none)
        × (nvs.held w' ≡ owned c remote))
      ⊎ (done ≡ false)
        × ((nvs.held w' ≡ nvs.held w)
            ⊎ ((later : DeviceProvisioning) → (begin nvs later w').0 ≡ false))

  -- The line is a command, and its JSON text asks for this candidate and this flag.
  abbrev pub Requested : (List ℕ → Option Command) → List ℕ → Candidate → Bool → Type 0
  Requested parse line c remote =
      (bytes_eq (take 16 line) command_prefix ≡ true)
      × (command : Command) × (parse (drop 16 line) ≡ some command)
      × (protocol_of command.protocol_text ≡ some c.protocol)
      × (c ≡ record (command.candidate) { protocol = c.protocol })
      × (flag_of command.remote_management ≡ some remote)
