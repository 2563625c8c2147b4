-- ===== src/StoreForward/Begin.antt =====
-- `begin` of logger/firmware/src/StoreForwardQueue.cpp, over the flash driver that mounts and formats
-- the filesystem (LittleFS and the partition table, not part of this repository).
use Prim.Native.Nat.{min}
use Prim.Native.String.{String}
use devices.Prelude.{
  ℕ, zero, suc, ◌+◌, ◌-◌, ◌*◌, ◌/◌, Bool, true, false, Option, some, none, List, ◌||◌, not, leb,
  ltb, if◌then◌else◌,
}
use devices.Prelude.Words.{u32}
use devices.StoreForward.Fs.{
  Fs, Segment, seg_zero, seg_one, segment_path, quarantine_path, metadata_path,
  metadata_temporary_path, segment_repair_path, FilePath,
}
use devices.StoreForward.Format.{Metadata, empty_metadata, header_bytes}
use devices.StoreForward.Types.{Queue}
use devices.StoreForward.Queue.{fail}
use devices.StoreForward.Metadata.{load_metadata, save_metadata}
use devices.StoreForward.Scan.{scan_segment}
use devices.StoreForward.Archive.{rejected_slots, rejected_slot_present}
use devices.StoreForward.Blank.{verify}

pub record Flash (W P : Type 0) : Type 0 where
  -- A data partition of the filesystem's subtype with this label.
  pub find : String → Option P
  pub mount : P → W → Bool × W
  pub format : W → Bool × W
  pub partition_size : P → ℕ
  -- `esp_partition_read` at an offset, of so many bytes; `none` is an error.
  pub partition_read : P → W → ℕ → ℕ → Option (List ℕ)
  pub total_bytes : W → ℕ

abbrev pub filesystem_reserve_bytes : ℕ
filesystem_reserve_bytes = 512 * 1024

module _ {W R : Type 0} (fs : Fs W R) where
  abbrev pub remove_if_exists : FilePath → W → W
  remove_if_exists p w = if fs.exists p w then fs.remove p w else w

  -- A quarantine file that is not empty counts as one corruption event.
  unfoldable pub count_quarantine : Segment → Metadata → W → Metadata × W
  count_quarantine segment m w =
      let (opened, w₁) = fs.open_read (quarantine_path segment) w in
      elim opened [
        | none ↦ (m, w₁)
        | some file ↦ (
          if ltb 0 (fs.size file)
              then record m {
                corruption_events = u32 (m.corruption_events + 1);
                quarantined_bytes = u32 (m.quarantined_bytes + fs.size file);
              }
              else m,
          w₁,
        )
      ]

  -- The metadata that `begin` starts from when none could be loaded.
  unfoldable pub fresh_metadata : W → Metadata × W
  fresh_metadata w =
      let unknown =
        fs.exists metadata_path w
        || (fs.exists (segment_path seg_zero) w
            || (fs.exists (segment_path seg_one) w
                || (fs.exists (quarantine_path seg_zero) w
                    || fs.exists (quarantine_path seg_one) w))) in
      let m : Metadata = record empty_metadata { reserved = if unknown then 1 else 0 } in
      let (m₁, w₁) = count_quarantine seg_zero m w in count_quarantine seg_one m₁ w₁

  unfoldable pub initial_metadata : W → Metadata × W
  initial_metadata w =
      let (loaded, w₁) = load_metadata fs w in
      elim loaded [ some m ↦ (m, w₁) | none ↦ fresh_metadata w₁ ]

  -- The slots of the archive that are in use, from a slot on.
  unfoldable pub count_rejected : ℕ → ℕ → Queue → W → ℕ
  count_rejected zero slot q w = 0
  count_rejected (suc n) slot q w =
      let later = count_rejected n (slot + 1) q w in
      if rejected_slot_present fs slot q w then suc later else later

  -- `begin` from the scan of the segments on.
  unfoldable pub scan_and_save : Queue → W → Bool × Queue × W
  scan_and_save q w =
      let (scanned, q₁, w₁) = scan_segment fs seg_zero q w in
      let (scanned', q₂, w₂) = scan_segment fs seg_one q₁ w₁ in
      let (saved, q₃, w₃) = save_metadata fs q₂ w₂ in
      let q₄ : Queue = record q₃ { ready = true } in
      if scanned
      then (if scanned'
          then (if saved
              then (
                true,
                record q₄ { rejected_records = count_rejected rejected_slots 0 q₄ w₃ },
                w₃,
              )
              else (false, q₃, w₃))
          else (false, q₂, w₂))
      else (false, q₁, w₁)

  -- `begin` on a mounted filesystem whose capacity is known.
  unfoldable pub recover : Queue → W → Bool × Queue × W
  recover q w =
      let w₁ = remove_if_exists metadata_temporary_path w in
      let w₂ = remove_if_exists segment_repair_path w₁ in
      let (m, w₃) = initial_metadata w₂ in scan_and_save (record q { metadata = m }) w₃

  module _ {P : Type 0} (flash : Flash W P) where
    -- The partition that holds the filesystem.
    unfoldable pub find_partition : Option P
    find_partition = elim (flash.find "littlefs") [ some p ↦ some p | none ↦ flash.find "spiffs" ]

    -- Mounts the partition, or formats it first if it is erased: an error, or none.
    unfoldable pub mount_or_format : P → W → Option String × W
    mount_or_format p w =
        let (mounted, w₁) = flash.mount p w in
        let (formatted, w₂) = flash.format w₁ in
        let (mounted', w₃) = flash.mount p w₂ in
        if mounted
        then (none, w₁)
        else if verify (flash.partition_size p) (flash.partition_read p w₁)
        then (if formatted
            then (if mounted'
                then (none, w₃)
                else (some "Blank LittleFS initialization failed", w₃))
            else (some "Blank LittleFS initialization failed", w₂))
        else (some "LittleFS mount failed; nonblank or unreadable data preserved", w₁)

    -- The capacity tests, and the rest of `begin`.
    unfoldable pub size_and_recover : ℕ → Queue → W → Bool × Queue × W
    size_and_recover maximum_bytes q w =
        let total = flash.total_bytes w in
        let usable = min maximum_bytes (total - filesystem_reserve_bytes) in
        let q₁ : Queue = record q { segment_maximum_bytes = usable / 2 } in
        if leb total (filesystem_reserve_bytes + 2 * header_bytes)
        then (false, fail q "LittleFS partition too small", w)
        else if leb (usable / 2) (header_bytes + 1)
        then (false, fail q₁ "Store-and-forward capacity too small", w)
        else recover q₁ w

    unfoldable pub begin : Bool → ℕ → Queue → W → Bool × Queue × W
    begin enabled maximum_bytes q w =
        let q₁ : Queue = record q {
          enabled = enabled;
          ready = false;
          rejected_records = 0;
          last_error = "";
        } in
        if not enabled
        then (true, fail q₁ "Onboard store-and-forward disabled", w)
        else elim find_partition [
          | none ↦ (false, fail q₁ "Filesystem partition missing", w)
          | some p ↦
              let (problem, w₁) = mount_or_format p w in
              elim problem [
                | none ↦ size_and_recover maximum_bytes q₁ w₁
                | some message ↦ (false, fail q₁ message, w₁)
              ]
        ]
