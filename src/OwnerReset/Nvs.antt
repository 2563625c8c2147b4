-- ===== src/OwnerReset/Nvs.antt =====
-- shared/libraries/OwnerResetNvs.h: the owner-reset latch in non-volatile storage, and that it
-- keeps the contract of the coordinator. The `nvs_*` calls are the SDK's: a record of operations
-- over a world, with their documented behaviour as laws about the one cell they address here.
use devices.Prelude.{
  ℕ, Bool, true, false, Option, some, none, ◌≡◌, ◌⊎◌, arith, leb, ◌==◌, if◌then◌else◌,
}
use devices.OwnerReset.{Store}
use devices.OwnerReset.Latch.{IsLatch}

pub data EspErr : Type 0 where
  esp_ok esp_err_nvs_not_found esp_err_other : EspErr

abbrev pub is_ok : EspErr → Bool
is_ok esp_ok = true
is_ok _ = false

pub data OpenMode : Type 0 where
  nvs_readonly nvs_readwrite : OpenMode

pub record Nvs (W : Type 0) : Type 0 where
  pub nvs_open : OpenMode → W → EspErr × W
  pub nvs_get_u8 : W → EspErr × ℕ × W
  pub nvs_set_u8 : ℕ → W → EspErr × W
  pub nvs_commit : W → EspErr × W
  pub nvs_close : W → W

module _ {W : Type 0} (nvs : Nvs W) where
  unfoldable pub get_pending : W → Option Bool × W
  get_pending w =
      let (opened, w₁) = nvs.nvs_open nvs_readonly w in
      let (read, value, w₂) = nvs.nvs_get_u8 w₁ in
      let w₃ = nvs.nvs_close w₂ in
      elim opened [
        | esp_err_nvs_not_found ↦ (some false, w₁)
        | esp_err_other ↦ (none, w₁)
        | esp_ok ↦ elim read [
          | esp_err_nvs_not_found ↦ (some false, w₃)
          | esp_err_other ↦ (none, w₃)
          | esp_ok ↦ (if leb value 1 then some (value == 1) else none, w₃)
        ]
      ]

  unfoldable pub mark_pending : Bool → W → Bool × W
  mark_pending pending w =
      let (opened, w₁) = nvs.nvs_open nvs_readwrite w in
      let (written, w₂) = nvs.nvs_set_u8 (if pending then 1 else 0) w₁ in
      let (committed, w₃) = nvs.nvs_commit w₂ in
      if is_ok opened
      then (if is_ok written
          then (is_ok committed, nvs.nvs_close w₃)
          else (false, nvs.nvs_close w₂))
      else (false, w₁)

  pub store : Store W
  store = record { get_pending = get_pending; mark_pending = mark_pending }

-- What the storage durably holds under "owner_reset"/"pending".
pub record IsNvs {W : Type 0} (nvs : Nvs W) (cell : W → Option ℕ) : Type 0 where
  pub open_keeps : (mode : OpenMode) (w : W) → cell (nvs.nvs_open mode w).1 ≡ cell w
  pub open_missing :
      (w : W) → (nvs.nvs_open nvs_readonly w).0 ≡ esp_err_nvs_not_found → cell w ≡ none
  pub get_keeps : (w : W) → cell (nvs.nvs_get_u8 w).2 ≡ cell w
  pub get_found : (w : W) → (nvs.nvs_get_u8 w).0 ≡ esp_ok → cell w ≡ some (nvs.nvs_get_u8 w).1
  pub get_missing : (w : W) → (nvs.nvs_get_u8 w).0 ≡ esp_err_nvs_not_found → cell w ≡ none
  pub commit_set :
      (v : ℕ) (w : W)
      → (nvs.nvs_set_u8 v w).0 ≡ esp_ok
      → (nvs.nvs_commit (nvs.nvs_set_u8 v w).1).0 ≡ esp_ok
      → cell (nvs.nvs_commit (nvs.nvs_set_u8 v w).1).1 ≡ some v
  pub close_keeps : (w : W) → cell (nvs.nvs_close w) ≡ cell w

-- The latch that a cell stands for: absence is an unset latch.
abbrev pub latch_of : {W : Type 0} → (W → Option ℕ) → W → Bool
latch_of cell w = elim (cell w) [ some v ↦ v == 1 | none ↦ false ]

-- What a cell means: absence an unset latch, 0 and 1 themselves, and any other value nothing.
abbrev pub meaning : Option ℕ → Option Bool
meaning none = some false
meaning (some v) = if leb v 1 then some (v == 1) else none

module _ {W : Type 0} (nvs : Nvs W) (cell : W → Option ℕ) (is_nvs : IsNvs nvs cell) where
  open is_nvs use {
    open_keeps, open_missing, get_keeps, get_found, get_missing, commit_set, close_keeps,
  }

  get_pending-reads : (w : W) (b : Bool) → (get_pending nvs w).0 ≡ some b → b ≡ latch_of cell w
  unfolding get_pending
  get_pending-reads w b h =
      let w₁ = (nvs.nvs_open nvs_readonly w).1 in
      ground (arith, open_keeps nvs_readonly w, open_missing w, get_found w₁, get_missing w₁)

  get_pending-keeps : (w : W) → latch_of cell (get_pending nvs w).1 ≡ latch_of cell w
  unfolding get_pending
  get_pending-keeps w =
      let w₁ = (nvs.nvs_open nvs_readonly w).1 in
      ground (arith, open_keeps nvs_readonly w, get_keeps w₁, close_keeps (nvs.nvs_get_u8 w₁).2)

  mark_pending-marks :
      (b : Bool) (w : W)
      → (mark_pending nvs b w).0 ≡ true
      → latch_of cell (mark_pending nvs b w).1 ≡ b
  unfolding mark_pending
  mark_pending-marks b w h =
      let v : ℕ = if b then 1 else 0 in
      let w₁ = (nvs.nvs_open nvs_readwrite w).1 in
      ground (arith, commit_set v w₁, close_keeps (nvs.nvs_commit (nvs.nvs_set_u8 v w₁).1).1)

  store-IsLatch : IsLatch (store nvs) (latch_of cell)
  unfolding store
  store-IsLatch = record {
    reads = get_pending-reads;
    read_keeps = get_pending-keeps;
    marks = mark_pending-marks;
  }

  get_pending-honest :
      (w : W) → ((get_pending nvs w).0 ≡ none) ⊎ ((get_pending nvs w).0 ≡ meaning (cell w))
  unfolding get_pending
  get_pending-honest w =
      let w₁ = (nvs.nvs_open nvs_readonly w).1 in
      ground (arith, open_keeps nvs_readonly w, open_missing w, get_found w₁, get_missing w₁)

  mark_pending-cell :
      (b : Bool) (w : W)
      → ((mark_pending nvs b w).0 ≡ false)
        ⊎ (cell (mark_pending nvs b w).1 ≡ some (if b then 1 else 0))
  unfolding mark_pending
  mark_pending-cell b w =
      let v : ℕ = if b then 1 else 0 in
      let w₁ = (nvs.nvs_open nvs_readwrite w).1 in
      ground (arith, commit_set v w₁, close_keeps (nvs.nvs_commit (nvs.nvs_set_u8 v w₁).1).1)

  -- Over storage that behaves as the SDK documents: a read fails, or gives what the cell means, and a
  -- cell with neither 0 nor 1 in it means nothing, so that its reading fails; a mark fails, or the cell
  -- then holds the mark. Hence the owner-reset store is a durable latch, which reading leaves as it is.
  pub store_is_durable :
      (b : Bool) (w : W)
      → (((get_pending nvs w).0 ≡ none) ⊎ ((get_pending nvs w).0 ≡ meaning (cell w)))
        × (((mark_pending nvs b w).0 ≡ false)
            ⊎ (cell (mark_pending nvs b w).1 ≡ some (if b then 1 else 0)))
        × IsLatch (store nvs) (latch_of cell)
  store_is_durable b w = (get_pending-honest w, mark_pending-cell b w, store-IsLatch)
