-- ===== src/OwnerReset.antt =====
-- shared/libraries/OwnerReset.h: the coordinator of the durable owner reset. The store and the
-- clear callbacks are template parameters there and parameters here, over a world `W` that they
-- read and change.
pub mod Nvs
pub mod Clears
pub mod Boot
pub mod Latch
mod Tests
use devices.Prelude.{Bool, true, false, ◌&&◌, Option, some, List, [], ◌∷◌, if◌then◌else◌}

pub data Result : Type 0 where
  unchecked no_reset_needed completed pending storage_error : Result

pub record Coordinator : Type 0 where
  pub result : Result
  pub requested : Bool

-- A coordinator as a boot constructs it.
abbrev pub fresh : Coordinator
fresh = record { result = unchecked; requested = false }

abbrev pub network_allowed : Coordinator → Bool
network_allowed c = elim c.result [ no_reset_needed ↦ true | completed ↦ true | _ ↦ false ]

-- The store contract. `get_pending` gives `none` where the source's returns false.
pub record Store (W : Type 0) : Type 0 where
  pub get_pending : W → Option Bool × W
  pub mark_pending : Bool → W → Bool × W

abbrev pub Clear : Type 0 → Type 0
Clear W = W → Bool × W

module _ {W : Type 0} where
  -- The fold over the callbacks: each is called, and the results are joined.
  unfoldable pub clear_all : List (Clear W) → Bool → W → Bool × W
  clear_all [] cleared w = (cleared, w)
  clear_all (clear ∷ rest) cleared w =
      let (done, w') = clear w in clear_all rest (done && cleared) w'

module _ {W : Type 0} (store : Store W) (clears : List (Clear W)) where
  unfoldable pub finish : Coordinator → W → Coordinator × W
  finish c w =
      let (cleared, w₁) = clear_all clears true w in
      let (marked, w₂) = store.mark_pending false w₁ in
      let (read, w₃) = store.get_pending w₂ in
      if cleared
      then (if marked
          then elim read [
            | some false ↦ (record { result = completed; requested = false }, w₃)
            | _ ↦ (record c { result = storage_error }, w₃)
          ]
          else (record c { result = storage_error }, w₂))
      else (record c { result = pending }, w₁)

  unfoldable pub request : Coordinator → W → Coordinator × W
  request c w =
      let (marked, w₁) = store.mark_pending true w in
      let (read, w₂) = store.get_pending w₁ in
      if marked
      then elim read [
        | some true ↦ finish (record { result = pending; requested = true }) w₂
        | _ ↦ (record { result = storage_error; requested = true }, w₂)
      ]
      else (record { result = storage_error; requested = true }, w₁)

  unfoldable pub resume : Coordinator → W → Coordinator × W
  resume c w =
      let (read, w₁) = store.get_pending w in
      elim read [
        | some false ↦
            if c.requested then request c w₁ else (record c { result = no_reset_needed }, w₁)
        | some true ↦ finish c w₁
        | _ ↦ (record c { result = storage_error }, w₁)
      ]
