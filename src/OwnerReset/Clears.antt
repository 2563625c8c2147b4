-- ===== src/OwnerReset/Clears.antt =====
-- The fold over the clear callbacks of shared/libraries/OwnerReset.h, against its plain reading.
use devices.Prelude.{Bool, true, ◌&&◌, List, [], ◌∷◌, ◌≡◌, refl, arith}
use devices.OwnerReset.{Clear, clear_all}

module _ {W : Type 0} where
  -- The world after every callback has been called, in order.
  abbrev pub after_each : List (Clear W) → W → W
  after_each [] w = w
  after_each (clear ∷ rest) w = after_each rest (clear w).1

  -- Whether every callback reported success, each in the world that the ones before it left.
  abbrev pub each_succeeds : List (Clear W) → W → Bool
  each_succeeds [] w = true
  each_succeeds (clear ∷ rest) w = (clear w).0 && each_succeeds rest (clear w).1

  pub clear_all-world :
      (clears : List (Clear W)) (b : Bool) (w : W) → (clear_all clears b w).1 ≡ after_each clears w
  unfolding clear_all
  clear_all-world [] b w = refl
  clear_all-world (clear ∷ rest) b w = clear_all-world rest ((clear w).0 && b) (clear w).1

  pub clear_all-succeeds :
      (clears : List (Clear W)) (b : Bool) (w : W)
      → (clear_all clears b w).0 ≡ (each_succeeds clears w && b)
  unfolding clear_all
  clear_all-succeeds [] b w = refl
  clear_all-succeeds (clear ∷ rest) b w =
      ground (arith, clear_all-succeeds rest ((clear w).0 && b) (clear w).1)
