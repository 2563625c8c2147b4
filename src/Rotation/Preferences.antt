-- ===== src/Rotation/Preferences.antt =====
-- The `Preferences` library of the ESP32 core as logger/firmware/src/AppBearerRotation.cpp uses it,
-- on the namespace "apexi_auth". It is not part of the repository: a record of operations over a
-- world, with the documented behaviour of a key-value store as laws.
use devices.Prelude.{ℕ, Bool, true, false, List, [], ◌≡◌}

-- What the getters return, a key that is missing read as the default that the code passes.
pub record Held : Type 0 where
  pub active : List ℕ
  pub applied_ver : ℕ
  pub applied_nonce : List ℕ
  pub cand_ready : Bool
  pub cand_ver : ℕ
  pub cand_nonce : List ℕ
  pub candidate : List ℕ
  pub overlap_at : List ℕ
  pub phase : ℕ

-- The calls that change a key.
pub data Edit : Type 0 where
  put_active put_applied_nonce put_cand_nonce put_candidate put_overlap_at : List ℕ → Edit
  put_applied_ver put_cand_ver put_phase : ℕ → Edit
  put_cand_ready : Bool → Edit
  remove_cand_ready remove_candidate remove_cand_ver remove_cand_nonce remove_overlap_at
        remove_phase :
      Edit

abbrev pub edited : Edit → Held → Held
edited (put_active s) v = record v { active = s }
edited (put_applied_ver n) v = record v { applied_ver = n }
edited (put_applied_nonce s) v = record v { applied_nonce = s }
edited (put_cand_ready b) v = record v { cand_ready = b }
edited (put_cand_ver n) v = record v { cand_ver = n }
edited (put_cand_nonce s) v = record v { cand_nonce = s }
edited (put_candidate s) v = record v { candidate = s }
edited (put_overlap_at s) v = record v { overlap_at = s }
edited (put_phase n) v = record v { phase = n }
edited remove_cand_ready v = record v { cand_ready = false }
edited remove_candidate v = record v { candidate = [] }
edited remove_cand_ver v = record v { cand_ver = 0 }
edited remove_cand_nonce v = record v { cand_nonce = [] }
edited remove_overlap_at v = record v { overlap_at = [] }
edited remove_phase v = record v { phase = 0 }

-- `open` is `begin`, told whether to only read; `edit` is whether the call reported success.
pub record Preferences (W : Type 0) : Type 0 where
  pub open_store : Bool → W → Bool × W
  pub held : W → Held
  pub edit : Edit → W → Bool × W
  pub clear : W → Bool × W
  pub close_store : W → W

pub record IsPreferences {W : Type 0} (nvs : Preferences W) : Type 0 where
  pub open_keeps : (b : Bool) (w : W) → nvs.held (nvs.open_store b w).1 ≡ nvs.held w
  pub close_keeps : (w : W) → nvs.held (nvs.close_store w) ≡ nvs.held w
  pub edit_done :
      (e : Edit) (w : W)
      → (nvs.edit e w).0 ≡ true
      → nvs.held (nvs.edit e w).1 ≡ edited e (nvs.held w)
  pub edit_refused :
      (e : Edit) (w : W) → (nvs.edit e w).0 ≡ false → nvs.held (nvs.edit e w).1 ≡ nvs.held w
