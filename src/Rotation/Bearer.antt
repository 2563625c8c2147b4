-- ===== src/Rotation/Bearer.antt =====
-- `AppBearerRotation` of logger/firmware/include/AppBearerRotation.h and
-- logger/firmware/src/AppBearerRotation.cpp, as it is built for the ESP32. Strings are their bytes.
use Prim.Native.String.{String}
use devices.Prelude.{
  ℕ, zero, suc, Bool, true, false, Option, some, none, List, [], ◌∷◌, length, ◌&&◌, ◌||◌, not, ltb,
  leb, ◌==◌, if◌then◌else◌, bytes_eq,
}
use devices.Rotation.Preferences.{
  Held, Edit, Preferences, put_active, put_applied_nonce, put_cand_nonce, put_candidate,
  put_overlap_at, put_applied_ver, put_cand_ver, put_phase, put_cand_ready, remove_cand_ready,
  remove_candidate, remove_cand_ver, remove_cand_nonce, remove_overlap_at, remove_phase,
}

pub data StageResult : Type 0 where
  result_staged already_pending already_applied rejected storage_fault : StageResult

pub data Phase : Type 0 where
  no_phase staged acknowledged : Phase

abbrev pub phase_byte : Phase → ℕ
phase_byte no_phase = 0
phase_byte staged = 1
phase_byte acknowledged = 2

-- The phases that a stored candidate may be in.
abbrev pub candidate_phase : ℕ → Option Phase
candidate_phase (suc zero) = some staged
candidate_phase (suc (suc zero)) = some acknowledged
candidate_phase _ = none

pub record AppBearerRotation : Type 0 where
  pub active_bearer : List ℕ
  pub candidate_bearer : List ℕ
  pub nonce : List ℕ
  pub overlap_expires_at : List ℕ
  pub applied_nonce : List ℕ
  pub last_error : String
  pub version : ℕ
  pub applied_version : ℕ
  pub phase : Phase

abbrev pub is_empty : List ℕ → Bool
is_empty [] = true
is_empty (c ∷ s) = false

abbrev secret_bytes : List ℕ → Bool
secret_bytes [] = true
secret_bytes (c ∷ s) = if ltb c 33 || (c == 127) then false else secret_bytes s

abbrev pub valid_secret : List ℕ → ℕ → ℕ → Bool
valid_secret s maximum minimum =
    if ltb (length s) minimum || ltb maximum (length s) then false else secret_bytes s

abbrev pub is_no_phase : Phase → Bool
is_no_phase no_phase = true
is_no_phase _ = false

abbrev pub is_acknowledged : Phase → Bool
is_acknowledged acknowledged = true
is_acknowledged _ = false

abbrev pub has_candidate : AppBearerRotation → Bool
has_candidate r = not (is_no_phase r.phase) && not (is_empty r.candidate_bearer)

abbrev pub clear_candidate_memory : AppBearerRotation → AppBearerRotation
clear_candidate_memory r = record r {
  candidate_bearer = [];
  nonce = [];
  overlap_expires_at = [];
  version = 0;
  phase = no_phase;
}

-- Whether a stored candidate is complete and well formed.
unfoldable pub valid_record : Held → Bool
valid_record v =
    not (v.cand_ver == 0)
    && (valid_secret v.cand_nonce 96 8
        && (valid_secret v.candidate 511 16
            && (valid_secret v.overlap_at 40 20
                && elim (candidate_phase v.phase) [ some p ↦ true | none ↦ false ])))

abbrev pub with_candidate : Held → AppBearerRotation → AppBearerRotation
with_candidate v r = record r {
  version = v.cand_ver;
  nonce = v.cand_nonce;
  candidate_bearer = v.candidate;
  overlap_expires_at = v.overlap_at;
  phase = elim (candidate_phase v.phase) [ some p ↦ p | none ↦ no_phase ];
}

abbrev pub fault : String → AppBearerRotation → AppBearerRotation
fault error r = record r { last_error = error }

module _ {W : Type 0} (nvs : Preferences W) where
  -- `saved = saved && ...`, from one call to the next.
  unfoldable pub edit_all : List Edit → W → Bool × W
  edit_all [] w = (true, w)
  edit_all (e ∷ es) w =
      let (saved, w₁) = nvs.edit e w in
      let rest = edit_all es w₁ in if saved then rest else (false, w₁)

  -- The calls whose results are dropped.
  unfoldable pub edit_each : List Edit → W → W
  edit_each [] w = w
  edit_each (e ∷ es) w = edit_each es (nvs.edit e w).1

  abbrev pub candidate_removal : List Edit
  candidate_removal =
      remove_cand_ready ∷ remove_candidate ∷ remove_cand_ver ∷ remove_cand_nonce ∷ remove_overlap_at
      ∷ remove_phase ∷ []

  unfoldable pub clear_candidate_persistent : W → W
  clear_candidate_persistent w =
      let (opened, w₁) = nvs.open_store false w in
      if opened then nvs.close_store (edit_each candidate_removal w₁) else w₁

  abbrev pub candidate_edits : AppBearerRotation → List Edit
  candidate_edits r =
      put_cand_ready false
      ∷ put_cand_ver r.version
      ∷ put_cand_nonce r.nonce
      ∷ put_candidate r.candidate_bearer
      ∷ put_overlap_at r.overlap_expires_at
      ∷ put_phase (phase_byte r.phase)
      ∷ put_cand_ready true
      ∷ []

  unfoldable pub persist_candidate : AppBearerRotation → W → Bool × AppBearerRotation × W
  persist_candidate r w =
      let (opened, w₁) = nvs.open_store false w in
      let (saved, w₂) = edit_all (candidate_edits r) w₁ in
      if not opened
      then (false, fault "credential rotation store unavailable" r, w₁)
      else if saved
      then (true, r, nvs.close_store w₂)
      else (false, fault "credential rotation persistence failed" r, nvs.close_store w₂)

  -- `none` is a null pointer.
  unfoldable pub begin : Option (List ℕ) → AppBearerRotation → W → Bool × AppBearerRotation × W
  begin provisioned r₀ w =
      let base : List ℕ = elim provisioned [ some s ↦ s | none ↦ [] ] in
      let r : AppBearerRotation = record (clear_candidate_memory r₀) {
        active_bearer = base;
        applied_version = 0;
        applied_nonce = [];
        last_error = "";
      } in
      let (opened, w₁) = nvs.open_store true w in
      let v : Held = nvs.held w₁ in
      let r₁ : AppBearerRotation = record r {
        active_bearer = if is_empty v.active then base else v.active;
        applied_version = v.applied_ver;
        applied_nonce = v.applied_nonce;
      } in
      let w₂ : W = nvs.close_store w₁ in
      if not opened
      then (false, fault "credential rotation store unavailable" r, w₁)
      else if not v.cand_ready
      then (not (is_empty r₁.active_bearer), r₁, w₂)
      else if valid_record v
      then (not (is_empty r₁.active_bearer), with_candidate v r₁, w₂)
      else (false, fault "credential rotation record is invalid" r₁, clear_candidate_persistent w₂)

  unfoldable pub stage :
      ℕ → List ℕ → List ℕ → List ℕ → AppBearerRotation → W → StageResult × AppBearerRotation × W
  stage version nonce token overlap r w =
      let r₁ : AppBearerRotation = record r {
        version = version;
        nonce = nonce;
        candidate_bearer = token;
        overlap_expires_at = overlap;
        phase = staged;
      } in
      let (persisted, r₂, w₁) = persist_candidate r₁ w in
      if (version == 0)
        || (not (valid_secret nonce 96 8)
            || (not (valid_secret token 511 16) || not (valid_secret overlap 40 20)))
      then (rejected, fault "invalid credential rotation request" r, w)
      else if version == r.applied_version
      then (if bytes_eq nonce r.applied_nonce && bytes_eq token r.active_bearer
          then (already_applied, r, w)
          else (rejected, fault "credential rotation version was reused" r, w))
      else if has_candidate r
      then (if (version == r.version)
            && (bytes_eq nonce r.nonce && bytes_eq token r.candidate_bearer)
          then (already_pending, r, w)
          else if leb version r.version
          then (rejected, fault "credential rotation is stale" r, w)
          else (rejected, fault "credential rotation already pending" r, w))
      else if ltb version r.applied_version
      then (rejected, fault "credential rotation is stale" r, w)
      else if bytes_eq token r.active_bearer
      then (rejected, fault "credential rotation token is already active" r, w)
      else if persisted
      then (result_staged, record r₂ { last_error = "" }, w₁)
      else (storage_fault, clear_candidate_memory r₂, w₁)

  unfoldable pub mark_acknowledged : AppBearerRotation → W → Bool × AppBearerRotation × W
  mark_acknowledged r w =
      let (opened, w₁) = nvs.open_store false w in
      let (saved, w₂) = nvs.edit (put_phase (phase_byte acknowledged)) w₁ in
      let w₃ : W = nvs.close_store w₂ in
      if not (has_candidate r)
      then (false, r, w)
      else if not opened
      then (false, fault "credential rotation store unavailable" r, w₁)
      else if not saved
      then (false, fault "credential rotation acknowledgement persistence failed" r, w₃)
      else (true, record r { phase = acknowledged; last_error = "" }, w₃)

  abbrev pub promotion : AppBearerRotation → List Edit
  promotion r =
      put_active r.candidate_bearer
      ∷ put_applied_ver r.version
      ∷ put_applied_nonce r.nonce
      ∷ remove_cand_ready
      ∷ []

  abbrev pub leftovers : List Edit
  leftovers =
      remove_candidate ∷ remove_cand_ver ∷ remove_cand_nonce ∷ remove_overlap_at ∷ remove_phase ∷ []

  unfoldable pub promote_candidate : AppBearerRotation → W → Bool × AppBearerRotation × W
  promote_candidate r w =
      let (opened, w₁) = nvs.open_store false w in
      let (saved, w₂) = edit_all (promotion r) w₁ in
      let w₃ : W = nvs.close_store (edit_each leftovers w₂) in
      if not (has_candidate r) || not (is_acknowledged r.phase)
      then (false, r, w)
      else if not opened
      then (false, fault "credential rotation store unavailable" r, w₁)
      else if not saved
      then (false, fault "credential rotation promotion failed" r, nvs.close_store w₂)
      else (
        true,
        record (clear_candidate_memory r) {
          active_bearer = r.candidate_bearer;
          applied_version = r.version;
          applied_nonce = r.nonce;
          last_error = "";
        },
        w₃,
      )

  unfoldable pub abandon_candidate : AppBearerRotation → W → AppBearerRotation × W
  abandon_candidate r w = (clear_candidate_memory r, clear_candidate_persistent w)
