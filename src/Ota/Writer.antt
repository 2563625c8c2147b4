-- ===== src/Ota/Writer.antt =====
-- `SignedOta` of logger/firmware/src/SignedOta.cpp. A call's result is the flag it returns, the
-- writer and the world after it; a chunk that is a null pointer is `none`.
use Prim.Native.String.{String}
use devices.Prelude.{
  ℕ, ◌+◌, ◌-◌, Bool, true, false, Option, some, none, List, length, ◌||◌, not, ltb, ◌==◌,
  if◌then◌else◌,
}
use devices.Ota.{Boot, SignedOtaBackend}

pub data State : Type 0 where
  idle receiving ready_to_reboot failed : State

pub record SignedOta : Type 0 where
  pub state : State
  pub expected : ℕ
  pub received : ℕ
  pub error : String

abbrev pub fresh : SignedOta
fresh = record { state = idle; expected = 0; received = 0; error = "" }

abbrev pub is_receiving : State → Bool
is_receiving receiving = true
is_receiving _ = false

abbrev pub is_ready : State → Bool
is_ready ready_to_reboot = true
is_ready _ = false

abbrev pub is_valid : Boot → Bool
is_valid Boot.valid = true
is_valid _ = false

module _ {W : Type 0} (backend : SignedOtaBackend W) where
  open backend use {
    secure_posture, boot_state, inactive_capacity, begin_inactive, write, finish_and_verify,
    select_verified, abort,
  }

  abbrev pub fail : String → SignedOta → W → Bool × SignedOta × W
  fail error s w = (
    false,
    record s { state = failed; error = error },
    if is_receiving s.state then abort w else w,
  )

  unfoldable pub begin : ℕ → SignedOta → W → Bool × SignedOta × W
  begin bytes s w =
      let (prepared, w₁) = begin_inactive bytes w in
      if is_receiving s.state || is_ready s.state
      then (false, s, w)
      else if not (secure_posture w)
      then fail "secure production posture required" s w
      else if not (is_valid (boot_state w))
      then fail "running image is not confirmed" s w
      else if (bytes == 0) || ltb (inactive_capacity w) bytes
      then fail "image exceeds inactive slot capacity" s w
      else if not prepared
      then fail "inactive slot preparation failed" s w₁
      else (true, record { state = receiving; expected = bytes; received = 0; error = "" }, w₁)

  -- A chunk that the writer refuses to hand to the backend.
  abbrev pub bad_chunk : List ℕ → SignedOta → Bool
  bad_chunk chunk s =
      (length chunk == 0)
      || (ltb 4096 (length chunk) || ltb (s.expected - s.received) (length chunk))

  unfoldable pub append : Option (List ℕ) → SignedOta → W → Bool × SignedOta × W
  append none s w =
      if is_receiving s.state then fail "invalid image chunk or length" s w else (false, s, w)
  append (some chunk) s w =
      let (written, w₁) = write chunk w in
      if not (is_receiving s.state)
      then (false, s, w)
      else if bad_chunk chunk s
      then fail "invalid image chunk or length" s w
      else if not written
      then fail "inactive slot write failed" s w₁
      else (true, record s { received = s.received + length chunk }, w₁)

  unfoldable pub finish : SignedOta → W → Bool × SignedOta × W
  finish s w =
      let (verified, w₁) = finish_and_verify w in
      let (selected, w₂) = select_verified w₁ in
      if not (is_receiving s.state)
      then (false, s, w)
      else if not (s.received == s.expected)
      then fail "incomplete image" s w
      else if not (secure_posture w)
      then fail "security posture changed" s w
      else if not verified
      then fail "image signature or release policy rejected" s w₁
      else if not selected
      then fail "verified image selection failed" s w₂
      else (true, record s { state = ready_to_reboot }, w₂)

  unfoldable pub cancel : SignedOta → W → SignedOta × W
  cancel s w =
      let (_, s', w') = fail "update cancelled; current slot preserved" s w in
      if is_receiving s.state then (s', w') else (s, w)
