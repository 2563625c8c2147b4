-- ===== src/Ota/Health.antt =====
-- Runs of the boot health watch of logger/firmware/src/SignedOta.cpp: what its confirmation of a
-- new image takes.
use devices.Prelude.{
  ℕ, ◌≤◌, ◌≡◌, refl, Bool, true, false, Option, some, none, List, [], ◌∷◌, arith, leb, ltb, ◌&&◌,
  ◌||◌, if◌then◌else◌,
}
use devices.Prelude.Words.{since}
use devices.Ota.{SignedOtaBackend}
use devices.Ota.BootHealth.{
  OtaBootHealth, Readings, pending, confirmed, all_well, is_pending, begin, give_up, poll,
}

-- When the unbroken series of healthy turns began that ends with the newest one. The newest
-- readings come first.
abbrev pub series : {W : Type 0} → SignedOtaBackend W → W → List Readings → Option ℕ
series b w [] = none
series b w (r ∷ past) =
    if all_well b r w
    then elim (series b w past) [ some t ↦ some t | none ↦ some r.now_ms ]
    else none

abbrev lasts : ℕ → Option ℕ → Bool
lasts now (some t) = leb 10000 (since now t)
lasts now none = false

-- Some turn came before the deadline, at the end of a healthy series of ten seconds.
abbrev pub earned : {W : Type 0} → SignedOtaBackend W → ℕ → W → List Readings → Bool
earned b start w [] = false
earned b start w (r ∷ past) =
    earned b start w past
    || (ltb (since r.now_ms start) 120000 && lasts r.now_ms (series b w (r ∷ past)))

module _ {W : Type 0} (backend : SignedOtaBackend W) where
  -- The watch after the turns with these readings, the newest first.
  abbrev pub after : List Readings → OtaBootHealth → W → OtaBootHealth × W
  after [] h w = (h, w)
  after (r ∷ past) h w = let (h', w') = after past h w in poll backend r h' w'

  record Watched (start : ℕ) (w₀ : W) (past : List Readings) (h : OtaBootHealth) (w : W)
      : Type 0 where
    same_world : h.state ≡ pending → w ≡ w₀
    same_start : h.state ≡ pending → h.started_ms ≡ start
    in_series :
        h.state ≡ pending
        → series backend w₀ past ≡ (if h.healthy then some h.healthy_since_ms else none)
    reward : h.state ≡ confirmed → earned backend start w₀ past ≡ true

  poll-Watched :
      (start : ℕ) (w₀ : W) (past : List Readings) (r : Readings) (h : OtaBootHealth) (w : W)
      → Watched start w₀ past h w
      → let (h', w') = poll backend r h w in Watched start w₀ (r ∷ past) h' w'
  unfolding poll give_up
  poll-Watched start w₀ past r h w a = ground arith

  after-Watched :
      (w : W) (past : List Readings) (h : OtaBootHealth)
      → Watched h.started_ms w [] h w
      → let (h', w') = after past h w in Watched h.started_ms w past h' w'
  after-Watched w [] h a = a
  after-Watched w (r ∷ past) h a =
      let (h', w') = after past h w in
      poll-Watched h.started_ms w past r h' w' (after-Watched w past h a)

  -- However the turns of the loop go, a boot that starts the watch is confirmed only if some turn
  -- came less than 120000 ms after the start and ended an unbroken series of turns, 10000 ms long
  -- at least, in each of which the posture was secure and the sensors, the queue and the
  -- authenticated heartbeat were all reported well.
  pub confirmed_is_earned :
      (now : ℕ) (required : Bool) (h : OtaBootHealth) (w : W) (past : List Readings)
      → (after past (begin backend now required h w) w).0.state ≡ confirmed
      → earned backend now w past ≡ true
  unfolding begin
  confirmed_is_earned now required h w past done =
      let start : Watched now w [] (begin backend now required h w) w = ground arith in
      (after-Watched w past (begin backend now required h w) start).reward done

  -- A turn at or after the deadline settles a pending boot, and never as confirmed.
  pub deadline_settles :
      (r : Readings) (h : OtaBootHealth) (w : W)
      → h.state ≡ pending
      → 120000 ≤ since (r.now_ms) (h.started_ms)
      → let h' = (poll backend r h w).0 in ¬ (h'.state ≡ pending) × ¬ (h'.state ≡ confirmed)
  unfolding poll give_up
  deadline_settles r h w p late = ground arith

  -- A boot that is not pending is never touched again, and neither is its backend.
  settled_absorbs :
      (past : List Readings) (h : OtaBootHealth) (w : W)
      → is_pending h.state ≡ false
      → after past h w ≡ (h, w)
  unfolding poll
  settled_absorbs [] h w p = refl
  settled_absorbs (r ∷ past) h w p = rw (settled_absorbs past h w p) (ground arith)
