-- ===== src/Timekeeper/Registers.antt =====
-- What the register codes and the readiness of logger/firmware/src/Timekeeper.cpp promise.
use devices.Prelude.{
  ℕ, ◌+◌, ◌%◌, ◌≤◌, ◌<◌, ◌≡◌, ◌⊎◌, refl, ap, arith, true, false, some, [], ◌∷◌, ltb, inl, inr,
  Bool-cases, Option-cases,
}
use devices.Prelude.Words.{u8, u16}
use devices.Timekeeper.{CalendarTime, Backend, disabled, ds3231, rv3028, Tm, Board, Timekeeper}
use devices.Timekeeper.Clock.{
  bcd_to_dec, dec_to_bcd, registers_of, time_of, begin, begin_ds3231, begin_rv3028,
  set_from_unix_time, write_rv3028_time, calendar_of, read_rv3028, read_rv3028_register,
}

pub record IsCalendarTime (t : CalendarTime) : Type 0 where
  pub this_century : (2000 ≤ t.year) × (t.year < 2100)
  pub date : (t.month ≤ 12) × (t.day ≤ 31)
  pub clock : (t.hour < 24) × (t.minute < 60) × (t.second < 60)

digits : (n : ℕ) → n < 80 → bcd_to_dec (dec_to_bcd n % 128) ≡ n
digits n h = omega arith

digits_64 : (n : ℕ) → n < 40 → bcd_to_dec (dec_to_bcd n % 64) ≡ n
digits_64 n h = omega arith

digits_32 : (n : ℕ) → n < 20 → bcd_to_dec (dec_to_bcd n % 32) ≡ n
digits_32 n h = omega arith

digits_year :
    (n : ℕ) → 2000 ≤ n → n < 2100 → u16 (2000 + bcd_to_dec (dec_to_bcd (u8 (n % 100)))) ≡ n
digits_year n h k = omega arith

-- A time of this century that is written to the registers is the time read back from them, through
-- the two-digit code and the masks.
pub time_of-registers_of : (t : CalendarTime) → IsCalendarTime t → time_of (registers_of t) ≡ t
unfolding time_of registers_of
time_of-registers_of t h =
    rw
      (
        digits_year t.year (h.this_century.0) (h.this_century.1),
        digits_32 t.month (omega (arith, h.date.0)),
        digits_64 t.day (omega (arith, h.date.1)),
        digits_64 t.hour (omega (arith, h.clock.0)),
        digits t.minute (omega (arith, h.clock.1)),
        digits t.second (omega (arith, h.clock.2)),
      )
      refl

module _ {W : Type 0} (board : Board W) where
  -- The clock was written: the driver was given the local time, or the bus has taken its seven
  -- registers and the whole write has succeeded.
  abbrev pub Written : Backend → CalendarTime → Timekeeper → W → W → Type 0
  Written ds3231 time t w w' = w' ≡ board.ds3231_adjust time w
  Written rv3028 time t w w' =
      ((board.send t.address (0 ∷ registers_of time) true w).0 ≡ 0)
      × (write_rv3028_time board time t w ≡ (true, w'))
  Written disabled time t w w' = ⊥

  -- The setting of the time succeeds only with a local time from 2024 on that was written.
  abbrev pub WasSet : ℕ → Timekeeper → W → W → Type 0
  WasSet utc t w w' =
      (l : Tm) × (board.localtime utc ≡ some l)
      × (124 ≤ l.tm_year)
      × Written t.backend (calendar_of l) (record t { network_ready = true }) w w'

  write_rv3028_time-sent :
      (time : CalendarTime) (t : Timekeeper) (w : W)
      → (write_rv3028_time board time t w).0 ≡ true
      → (board.send t.address (0 ∷ registers_of time) true w).0 ≡ 0
  unfolding write_rv3028_time
  write_rv3028_time-sent time t w h = ground arith

  set_kind-WasSet :
      (kind : Backend) (utc : ℕ) (l : Tm) (t : Timekeeper) (w : W)
      → board.localtime utc ≡ some l
      → 124 ≤ l.tm_year
      → let (done, _, w') = set_from_unix_time board utc (record t { backend = kind }) w in
        (done ≡ false) ⊎ WasSet utc (record t { backend = kind }) w w'
  unfolding set_from_unix_time
  set_kind-WasSet ds3231 utc l t w readable late =
      let later : ltb l.tm_year 124 ≡ false = ground arith in
      rw (readable, later, set_from_unix_time) (inr (l, refl, late, refl))
  set_kind-WasSet rv3028 utc l t w readable late =
      let later : ltb l.tm_year 124 ≡ false = ground arith in
      let t₁ : Timekeeper = record t { backend = rv3028; network_ready = true } in
      let written = write_rv3028_time board (calendar_of l) t₁ w in
      elim (Bool-cases (written.0)) [
        | inl sent ↦
            rw (readable, later, set_from_unix_time)
              (inr (
                l,
                refl,
                late,
                (write_rv3028_time-sent (calendar_of l) t₁ w sent, ap (λ b. (b, written.1)) sent),
              ))
        | inr failed ↦ rw (readable, later, set_from_unix_time) (inl failed)
      ]
  set_kind-WasSet disabled utc l t w readable late =
      let later : ltb l.tm_year 124 ≡ false = ground arith in
      rw (readable, later, set_from_unix_time) (inl refl)

  set-WasSet :
      (utc : ℕ) (t : Timekeeper) (w : W)
      → let (done, _, w') = set_from_unix_time board utc t w in (done ≡ false) ⊎ WasSet utc t w w'
  unfolding set_from_unix_time
  set-WasSet utc t w = elim (Option-cases (board.localtime utc)) [
    | inl unreadable ↦ rw (unreadable, set_from_unix_time) (inl refl)
    | inr (l, readable) ↦ elim (Bool-cases (ltb l.tm_year 124)) [
      | inl early ↦ rw (readable, early, set_from_unix_time) (inl refl)
      | inr late ↦ set_kind-WasSet t.backend utc l t w readable (ground arith)
    ]
  ]

  -- The clock can be trusted: it answered, it has not lost power, and its time is from 2024 on.
  abbrev pub Trusted : Backend → Timekeeper → W → Type 0
  Trusted ds3231 t w =
      let (found, w₁) = board.ds3231_begin w in
      let (lost, w₂) = board.ds3231_lost_power w₁ in
      (found ≡ true) × (lost ≡ false) × (2024 ≤ (board.ds3231_now w₂).0.year)
  Trusted rv3028 t w =
      let (probed, w₁) = board.send t.address [] true w in
      let (status, w₂) = read_rv3028_register board 14 t w₁ in
      (probed ≡ 0)
      × (s : ℕ) × (status ≡ some s)
      × (s % 2 ≡ 0)
      × (now : CalendarTime) × ((read_rv3028 board t w₂).0 ≡ some now)
      × (2024 ≤ now.year)
  Trusted disabled t w = ⊥

  begin_rv3028-Trusted :
      (t : Timekeeper) (w : W) → ((begin_rv3028 board t w).0 ≡ false) ⊎ Trusted rv3028 t w
  unfolding begin_rv3028
  begin_rv3028-Trusted t w =
      let w₁ = (board.send t.address [] true w).1 in
      let w₂ = (read_rv3028_register board 14 t w₁).1 in
      elim (Option-cases (read_rv3028_register board 14 t w₁).0) [
        | inl e ↦ inl (ground (arith, e))
        | inr (s, e) ↦ elim (Option-cases (read_rv3028 board t w₂).0) [
          | inl k ↦ inl (ground (arith, e, k))
          | inr (now, k) ↦ elim (Bool-cases ((begin_rv3028 board t w).0)) [
            | inr refused ↦ inl refused
            | inl done ↦ inr (
              ground (arith, e, k, done),
              s,
              e,
              ground (arith, e, k, done),
              now,
              k,
              ground (arith, e, k, done),
            )
          ]
        ]
      ]

  begin_ds3231-Trusted :
      (t : Timekeeper) (w : W) → ((begin_ds3231 board t w).0 ≡ false) ⊎ Trusted ds3231 t w
  unfolding begin_ds3231
  begin_ds3231-Trusted t w = elim (Bool-cases ((begin_ds3231 board t w).0)) [
    | inr refused ↦ inl refused
    | inl done ↦ inr (ground arith, ground arith, ground arith)
  ]

  begin-Trusted :
      (kind : Backend) (address : ℕ) (t : Timekeeper) (w : W)
      → ((begin board kind address t w).0 ≡ false)
        ⊎ Trusted kind (record t { backend = kind; has_wire = true; address = address }) w
  unfolding begin
  begin-Trusted ds3231 address t w =
      begin_ds3231-Trusted (record t { backend = ds3231; has_wire = true; address = address }) w
  begin-Trusted rv3028 address t w =
      begin_rv3028-Trusted (record t { backend = rv3028; has_wire = true; address = address }) w
  begin-Trusted disabled address t w = inl refl

  -- On every branch, `begin` returns whether the clock is ready afterwards, and so does the setting
  -- of the time. The beginning fails, or the clock answered, has not lost power, and
  -- gives a time from 2024 on; the setting fails, or the local time was readable, from 2024 on, and was written to
  -- the clock.
  pub ready_is_reported :
      (kind : Backend) (address utc : ℕ) (t : Timekeeper) (w : W)
      → ((begin board kind address t w).0 ≡ (begin board kind address t w).1.ready)
        × ((set_from_unix_time board utc t w).0 ≡ (set_from_unix_time board utc t w).1.ready)
        × (((set_from_unix_time board utc t w).0 ≡ false)
            ⊎ WasSet utc t w (set_from_unix_time board utc t w).2)
        × (((begin board kind address t w).0 ≡ false)
            ⊎ Trusted kind (record t { backend = kind; has_wire = true; address = address }) w)
  unfolding begin begin_ds3231 begin_rv3028 set_from_unix_time
  ready_is_reported kind address utc t w =
      (ground arith, ground arith, set-WasSet utc t w, begin-Trusted kind address t w)
