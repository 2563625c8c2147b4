-- ===== src/Timekeeper/Clock.antt =====
-- The methods of logger/firmware/src/Timekeeper.cpp.
use Prim.Native.String.{String}
use devices.Prelude.{
  ℕ, zero, suc, ◌+◌, ◌-◌, ◌*◌, ◌/◌, ◌%◌, Bool, true, false, Option, some, none, List, [], ◌∷◌,
  get_or, ◌||◌, not, ltb, ◌==◌, if◌then◌else◌,
}
use devices.Prelude.Words.{u8, u16}
use devices.Timekeeper.{CalendarTime, Backend, disabled, ds3231, rv3028, Tm, Board, Timekeeper}

abbrev pub bcd_to_dec : ℕ → ℕ
bcd_to_dec value = u8 (value / 16 * 10 + value % 16)

-- The two digits stand in different halves of the byte.
abbrev pub dec_to_bcd : ℕ → ℕ
dec_to_bcd value = u8 (value / 10 * 16 + value % 10)

-- The seven registers of a time, and the time that seven registers hold.
unfoldable pub registers_of : CalendarTime → List ℕ
registers_of t =
    dec_to_bcd t.second
    ∷ dec_to_bcd t.minute
    ∷ dec_to_bcd t.hour
    ∷ 1
    ∷ dec_to_bcd t.day
    ∷ dec_to_bcd t.month
    ∷ dec_to_bcd (u8 (t.year % 100))
    ∷ []

unfoldable pub time_of : List ℕ → CalendarTime
time_of b = record {
  second = bcd_to_dec (get_or b 0 0 % 128);
  minute = bcd_to_dec (get_or b 1 0 % 128);
  hour = bcd_to_dec (get_or b 2 0 % 64);
  day = bcd_to_dec (get_or b 4 0 % 64);
  month = bcd_to_dec (get_or b 5 0 % 32);
  year = u16 (2000 + bcd_to_dec (get_or b 6 0));
}

abbrev pub disable : Timekeeper → Timekeeper
disable t = record {
  backend = disabled;
  has_wire = false;
  address = 0;
  ready = false;
  network_ready = false;
  last_error = "RTC disabled";
}

abbrev unready : String → Timekeeper → Timekeeper
unready error t = record t { ready = false; last_error = error }

abbrev made_ready : Timekeeper → Timekeeper
made_ready t = record t { ready = true; last_error = "" }

abbrev pub calendar_of : Tm → CalendarTime
calendar_of l = record {
  year = u16 (l.tm_year + 1900);
  month = u8 (l.tm_mon + 1);
  day = u8 l.tm_mday;
  hour = u8 l.tm_hour;
  minute = u8 l.tm_min;
  second = u8 l.tm_sec;
}

module _ {W : Type 0} (board : Board W) where
  open board use {
    send, request_from, ds3231_begin, ds3231_lost_power, ds3231_now, ds3231_adjust, localtime,
  }

  unfoldable pub read_bytes : ℕ → W → List ℕ × W
  read_bytes zero w = ([], w)
  read_bytes (suc n) w =
      let (b, w₁) = board.read w in let (bs, w₂) = read_bytes n w₁ in (b ∷ bs, w₂)

  unfoldable pub read_rv3028_burst : ℕ → ℕ → Timekeeper → W → Option (List ℕ) × W
  read_rv3028_burst start n t w =
      let (status, w₁) = send t.address (start ∷ []) false w in
      let (came, w₂) = request_from t.address n w₁ in
      let (bytes, w₃) = read_bytes n w₂ in
      if not t.has_wire || (n == 0)
      then (none, w)
      else if not (status == 0)
      then (none, w₁)
      else if not (came == n)
      then (none, w₂)
      else (some bytes, w₃)

  unfoldable pub read_rv3028_register : ℕ → Timekeeper → W → Option ℕ × W
  read_rv3028_register reg t w =
      let (bytes, w₁) = read_rv3028_burst reg 1 t w in
      (elim bytes [ some b ↦ some (get_or b 0 0) | none ↦ none ], w₁)

  unfoldable pub write_rv3028_register : ℕ → ℕ → Timekeeper → W → Bool × W
  write_rv3028_register reg value t w =
      let (status, w₁) = send t.address (reg ∷ value ∷ []) true w in
      if not t.has_wire then (false, w) else (status == 0, w₁)

  -- The status register without its lowest bit, the power-on flag.
  abbrev pub without_porf : ℕ → ℕ
  without_porf status = status - status % 2

  unfoldable pub write_rv3028_time : CalendarTime → Timekeeper → W → Bool × W
  write_rv3028_time time t w =
      let (sent, w₁) = send t.address (0 ∷ registers_of time) true w in
      let (status, w₂) = read_rv3028_register 14 t w₁ in
      if not t.has_wire then (false, w) else if not (sent == 0) then (false, w₁) else elim status [
        | some s ↦ write_rv3028_register 14 (without_porf s) t w₂
        | none ↦ (false, w₂)
      ]

  unfoldable pub read_rv3028 : Timekeeper → W → Option CalendarTime × W
  read_rv3028 t w =
      let (bytes, w₁) = read_rv3028_burst 0 7 t w in
      (elim bytes [ some b ↦ some (time_of b) | none ↦ none ], w₁)

  unfoldable pub begin_ds3231 : Timekeeper → W → Bool × Timekeeper × W
  begin_ds3231 t w =
      let (found, w₁) = ds3231_begin w in
      let (lost, w₂) = ds3231_lost_power w₁ in
      let (now, w₃) = ds3231_now w₂ in
      if not found
      then (false, unready "DS3231 not detected" t, w₁)
      else if lost
      then (false, unready "RTC lost power or time invalid" t, w₂)
      else if ltb now.year 2024
      then (false, unready "RTC time out of range" t, w₃)
      else (true, made_ready t, w₃)

  unfoldable pub begin_rv3028 : Timekeeper → W → Bool × Timekeeper × W
  begin_rv3028 t w =
      let (probed, w₁) = send t.address [] true w in
      let (status, w₂) = read_rv3028_register 14 t w₁ in
      let (time, w₃) = read_rv3028 t w₂ in
      if not (probed == 0) then (false, unready "RV-3028 not detected" t, w₁) else elim status [
        | none ↦ (false, unready "RV-3028 status read failed" t, w₂)
        | some s ↦
            let (_, cleared) = write_rv3028_register 14 (without_porf s) t w₂ in
            if not (s % 2 == 0)
            then (false, unready "RTC lost power or time invalid" t, cleared)
            else elim time [
              | none ↦ (false, unready "RV-3028 time read failed" t, w₃)
              | some now ↦
                  if ltb now.year 2024
                  then (false, unready "RTC time out of range" t, w₃)
                  else (true, made_ready t, w₃)
            ]
      ]

  -- A kind that is neither of the two is `disabled`.
  unfoldable pub begin : Backend → ℕ → Timekeeper → W → Bool × Timekeeper × W
  begin kind address t w =
      let started : Timekeeper = record t { backend = kind; has_wire = true; address = address } in
      elim kind [
        | ds3231 ↦ begin_ds3231 started w
        | rv3028 ↦ begin_rv3028 started w
        | disabled ↦ (false, disable t, w)
      ]

  unfoldable pub set_from_unix_time : ℕ → Timekeeper → W → Bool × Timekeeper × W
  set_from_unix_time utc t w = elim (localtime utc) [
    | none ↦ (false, unready "Network time invalid" t, w)
    | some l ↦
        let time = calendar_of l in
        let t₁ : Timekeeper = record t { network_ready = true } in
        let (sent, w₁) = write_rv3028_time time t₁ w in
        let failed : Timekeeper = unready "RTC time write failed" t₁ in
        if ltb l.tm_year 124 then (false, unready "Network time invalid" t, w) else elim t.backend [
          | ds3231 ↦ (true, made_ready t₁, ds3231_adjust time w)
          | rv3028 ↦ (sent, if sent then made_ready t₁ else failed, w₁)
          | disabled ↦ (false, failed, w)
        ]
  ]

  unfoldable pub read_network_time : Timekeeper → W → Option CalendarTime
  read_network_time t w = if not t.network_ready then none else elim (localtime (board.time w)) [
    | none ↦ none
    | some l ↦ if ltb l.tm_year 124 then none else some (calendar_of l)
  ]
