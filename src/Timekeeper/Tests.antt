-- ===== src/Timekeeper/Tests.antt =====
-- A clock whose bus answers every call, and times written to its registers.
use devices.Prelude.{ℕ, ◌+◌, ◌≡◌, ◌⊎◌, refl, arith, false, true, false, some}
use devices.Timekeeper.{CalendarTime, Board, Timekeeper, Tm, disabled, rv3028}
use devices.Timekeeper.Clock.{
  registers_of, time_of, begin, set_from_unix_time, write_rv3028_time, read_rv3028_register,
  read_rv3028_burst, write_rv3028_register, read_bytes,
}
use devices.Timekeeper.Registers.{
  IsCalendarTime, time_of-registers_of, ready_is_reported, WasSet, Trusted,
}

abbrev leap_day : CalendarTime
leap_day = record { year = 2024; month = 2; day = 29; hour = 23; minute = 59; second = 58 }

leap_day-IsCalendarTime : IsCalendarTime leap_day
leap_day-IsCalendarTime = record {
  this_century = (omega arith, omega arith);
  date = (omega arith, omega arith);
  clock = (omega arith, omega arith, omega arith);
}

time_of-registers_of_example : time_of (registers_of leap_day) ≡ leap_day
time_of-registers_of_example = time_of-registers_of leap_day leap_day-IsCalendarTime

abbrev leap_tm : Tm
leap_tm = record { tm_year = 124; tm_mon = 1; tm_mday = 29; tm_hour = 23; tm_min = 59; tm_sec = 58 }

-- The world counts the calls.
abbrev answering : Board ℕ
answering = record {
  send = λ a bytes stop w. (0, w + 1);
  request_from = λ a n w. (n, w + 1);
  read = λ w. (0, w + 1);
  ds3231_begin = λ w. (true, w + 1);
  ds3231_lost_power = λ w. (false, w);
  ds3231_now = λ w. (leap_day, w);
  ds3231_adjust = λ t w. w + 1;
  localtime = λ utc. some leap_tm;
  time = λ w. w;
}

abbrev clock : Timekeeper
clock = record {
  backend = disabled;
  has_wire = false;
  address = 0;
  ready = false;
  network_ready = false;
  last_error = "";
}

abbrev running : Timekeeper
running = record clock { backend = rv3028; has_wire = true; address = 82 }

ready_is_reported_example :
    ((begin answering rv3028 82 running 0).0 ≡ (begin answering rv3028 82 running 0).1.ready)
    × ((set_from_unix_time answering 1709251198 running 0).0
        ≡ (set_from_unix_time answering 1709251198 running 0).1.ready)
    × (((set_from_unix_time answering 1709251198 running 0).0 ≡ false)
        ⊎ WasSet answering 1709251198 running 0
            (set_from_unix_time answering 1709251198 running 0).2)
    × (((begin answering rv3028 82 running 0).0 ≡ false) ⊎ Trusted answering rv3028 running 0)
ready_is_reported_example = ready_is_reported answering rv3028 82 1709251198 running 0

-- The clock of that run is set.
was_set : (set_from_unix_time answering 1709251198 running 0).0 ≡ true
unfolding set_from_unix_time write_rv3028_time read_rv3028_register read_rv3028_burst
    write_rv3028_register read_bytes registers_of
was_set = refl
