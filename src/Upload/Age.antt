-- ===== src/Upload/Age.antt =====
-- logger/firmware/include/QueueAge.h: the time of a record, from its timestamp.
use devices.Prelude.{
  ℕ, zero, suc, ◌+◌, ◌-◌, ◌*◌, ◌/◌, ◌%◌, Bool, Option, some, none, List, [], ◌∷◌, ◌&&◌, ◌||◌, not,
  length, get_or, leb, ltb, ◌==◌, if◌then◌else◌,
}
use devices.Prelude.Words.{u32, u32_max}

-- The number of so many digits from a place on, or none.
unfoldable pub digits : List ℕ → ℕ → ℕ → ℕ → Option ℕ
digits value start zero field = some field
digits value start (suc n) field =
    let digit = get_or value start 0 in
    let later = digits value (start + 1) n (field * 10 + (digit - 48)) in
    if ltb digit 48 || ltb 57 digit then none else later

-- `days`
abbrev pub month_days : List ℕ
month_days = 31 ∷ 28 ∷ 31 ∷ 30 ∷ 31 ∷ 30 ∷ 31 ∷ 31 ∷ 30 ∷ 31 ∷ 30 ∷ 31 ∷ []

abbrev pub leap : ℕ → Bool
leap y = (y % 4 == 0) && (not (y % 100 == 0) || (y % 400 == 0))

-- The seconds since 1970 of a date and time that passed the tests.
unfoldable pub seconds_of : ℕ → ℕ → ℕ → ℕ → ℕ → ℕ → ℕ
seconds_of year mo d h mi s =
    let y = if leb mo 2 then year - 1 else year in
    let era = y / 400 in
    let year_of_era = y - era * 400 in
    let doy = (153 * (if ltb 2 mo then mo - 3 else mo + 9) + 2) / 5 + d - 1 in
    let doe = year_of_era * 365 + year_of_era / 4 - year_of_era / 100 + doy in
    u32 ((era * 146097 + doe - 719468) * 86400 + h * 3600 + mi * 60 + s)

-- The tests on the fields.
unfoldable pub fields_valid : ℕ → ℕ → ℕ → ℕ → ℕ → ℕ → Bool
fields_valid y mo d h mi s =
    not (
      ltb y 2024
      || (ltb 2099 y || (ltb mo 1 || (ltb 12 mo || (ltb 23 h || (ltb 59 mi || ltb 59 s))))))
    && not
        (ltb d 1 || ltb (get_or month_days (mo - 1) 0 + (if (mo == 2) && leap y then 1 else 0)) d)

abbrev pub punctuated : List ℕ → Bool
punctuated value =
    (length value == 20)
    && ((get_or value 4 0 == 45)
        && ((get_or value 7 0 == 45)
            && ((get_or value 10 0 == 84)
                && ((get_or value 13 0 == 58)
                    && ((get_or value 16 0 == 58) && (get_or value 19 0 == 90))))))

-- 0 is unknown.
unfoldable pub epoch_of : Option ℕ → Option ℕ → Option ℕ → Option ℕ → Option ℕ → Option ℕ → ℕ
epoch_of (some y) (some mo) (some d) (some h) (some mi) (some s) =
    if fields_valid y mo d h mi s then seconds_of y mo d h mi s else 0
epoch_of _ _ _ _ _ _ = 0

unfoldable pub epoch : List ℕ → ℕ
epoch value =
    if punctuated value
    then epoch_of (digits value 0 4 0) (digits value 5 2 0) (digits value 8 2 0)
        (digits value 11 2 0) (digits value 14 2 0) (digits value 17 2 0)
    else 0

-- The age of a record, if it is known.
abbrev pub age : ℕ → ℕ → Option ℕ
age record_epoch now =
    if (record_epoch == 0) || (ltb now record_epoch || ltb u32_max (now - record_epoch))
    then none
    else some (now - record_epoch)
