-- ===== src/Authorization/Policy.antt =====
-- The functions of logger/firmware/include/DeviceAuthorizationPolicy.h. A string is its bytes.
use devices.Prelude.{
  ℕ, ◌+◌, ◌*◌, Bool, true, false, List, [], ◌∷◌, length, ◌&&◌, ◌||◌, not, ltb, leb, ◌==◌,
  if◌then◌else◌,
}
use devices.Prelude.Words.{since}

abbrev pub visible : List ℕ → Bool
visible [] = true
visible (c ∷ cs) = if ltb c 33 || ltb 126 c then false else visible cs

abbrev pub printable : List ℕ → ℕ → ℕ → Bool
printable s minimum maximum =
    if ltb (length s) minimum || ltb maximum (length s) then false else visible s

abbrev pub is_id_byte : ℕ → Bool
is_id_byte c = (leb 97 c && leb c 122) || ((leb 48 c && leb c 57) || ((c == 45) || (c == 95)))

abbrev pub id_bytes : List ℕ → Bool
id_bytes [] = true
id_bytes (c ∷ cs) = if not (is_id_byte c) then false else id_bytes cs

abbrev pub device_id : List ℕ → Bool
device_id s = if (length s == 0) || ltb 63 (length s) then false else id_bytes s

abbrev pub is_hex : ℕ → Bool
is_hex c = (leb 48 c && leb c 57) || (leb 97 c && leb c 102)

abbrev pub hex_bytes : List ℕ → Bool
hex_bytes [] = true
hex_bytes (c ∷ cs) = if not (is_hex c) then false else hex_bytes cs

abbrev pub hex : List ℕ → ℕ → Bool
hex s n = if not (length s == n) then false else hex_bytes s

abbrev pub is_dash_place : ℕ → Bool
is_dash_place i = (i == 8) || ((i == 13) || ((i == 18) || (i == 23)))

-- The loop of `uuid` from an index on.
abbrev pub uuid_from : ℕ → List ℕ → Bool
uuid_from i [] = true
uuid_from i (c ∷ cs) =
    if is_dash_place i
    then (if not (c == 45) then false else uuid_from (i + 1) cs)
    else if not (hex (c ∷ []) 1)
    then false
    else uuid_from (i + 1) cs

abbrev pub uuid : List ℕ → Bool
uuid s = if not (length s == 36) then false else uuid_from 0 s

abbrev pub elapsed : ℕ → ℕ → ℕ → Bool
elapsed now start duration = leb duration (since now start)

abbrev pub poll_delay : ℕ → ℕ
poll_delay seconds =
    if ltb seconds 5 then 5000 else if ltb 60 seconds then 60000 else seconds * 1000
