-- ===== src/Logic/Texts.antt =====
-- The functions of logger/firmware/src/Logic.cpp on texts, times and codes.
use devices.Prelude.{
  ℕ, zero, suc, ◌+◌, ◌/◌, ◌%◌, ◌^◌, ℤ, is_negative, is_number, at_least, Bool, true, false, List,
  [], ◌∷◌, ◌++◌, ◌&&◌, ◌||◌, not, length, leb, ltb, ◌==◌, bytes_eq, if◌then◌else◌,
}
use devices.Prelude.Words.{since}

-- `isspace`, `isalnum` and `tolower`
abbrev pub is_space : ℕ → Bool
is_space c = (c == 32) || (leb 9 c && leb c 13)

abbrev pub is_alnum : ℕ → Bool
is_alnum c = (leb 48 c && leb c 57) || ((leb 65 c && leb c 90) || (leb 97 c && leb c 122))

abbrev pub to_lower : ℕ → ℕ
to_lower c = if leb 65 c && leb c 90 then c + 32 else c

-- The two loops of `trimWhitespace`.
unfoldable pub trim_start : List ℕ → List ℕ
trim_start [] = []
trim_start (c ∷ cs) = let rest = trim_start cs in if is_space c then rest else c ∷ cs

unfoldable pub trim_end : List ℕ → List ℕ
trim_end [] = []
trim_end (c ∷ cs) =
    let rest = trim_end cs in if (length rest == 0) && is_space c then [] else c ∷ rest

abbrev pub trim_whitespace : List ℕ → List ℕ
trim_whitespace input = trim_end (trim_start input)

abbrev pub interval_elapsed : ℕ → ℕ → ℕ → Bool
interval_elapsed now previous interval = leb interval (since now previous)

abbrev pub is_retryable_http_status : ℤ → Bool
is_retryable_http_status status =
    is_negative status
    || (is_number status 408
        || (is_number status 425 || (is_number status 429 || at_least 500 status)))

abbrev pub should_discard_queued_http_status : ℤ → Bool
should_discard_queued_http_status status =
    is_number status 400 || (is_number status 404 || (is_number status 413 || is_number status 422))

abbrev pub production_security_allows_network : Bool → Bool → Bool → Bool
production_security_allows_network required secure_boot_enabled flash_encryption_release_mode =
    not required || (secure_boot_enabled && flash_encryption_release_mode)

-- `insert` of a leading slash
abbrev pub rooted : List ℕ → List ℕ
rooted [] = 47 ∷ []
rooted (c ∷ cs) = if c == 47 then c ∷ cs else 47 ∷ (c ∷ cs)

-- The loop over the characters.
unfoldable pub each_allowed : List ℕ → Bool
each_allowed [] = true
each_allowed (c ∷ cs) =
    (is_alnum c || ((c == 47) || ((c == 45) || ((c == 95) || (c == 46))))) && each_allowed cs

-- `find("..")`
unfoldable pub has_dots : List ℕ → Bool
has_dots [] = false
has_dots (c ∷ []) = false
has_dots (c ∷ (d ∷ cs)) = ((c == 46) && (d == 46)) || has_dots (d ∷ cs)

unfoldable pub normalize_log_file_name : List ℕ → List ℕ
normalize_log_file_name raw =
    let trimmed = trim_whitespace raw in
    let candidate = rooted trimmed in
    if length trimmed == 0
    then []
    else if not (each_allowed candidate)
    then []
    else if has_dots candidate
    then []
    else candidate

-- Whether a text ends in a hyphen.
abbrev pub ends_in_hyphen : List ℕ → Bool
ends_in_hyphen [] = false
ends_in_hyphen (c ∷ []) = c == 45
ends_in_hyphen (c ∷ (d ∷ cs)) = ends_in_hyphen (d ∷ cs)

-- The loop of `normalizeTopicSegment`, on what it has so far.
unfoldable pub segment_of : List ℕ → List ℕ → List ℕ
segment_of normalized [] = normalized
segment_of normalized (c ∷ cs) =
    segment_of
      (if is_alnum c || ((c == 45) || (c == 95))
        then normalized ++ (to_lower c ∷ [])
        else if (c == 32) || ((c == 47) || (c == 46))
        then (if (length normalized == 0) || ends_in_hyphen normalized
            then normalized
            else normalized ++ (45 ∷ []))
        else normalized)
      cs

-- The characters at the end are taken off while they are this one.
unfoldable pub drop_last : ℕ → List ℕ → List ℕ
drop_last char [] = []
drop_last char (c ∷ cs) =
    let rest = drop_last char cs in if (length rest == 0) && (c == char) then [] else c ∷ rest

unfoldable pub drop_first : ℕ → List ℕ → List ℕ
drop_first char [] = []
drop_first char (c ∷ cs) = let rest = drop_first char cs in if c == char then rest else c ∷ cs

unfoldable pub normalize_topic_segment : List ℕ → List ℕ
normalize_topic_segment raw = drop_last 45 (segment_of [] (trim_whitespace raw))

-- "mda-logger" and "motorsport"
abbrev pub mda_logger : List ℕ
mda_logger = 109 ∷ 100 ∷ 97 ∷ 45 ∷ 108 ∷ 111 ∷ 103 ∷ 103 ∷ 101 ∷ 114 ∷ []

abbrev pub motorsport : List ℕ
motorsport = 109 ∷ 111 ∷ 116 ∷ 111 ∷ 114 ∷ 115 ∷ 112 ∷ 111 ∷ 114 ∷ 116 ∷ []

abbrev pub mqtt_identity_matches : List ℕ → List ℕ → Bool
mqtt_identity_matches device_id username =
    let normalized = normalize_topic_segment device_id in
    if length username == 0
    then true
    else bytes_eq username (if length normalized == 0 then mda_logger else normalized)

unfoldable pub format_upload_topic : List ℕ → List ℕ → List ℕ → List ℕ
format_upload_topic prefix device_id leaf =
    let normalized = drop_last 47 (drop_first 47 (trim_whitespace prefix)) in
    let device = normalize_topic_segment device_id in
    let end = normalize_topic_segment leaf in
    (if length normalized == 0 then motorsport else normalized)
    ++ ((if length device == 0 then [] else 47 ∷ device)
        ++ (if length end == 0 then [] else 47 ∷ end))

-- `kPairingAlphabet`: the capitals but I and O, and the digits from 2 on.
abbrev pub pairing_character : ℕ → ℕ
pairing_character n =
    if ltb n 8 then 65 + n else if ltb n 13 then 66 + n else if ltb n 24 then 67 + n else 26 + n

-- So many characters, each from five bits of the entropy.
unfoldable pub pairing_characters : ℕ → ℕ → List ℕ
pairing_characters zero entropy = []
pairing_characters (suc n) entropy =
    pairing_character (entropy % 32) ∷ pairing_characters n (entropy / 32)

abbrev pub format_pairing_code : ℕ → List ℕ
format_pairing_code entropy =
    pairing_characters 4 entropy ++ (45 ∷ pairing_characters 4 (entropy / 2 ^ 20))
