-- ===== src/Logic/Tests.antt =====
-- Names and codes.
use devices.Prelude.{ℕ, ◌≡◌, ◌⊎◌, refl, false, List, [], ◌∷◌}
use devices.Logic.Texts.{
  trim_start, trim_end, rooted, each_allowed, has_dots, normalize_log_file_name, segment_of,
  drop_last, normalize_topic_segment, pairing_characters, format_pairing_code,
}
use devices.Logic.Names.{normalize_idempotent}

-- " logs.csv"
abbrev raw : List ℕ
raw = 32 ∷ 108 ∷ 111 ∷ 103 ∷ 115 ∷ 46 ∷ 99 ∷ 115 ∷ 118 ∷ []

-- "/logs.csv"
abbrev name : List ℕ
name = 47 ∷ 108 ∷ 111 ∷ 103 ∷ 115 ∷ 46 ∷ 99 ∷ 115 ∷ 118 ∷ []

normalized : normalize_log_file_name raw ≡ name
unfolding normalize_log_file_name trim_start trim_end each_allowed has_dots
normalized = refl

normalize_idempotent_example :
    (normalize_log_file_name name ≡ name)
    × ((name ≡ []) ⊎ (rooted name ≡ name) × (has_dots name ≡ false))
unfolding normalize_log_file_name trim_start trim_end each_allowed has_dots
normalize_idempotent_example = normalize_idempotent raw

-- "/A b." gives "a-b".
topic : normalize_topic_segment (47 ∷ 65 ∷ 32 ∷ 98 ∷ 46 ∷ []) ≡ 97 ∷ 45 ∷ 98 ∷ []
unfolding normalize_topic_segment segment_of drop_last trim_start trim_end
topic = refl

-- 1 gives "BAAA-AAAA".
code : format_pairing_code 1 ≡ 66 ∷ 65 ∷ 65 ∷ 65 ∷ 45 ∷ 65 ∷ 65 ∷ 65 ∷ 65 ∷ []
unfolding pairing_characters
code = refl
