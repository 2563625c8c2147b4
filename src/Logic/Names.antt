-- ===== src/Logic/Names.antt =====
-- Names that logger/firmware/src/Logic.cpp normalises.
use devices.Prelude.{
  ℕ, ◌≡◌, ◌⊎◌, refl, ap, ◌∙◌, true, false, List, [], ◌∷◌, arith, length, ◌==◌, Bool-cases, inl, inr,
}
use devices.Logic.Texts.{
  trim_start, trim_end, trim_whitespace, rooted, each_allowed, has_dots, normalize_log_file_name,
}

-- There is nothing to trim.
trim_start_allowed : (cs : List ℕ) → each_allowed cs ≡ true → trim_start cs ≡ cs
unfolding trim_start each_allowed
trim_start_allowed [] h = refl
trim_start_allowed (c ∷ cs) h = ground arith

trim_end_allowed : (cs : List ℕ) → each_allowed cs ≡ true → trim_end cs ≡ cs
unfolding trim_end each_allowed
trim_end_allowed [] h = refl
trim_end_allowed (c ∷ cs) h = let ih = trim_end_allowed cs (ground arith) in ground (arith, ih)

rooted-rooted : (cs : List ℕ) → rooted (rooted cs) ≡ rooted cs
rooted-rooted [] = refl
rooted-rooted (c ∷ cs) = ground arith

rooted_length : (cs : List ℕ) → (length (rooted cs) == 0) ≡ false
rooted_length [] = refl
rooted_length (c ∷ cs) = ground arith

-- A candidate that is accepted is accepted as it is.
normalize_rooted :
    (cs : List ℕ)
    → each_allowed (rooted cs) ≡ true
    → has_dots (rooted cs) ≡ false
    → normalize_log_file_name (rooted cs) ≡ rooted cs
unfolding normalize_log_file_name
normalize_rooted cs allowed no_dots =
    let trimmed : trim_whitespace (rooted cs) ≡ rooted cs =
      ap trim_end (trim_start_allowed (rooted cs) allowed) ∙ trim_end_allowed (rooted cs) allowed in
    let again = rooted-rooted cs in
    ground (arith, trimmed, again, rooted_length cs, allowed, no_dots)

normalize_outcome :
    (raw : List ℕ)
    → (normalize_log_file_name raw ≡ [])
      ⊎ ((cs : List ℕ) × (normalize_log_file_name raw ≡ rooted cs)
          × (each_allowed (rooted cs) ≡ true)
          × (has_dots (rooted cs) ≡ false))
unfolding normalize_log_file_name
normalize_outcome raw =
    let cs = trim_whitespace raw in
    elim (Bool-cases (length cs == 0)) [
      | inl empty ↦ inl (ground (arith, empty))
      | inr some_left ↦ elim (Bool-cases (each_allowed (rooted cs))) [
        | inr bad ↦ inl (ground (arith, some_left, bad))
        | inl good ↦ elim (Bool-cases (has_dots (rooted cs))) [
          | inl dots ↦ inl (ground (arith, some_left, good, dots))
          | inr no_dots ↦ inr (cs, ground (arith, some_left, good, no_dots), good, no_dots)
        ]
      ]
    ]

normalize_nothing : normalize_log_file_name [] ≡ []
unfolding normalize_log_file_name trim_start trim_end
normalize_nothing = refl

-- Normalising a file name twice is normalising it once, and the normalised name is empty, or begins
-- with a slash and has no two dots in a row.
pub normalize_idempotent :
    (raw : List ℕ)
    → let name = normalize_log_file_name raw in
      (normalize_log_file_name name ≡ name)
      × ((name ≡ []) ⊎ (rooted name ≡ name) × (has_dots name ≡ false))
normalize_idempotent raw = elim (normalize_outcome raw) [
  | inl empty ↦ rw empty (normalize_nothing, inl refl)
  | inr (cs, e, good, no_dots) ↦
      rw e (normalize_rooted cs good no_dots, inr (rooted-rooted cs, no_dots))
]
