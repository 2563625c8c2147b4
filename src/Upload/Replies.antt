-- ===== src/Upload/Replies.antt =====
-- What counts as an acknowledgement (logger/firmware/include/UploadAcknowledgement.h,
-- logger/firmware/include/BatchAcknowledgement.h). The JSON reader is not part of this repository: it
-- gives the fields that the filters name, each absent or of another type where it is `none`.
use devices.Prelude.{
  ℕ, ℤ, Bool, false, Option, some, none, List, [], ◌∷◌, ◌&&◌, ◌||◌, not, length, ltb, ◌==◌,
  bytes_eq, is_number, if◌then◌else◌,
}

pub record Reply : Type 0 where
  pub is_object : Bool
  pub accepted : Option Bool
  pub status : Option (List ℕ)
  pub batch_id : Option (List ℕ)
  pub accepted_count : Option ℕ

abbrev pub is_true : Option Bool → Bool
is_true (some b) = b
is_true none = false

abbrev pub is_text : List ℕ → Option (List ℕ) → Bool
is_text value (some text) = bytes_eq text value
is_text value none = false

abbrev pub is_count : ℕ → Option ℕ → Bool
is_count n (some m) = m == n
is_count n none = false

-- "ok"
abbrev pub ok : List ℕ
ok = 111 ∷ 107 ∷ []

-- `deserializeJson` on the body of an answer; `none` is an error.
module _ (parse : List ℕ → Option Reply) where
  unfoldable pub accepted_response : ℤ → List ℕ → Bool
  accepted_response status body = if not (is_number status 200) then false else elim (parse body) [
    | none ↦ false
    | some doc ↦ doc.is_object && (is_true doc.accepted && is_text ok doc.status)
  ]

  unfoldable pub accepted_batch : ℤ → List ℕ → List ℕ → ℕ → Bool
  accepted_batch status body batch_id count =
      if not (is_number status 200)
        || ((count == 0) || (ltb 8 count || not (length batch_id == 32)))
      then false
      else elim (parse body) [
        | none ↦ false
        | some doc ↦
            is_text ok doc.status
            && (is_true doc.accepted
                && (is_text batch_id doc.batch_id && is_count count doc.accepted_count))
      ]
