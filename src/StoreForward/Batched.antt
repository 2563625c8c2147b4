-- ===== src/StoreForward/Batched.antt =====
-- The inner loop of `peekBatch` of logger/firmware/src/StoreForwardQueue.cpp in the abstract view.

use devices.Prelude.{
  ℕ, ◌+◌, ◌≤◌, ◌≡◌, ◌⊎◌, refl, ap, ◌∙◌, true, false, some, List, [], ◌∷◌, ◌++◌, ◌&&◌, arith, length,
  length-append, leb, ltb, ◌==◌, Bool-cases, Option-cases, inl, inr,
}
use mathlib.Core.List.{append_assoc}
use devices.Prelude.Words.{u32}
use devices.StoreForward.Fs.{Fs, FilePath, IsFs}
use devices.StoreForward.Format.{checksum, header_of}
use devices.StoreForward.Queue.{read_payload, read_header}
use devices.StoreForward.Reading.{read_payload_written, read_payload_behind, read_header_written}
use devices.StoreForward.Contents.{encode_records, EachPayload}
use devices.StoreForward.Batch.{Course, running, broken, returned, Batch, added, batch_records}

-- A batch that has taken the next records of those that were there, up to the limit.
pub record Taken (limit : ℕ) (b b' : Batch) (ps : List (List ℕ)) : Type 0 where
  pub later : List (List ℕ)
  pub kept : b'.payloads ++ later ≡ b.payloads ++ ps
  pub limited : length b.payloads ≤ limit → length b'.payloads ≤ limit
  pub ended : b'.course ≡ running → (leb limit (length b'.payloads) ≡ true) ⊎ (later ≡ [])

pub course_cases : (c : Course) → (c ≡ running) ⊎ ((c ≡ broken) ⊎ (c ≡ returned))
course_cases running = inl refl
course_cases broken = inr (inl refl)
course_cases returned = inr (inr refl)

pub no_records : (ps : List (List ℕ)) → 0 ≡ length ps → ps ≡ []
no_records [] e = refl
no_records (p ∷ ps) e = absurd (omega arith)

pub Taken-none :
    (limit : ℕ) (b b' : Batch) (ps : List (List ℕ))
    → b'.payloads ≡ b.payloads
    → (b'.course ≡ running → (leb limit (length b'.payloads) ≡ true) ⊎ (ps ≡ []))
    → Taken limit b b' ps
Taken-none limit b b' ps e ended = record {
  later = ps;
  kept = ap (λ l. l ++ ps) e;
  limited = λ h. rw e h;
  ended = ended;
}

Taken-more :
    (limit : ℕ) (b b' : Batch) (p : List ℕ) (ps : List (List ℕ))
    → leb limit (length b.payloads) ≡ false
    → Taken limit (added p b) b' ps
    → Taken limit b b' (p ∷ ps)
Taken-more limit b b' p ps room t = record {
  later = t.later;
  kept = t.kept ∙ append_assoc b.payloads (p ∷ []) ps;
  limited = λ h. t.limited (ground (arith, length-append b.payloads (p ∷ [])));
  ended = t.ended;
}

module _ {W R : Type 0} (fs : Fs W R) {whole rest : R → List ℕ} {content : FilePath → W → List ℕ}
    (is_fs : IsFs fs whole rest content) where
  pub batch_records-Taken :
      (ps : List (List ℕ)) (limit maximum : ℕ) (file : R) (b : Batch)
      → EachPayload ps
      → rest file ≡ encode_records ps
      → Taken limit b (batch_records fs (length ps) limit maximum file b) ps
  unfolding batch_records header_of
  batch_records-Taken [] limit maximum file b v e = Taken-none limit b b [] refl (λ h. inr refl)
  batch_records-Taken (p ∷ ps) limit maximum file b v e =
      let file₁ = (read_header fs file).1 in
      elim (Bool-cases (leb limit (length b.payloads))) [
        | inl full ↦ rw (full, batch_records) (Taken-none limit b b (p ∷ ps) refl (λ h. inl full))
        | inr room ↦ elim (Option-cases (read_header fs file).0) [
          | inl bad ↦
              rw (room, bad, batch_records) (Taken-none limit b _ (p ∷ ps) refl (λ h. absurd (cc)))
          | inr (h, found) ↦
              let (is_header, after) =
                read_header_written fs is_fs.reader file p (encode_records ps) v.0 e found in
              let found' = found ∙ ap some is_header in
              let read = read_payload fs (λ r. true) (length p) (length p) [] file₁ in
              elim (Bool-cases (ltb maximum (u32 (b.bytes + (length p + 1))))) [
                | inl over ↦
                    rw (room, found', over, batch_records)
                      (Taken-none limit b _ (p ∷ ps) refl (λ h. absurd (cc)))
                | inr fits ↦
                    elim (Bool-cases
                      ((length read.0 == length p) && (checksum read.0 == checksum p))) [
                        | inr corrupt ↦
                            rw (room, found', fits, corrupt, batch_records)
                              (Taken-none limit b _ (p ∷ ps) refl (λ h. absurd (cc)))
                        | inl good ↦
                            let full : length read.0 ≡ length p = ground arith in
                            let same =
                              read_payload_written fs is_fs.reader (λ r. true) (length p) file₁ p
                                (encode_records ps) after full in
                            let behind =
                              read_payload_behind fs is_fs.reader (λ r. true) (length p) file₁ p
                                (encode_records ps) after full in
                            let ih =
                              batch_records-Taken ps limit maximum read.1 (added p b) v.1 behind in
                            rw (room, found', fits, good, batch_records, same)
                              (Taken-more limit b _ p ps room ih)
                      ]
              ]
        ]
      ]
