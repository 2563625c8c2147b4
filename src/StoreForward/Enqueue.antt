-- ===== src/StoreForward/Enqueue.antt =====
-- `enqueue` of logger/firmware/src/StoreForwardQueue.cpp against the abstract view.

use devices.Prelude.{
  ℕ, ◌+◌, ◌≤◌, ◌<◌, ◌≡◌, ap, ◌∙◌, true, List, [], ◌∷◌, ◌++◌, ◌⊎◌, inl, inr, arith, length,
}
use devices.StoreForward.Fs.{Fs, FilePath, IsFs}
use devices.StoreForward.Format.{at}
use devices.StoreForward.Types.{Queue, saturating_add}
use devices.StoreForward.Reading.{IsPayload}
use devices.StoreForward.Contents.{IsQueue}
use devices.StoreForward.Segments.{rotate_segment}
use devices.StoreForward.Queue.{append_record, enqueue}
use devices.StoreForward.Append.{append_record-queue, append_record-IsQueue}
use devices.StoreForward.Rotate.{rotate_segment-IsQueue}

module _ {W R : Type 0} (fs : Fs W R) {whole rest : R → List ℕ} {content : FilePath → W → List ℕ}
    (is_fs : IsFs fs whole rest content) where
  -- The two ways in which `enqueue` succeeds.
  enqueue_cases :
      (p : List ℕ) (q : Queue) (w : W)
      → q.segment_maximum_bytes < 2147483648
      → at q.tail q.metadata.active_segment ≤ q.segment_maximum_bytes
      → let (rotated, q₁, w₁) = rotate_segment fs q w in
        (enqueue fs p q w).0 ≡ true
        → IsPayload p
          × ((at q.tail q.metadata.active_segment + (12 + length p) ≤ q.segment_maximum_bytes)
                × (enqueue fs p q w ≡ append_record fs p q w)
              ⊎ (q.segment_maximum_bytes < at q.tail q.metadata.active_segment + (12 + length p))
                × (rotated ≡ true)
                × (12 + length p ≤ q.segment_maximum_bytes)
                × (enqueue fs p q w ≡ append_record fs p q₁ w₁))
  unfolding enqueue
  enqueue_cases p q w small fits done = ground arith

  -- What a successful `enqueue` leaves: the payload is the newest. Either the active segment had room
  -- for it behind its tail, and all that was pending is still there; or it had not, the older segment's
  -- records were given up, and the drop counter was raised by their number, up to its maximum.
  pub enqueue_refines :
      (p : List ℕ) (q : Queue) (w : W) (older newer : List (List ℕ))
      → IsQueue content q w older newer
      → (enqueue fs p q w).0 ≡ true
      → let (_, q', w') = enqueue fs p q w in
        ((at q.tail q.metadata.active_segment + (12 + length p) ≤ q.segment_maximum_bytes)
          × IsQueue content q' w' older (newer ++ (p ∷ []))
          × (q'.metadata.dropped_records ≡ q.metadata.dropped_records))
        ⊎ ((q.segment_maximum_bytes < at q.tail q.metadata.active_segment + (12 + length p))
            × IsQueue content q' w' newer (p ∷ [])
            × (q'.metadata.dropped_records
                ≡ saturating_add q.metadata.dropped_records (length older)))
  enqueue_refines p q w older newer v done =
      let q₁ = (rotate_segment fs q w).1 in
      let w₁ = (rotate_segment fs q w).2 in
      let cases = enqueue_cases p q w v.bounded v.newer_fits done in
      elim (cases.1) [
        | inl (room, same) ↦
            let done' : (append_record fs p q w).0 ≡ true = cc in
            inl (
              room,
              rw same (append_record-IsQueue fs is_fs p q w older newer v cases.0 room done'),
              ap (λ r. r.1.metadata.dropped_records) same
                  ∙ ap (λ r. r.metadata.dropped_records) (append_record-queue fs p q w done'),
            )
        | inr (no_room, rotated, room, same) ↦
            let done' : (append_record fs p q₁ w₁).0 ≡ true = cc in
            let turned = rotate_segment-IsQueue fs is_fs q w older newer v rotated in
            inr (
              no_room,
              rw same (
                  append_record-IsQueue fs is_fs p q₁ w₁ newer [] turned.0 cases.0
                    (omega (arith, turned.2, turned.3)) done'),
              ap (λ r. r.1.metadata.dropped_records) same
                  ∙ (ap (λ r. r.metadata.dropped_records) (append_record-queue fs p q₁ w₁ done')
                      ∙ turned.1),
            )
      ]
