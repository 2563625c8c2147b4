-- ===== src/StoreForward/Rotate.antt =====
-- `rotateSegment` of logger/firmware/src/StoreForwardQueue.cpp against the abstract view.

use devices.Prelude.{
  ℕ, ◌≡◌, refl, ap, ◌∙◌, true, false, List, [], inl, inr, arith, length, ltb, Bool-cases,
}
use devices.StoreForward.Fs.{Fs, FilePath, IsFs, Segment}
use devices.StoreForward.Format.{at, other}
use devices.StoreForward.Types.{Queue, saturating_add}
use devices.StoreForward.Contents.{
  IsQueue, Holds-cast, Holds-empty, at-put_self, at-put_back, other-other,
}
use devices.StoreForward.Metadata.{save_metadata}
use devices.StoreForward.Segments.{truncate_segment, switch_segment, rotate_segment}
use devices.StoreForward.Saving.{
  save_metadata-queue, save_metadata-content, truncate_segment-queue, truncate_segment-content,
  truncate_segment-other,
}

saturating_add_none : (d n : ℕ) → ltb 0 n ≡ false → d ≡ saturating_add d n
saturating_add_none d n h = ground arith

module _ {W R : Type 0} (fs : Fs W R) {whole rest : R → List ℕ} {content : FilePath → W → List ℕ}
    (is_fs : IsFs fs whole rest content) where
  save_metadata-IsQueue :
      (q : Queue) (w : W) (older newer : List (List ℕ))
      → IsQueue content q w older newer
      → IsQueue content (save_metadata fs q w).1 (save_metadata fs q w).2 older newer
  save_metadata-IsQueue q w older newer v = rw (save_metadata-queue fs q w) (record {
    older_held =
        Holds-cast (save_metadata-content fs is_fs (other q.metadata.active_segment) q w) refl refl
          refl v.older_held;
    newer_held =
        Holds-cast (save_metadata-content fs is_fs q.metadata.active_segment q w) refl refl refl
          v.newer_held;
    is_ready = v.is_ready;
    bounded = v.bounded;
    older_fits = v.older_fits;
    newer_fits = v.newer_fits;
  })

  -- What a queue is after its inactive segment was emptied and made the active one.
  abbrev Switched : Queue → Queue → W → List (List ℕ) → Type 0
  Switched q q' w' newer =
      IsQueue content q' w' newer []
      × (q'.metadata.dropped_records ≡ q.metadata.dropped_records)
      × (q'.segment_maximum_bytes ≡ q.segment_maximum_bytes)
      × (at q'.tail q'.metadata.active_segment ≡ 0)

  truncated-Switched :
      (q : Queue) (w : W) (older newer : List (List ℕ))
      → IsQueue content q w older newer
      → let next = other q.metadata.active_segment in
        let (done, q₁, w₁) = truncate_segment fs next q w in
        done ≡ true
        → Switched q
            (record q₁ { metadata = record (q₁.metadata) { active_segment = next } })
            w₁
            newer
  truncated-Switched q w older newer v done =
      let s = q.metadata.active_segment in
      let is_same = truncate_segment-queue fs (other s) q w done in
      let kept = rw (other-other s) at (truncate_segment-other fs is_fs (other s) q w) in
      rw is_same (
        record {
          older_held = rw (other-other s) (
              Holds-cast kept (at-put_back q.metadata.head s 0) (at-put_back q.tail s 0)
                (at-put_back q.count s 0) v.newer_held);
          newer_held =
              Holds-cast refl (at-put_self q.metadata.head (other s) 0)
                (at-put_self q.tail (other s) 0) (at-put_self q.count (other s) 0)
                (Holds-empty (truncate_segment-content fs is_fs (other s) q w done));
          is_ready = v.is_ready;
          bounded = v.bounded;
          older_fits = rw (other-other s, at-put_back q.tail s) v.newer_fits;
          newer_fits = rw (at-put_self q.tail (other s)) (omega arith);
        },
        refl,
        refl,
        at-put_self q.tail (other s) 0,
      )

  saved-Switched :
      (q q' : Queue) (w' : W) (newer : List (List ℕ))
      → Switched q q' w' newer
      → Switched q (save_metadata fs q' w').1 (save_metadata fs q' w').2 newer
  saved-Switched q q' w' newer s =
      let is_same = save_metadata-queue fs q' w' in
      (save_metadata-IsQueue q' w' newer [] s.0, rw is_same s.1, rw is_same s.2, rw is_same s.3)

  switch_segment-Switched :
      (q : Queue) (w : W) (older newer : List (List ℕ))
      → IsQueue content q w older newer
      → let (done, q', w') = switch_segment fs (other q.metadata.active_segment) q w in
        done ≡ true → Switched q q' w' newer
  unfolding switch_segment
  switch_segment-Switched q w older newer v done =
      let next = other q.metadata.active_segment in
      elim (Bool-cases (truncate_segment fs next q w).0) [
        | inl e ↦ rw e (saved-Switched q _ _ newer (truncated-Switched q w older newer v e))
        | inr e ↦ absurd (ground arith)
      ]

  switch_next-Switched :
      (q : Queue) (w : W) (older newer : List (List ℕ)) (next : Segment)
      → IsQueue content q w older newer
      → next ≡ other q.metadata.active_segment
      → let (done, q', w') = switch_segment fs next q w in done ≡ true → Switched q q' w' newer
  switch_next-Switched q w older newer next v e = rw e (switch_segment-Switched q w older newer v)

  -- The queue with its drop counter raised.
  abbrev counted : ℕ → Queue → Queue
  counted dropped q = record q { metadata = record (q.metadata) { dropped_records = dropped } }

  counted-IsQueue :
      (d : ℕ) (q : Queue) (w : W) (older newer : List (List ℕ))
      → IsQueue content q w older newer
      → IsQueue content (counted d q) w older newer
  counted-IsQueue d q w older newer v = record {
    older_held = v.older_held;
    newer_held = v.newer_held;
    is_ready = v.is_ready;
    bounded = v.bounded;
    older_fits = v.older_fits;
    newer_fits = v.newer_fits;
  }

  -- A successful rotation gives up exactly the older segment's records, and has added their number
  -- to the drop counter, up to its maximum.
  pub rotate_segment-IsQueue :
      (q : Queue) (w : W) (older newer : List (List ℕ))
      → IsQueue content q w older newer
      → (rotate_segment fs q w).0 ≡ true
      → let (_, q', w') = rotate_segment fs q w in
        IsQueue content q' w' newer []
        × (q'.metadata.dropped_records ≡ saturating_add q.metadata.dropped_records (length older))
        × (q'.segment_maximum_bytes ≡ q.segment_maximum_bytes)
        × (at q'.tail q'.metadata.active_segment ≡ 0)
  unfolding rotate_segment
  rotate_segment-IsQueue q w older newer v done =
      let next = other q.metadata.active_segment in
      let d = saturating_add q.metadata.dropped_records (at q.count next) in
      let q₁ = (save_metadata fs (counted d q) w).1 in
      let w₁ = (save_metadata fs (counted d q) w).2 in
      let v₁ =
        save_metadata-IsQueue (counted d q) w older newer (counted-IsQueue d q w older newer v) in
      let is_same = save_metadata-queue fs (counted d q) w in
      let active : next ≡ other q₁.metadata.active_segment = rw is_same in
      let to_older = ap (saturating_add q.metadata.dropped_records) v.older_held.count_eq in
      elim (Bool-cases (ltb 0 (at q.count next))) [
        | inl some_older ↦ elim (Bool-cases (save_metadata fs (counted d q) w).0) [
          | inl saved ↦
              let done' : (switch_segment fs next q₁ w₁).0 ≡ true = ground arith in
              let s = switch_next-Switched q₁ w₁ older newer next v₁ active done' in
              rw (some_older, saved)
                (
                  s.0,
                  s.1 ∙ (ap (λ r. r.metadata.dropped_records) is_same ∙ to_older),
                  s.2 ∙ ap (λ r. r.segment_maximum_bytes) is_same,
                  s.3,
                )
          | inr unsaved ↦ absurd (ground arith)
        ]
        | inr none_older ↦
            let done' : (switch_segment fs next q w).0 ≡ true = ground arith in
            let s = switch_segment-Switched q w older newer v done' in
            rw none_older (
              s.0,
              s.1
                  ∙ (saturating_add_none q.metadata.dropped_records (at q.count next) none_older
                      ∙ to_older),
              s.2,
              s.3,
            )
      ]
