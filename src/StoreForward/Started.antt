-- ===== src/StoreForward/Started.antt =====
-- `begin` of logger/firmware/src/StoreForwardQueue.cpp on a mounted filesystem.

use devices.Prelude.{ℕ, ◌≤◌, ◌<◌, ◌≡◌, ◌≢◌, ◌⊎◌, refl, ap, ◌∙◌, true, List, arith, length, inl, inr}
use devices.StoreForward.Fs.{
  Fs, Segment, seg_zero, seg_one, segment_path, quarantine_path, metadata_path, IsFs,
  metadata_temporary_path, segment_repair_path, FilePath,
}
use devices.StoreForward.Format.{Metadata, other}
use devices.StoreForward.Types.{Queue}
use devices.StoreForward.Metadata.{load_metadata, save_metadata}
use devices.StoreForward.Saving.{save_metadata-queue, save_metadata-content}
use devices.StoreForward.Contents.{IsQueue, Holds-cast}
use devices.StoreForward.Held.{TwoHold, TwoHold-active-IsQueue, TwoHold-other-IsQueue}
use devices.StoreForward.Scan.{scan_segment}
use devices.StoreForward.Scanned.{EachByte}
use devices.StoreForward.Recovered.{SegmentScanned}
use devices.StoreForward.Recovery.{scan_segment-SegmentScanned}
use devices.StoreForward.Archive.{rejected_slots}
use devices.StoreForward.Begin.{
  remove_if_exists, count_quarantine, fresh_metadata, initial_metadata, count_rejected,
  scan_and_save, recover,
}

active_cases : (s : Segment) → (s ≡ seg_zero) ⊎ (s ≡ other seg_zero)
active_cases seg_zero = inl refl
active_cases seg_one = inr refl

module _ {W R : Type 0} (fs : Fs W R) {whole rest : R → List ℕ} {content : FilePath → W → List ℕ}
    (is_fs : IsFs fs whole rest content) where
  load_metadata-content : (p : FilePath) (w : W) → content p (load_metadata fs w).1 ≡ content p w
  unfolding load_metadata
  load_metadata-content p w = ground (arith, is_fs.open_read_keeps metadata_path p w)

  count_quarantine-content :
      (s : Segment) (m : Metadata) (p : FilePath) (w : W)
      → content p (count_quarantine fs s m w).1 ≡ content p w
  unfolding count_quarantine
  count_quarantine-content s m p w = ground (arith, is_fs.open_read_keeps (quarantine_path s) p w)

  fresh_metadata-content : (p : FilePath) (w : W) → content p (fresh_metadata fs w).1 ≡ content p w
  unfolding fresh_metadata
  fresh_metadata-content p w =
      count_quarantine-content seg_one _ p _ ∙ count_quarantine-content seg_zero _ p w

  initial_metadata-content :
      (p : FilePath) (w : W) → content p (initial_metadata fs w).1 ≡ content p w
  unfolding initial_metadata
  initial_metadata-content p w =
      let w₁ = (load_metadata fs w).1 in
      ground (arith, load_metadata-content p w, fresh_metadata-content p w₁)

  remove_if_exists-other :
      (p f : FilePath) (w : W) → p ≢ f → content f (remove_if_exists fs p w) ≡ content f w
  remove_if_exists-other p f w ne = ground (arith, is_fs.remove_other p f w ne)

  -- The two segments once both are scanned and the metadata is saved.
  scanned-TwoHold :
      (q q₁ q₂ : Queue) (w w₁ w₂ : W) (a b : List (List ℕ)) (n : ℕ)
      → SegmentScanned fs is_fs seg_zero q q₁ w w₁ a
      → SegmentScanned fs is_fs seg_one q₁ q₂ w₁ w₂ b
      → q.segment_maximum_bytes < 2147483648
      → ((s : Segment) → length (content (segment_path s) w) ≤ q.segment_maximum_bytes)
      → let (_, q₃, w₃) = save_metadata fs q₂ w₂ in
        TwoHold content (record q₃ { ready = true; rejected_records = n }) w₃ seg_zero a b
  scanned-TwoHold q q₁ q₂ w w₁ w₂ a b n v u bound fits =
      let zero_held = Holds-cast u.content_same u.head_same u.tail_same u.count_same v.held in
      let kept = λ (s : Segment). save_metadata-content fs is_fs s q₂ w₂ in
      let maximum = u.maximum_same ∙ v.maximum_same in
      rw (save_metadata-queue fs q₂ w₂) (record {
        first_held = Holds-cast (kept seg_zero) refl refl refl zero_held;
        second_held = Holds-cast (kept seg_one) refl refl refl u.held;
        is_ready = refl;
        bounded = rw maximum bound;
        first_fits = omega (
          arith,
          maximum,
          zero_held.tail_eq,
          ap (length {A = ℕ}) u.content_same,
          v.no_longer,
          fits seg_zero,
        );
        second_fits = omega (
          arith,
          maximum,
          u.held.tail_eq,
          u.no_longer,
          ap (length {A = ℕ}) v.content_same,
          fits seg_one,
        );
      })

  either_active :
      (q : Queue) (w : W) (a b : List (List ℕ))
      → TwoHold content q w seg_zero a b
      → (older : List (List ℕ)) × (newer : List (List ℕ)) × IsQueue content q w older newer
  either_active q w a b v = elim (active_cases q.metadata.active_segment) [
    | inl e ↦ (b, a, TwoHold-active-IsQueue content e v)
    | inr e ↦ (a, b, TwoHold-other-IsQueue content e v)
  ]

  module _ (reads : (r : R) → 0 < length (rest r) → length (fs.read 1 r).0 ≡ 1) where
    scan_and_save-IsQueue :
        (q : Queue) (w : W)
        → q.segment_maximum_bytes < 2147483648
        → ((s : Segment) → EachByte (content (segment_path s) w))
        → ((s : Segment) → length (content (segment_path s) w) ≤ q.segment_maximum_bytes)
        → (scan_and_save fs q w).0 ≡ true
        → let (_, q', w') = scan_and_save fs q w in
          (older : List (List ℕ)) × (newer : List (List ℕ)) × IsQueue content q' w' older newer
    unfolding scan_and_save
    scan_and_save-IsQueue q w bound bytes fits done =
        let x = scan_segment fs seg_zero q w in
        let y = scan_segment fs seg_one x.1 x.2 in
        let z = save_metadata fs y.1 y.2 in
        let zero_done : x.0 ≡ true = ground arith in
        let one_done : y.0 ≡ true = ground arith in
        let saved : z.0 ≡ true = ground arith in
        let (a, v) =
          scan_segment-SegmentScanned fs is_fs reads seg_zero q w (bytes seg_zero)
            (omega (arith, fits seg_zero)) zero_done in
        let same = v.content_same in
        let (b, u) =
          scan_segment-SegmentScanned fs is_fs reads seg_one x.1 x.2 (rw same (bytes seg_one))
            (rw same (omega (arith, fits seg_one))) one_done in
        let n = count_rejected fs rejected_slots 0 (record z.1 { ready = true }) z.2 in
        rw (zero_done, one_done, saved, scan_and_save)
          (either_active _ _ a b (scanned-TwoHold q x.1 y.1 w x.2 y.2 a b n v u bound fits))

    -- The part of `begin` on a mounted filesystem.
    pub recover-IsQueue :
        (q : Queue) (w : W)
        → q.segment_maximum_bytes < 2147483648
        → ((s : Segment) → EachByte (content (segment_path s) w))
        → ((s : Segment) → length (content (segment_path s) w) ≤ q.segment_maximum_bytes)
        → (recover fs q w).0 ≡ true
        → let (_, q', w') = recover fs q w in
          (older : List (List ℕ)) × (newer : List (List ℕ)) × IsQueue content q' w' older newer
    unfolding recover
    recover-IsQueue q w bound bytes fits done =
        let w₁ = remove_if_exists fs metadata_temporary_path w in
        let w₂ = remove_if_exists fs segment_repair_path w₁ in
        let m = (initial_metadata fs w₂).0 in
        let w₃ = (initial_metadata fs w₂).1 in
        let same = λ (s : Segment).
          initial_metadata-content (segment_path s) w₂
          ∙ (remove_if_exists-other segment_repair_path (segment_path s) w₁ (λ e. cc)
              ∙ remove_if_exists-other metadata_temporary_path (segment_path s) w (λ e. cc)) in
        scan_and_save-IsQueue (record q { metadata = m }) w₃ bound (λ s. rw (same s) (bytes s))
          (λ s. rw (same s) (fits s)) done
