-- ===== src/StoreForward/Recovered.antt =====
-- What a scan of logger/firmware/src/StoreForwardQueue.cpp makes of a segment, in the abstract view.

use devices.Prelude.{
  ℕ, ◌≤◌, ◌≡◌, ◌≢◌, refl, ap, ◌∙◌, true, List, [], ◌∷◌, arith, length, Bool-cases, inl, inr, ◌==◌,
}
use mathlib.Core.Path.{subst}
use devices.StoreForward.Fs.{Fs, FilePath, Segment, IsFs, segment_path, quarantine_path}
use devices.StoreForward.Format.{at, other}
use devices.StoreForward.Types.{Queue}
use devices.StoreForward.Contents.{SegmentHolds, Holds-cast, Holds-empty, at-put_self, at-put-other}
use devices.StoreForward.Saving.{
  truncate_segment-queue, truncate_segment-content, truncate_segment-other,
}
use devices.StoreForward.Segments.{truncate_segment}
use devices.StoreForward.Scan.{repair_tail, finish_scan}

module _ {W R : Type 0} (fs : Fs W R) {whole rest : R → List ℕ} {content : FilePath → W → List ℕ}
    (is_fs : IsFs fs whole rest content) where
  -- What a scan of a segment leaves: the segment holds records, and the other one is as it was.
  pub record SegmentScanned (s : Segment) (q q' : Queue) (w w' : W) (records : List (List ℕ))
      : Type 0 where
    pub held : SegmentHolds content q' w' s records
    pub active_same : q'.metadata.active_segment ≡ q.metadata.active_segment
    pub maximum_same : q'.segment_maximum_bytes ≡ q.segment_maximum_bytes
    pub head_same : at q'.metadata.head (other s) ≡ at q.metadata.head (other s)
    pub tail_same : at q'.tail (other s) ≡ at q.tail (other s)
    pub count_same : at q'.count (other s) ≡ at q.count (other s)
    pub content_same : content (segment_path (other s)) w' ≡ content (segment_path (other s)) w
    pub no_longer : length (content (segment_path s) w') ≤ length (content (segment_path s) w)

  pub truncated-SegmentScanned :
      (s : Segment) (q : Queue) (w : W)
      → (truncate_segment fs s q w).0 ≡ true
      → SegmentScanned s q (truncate_segment fs s q w).1 w (truncate_segment fs s q w).2 []
  truncated-SegmentScanned s q w done =
      let empty = truncate_segment-content fs is_fs s q w done in
      rw (truncate_segment-queue fs s q w done) (record {
        held =
            Holds-cast refl (at-put_self q.metadata.head s 0) (at-put_self q.tail s 0)
              (at-put_self q.count s 0) (Holds-empty empty);
        active_same = refl;
        maximum_same = refl;
        head_same = at-put-other q.metadata.head s 0;
        tail_same = at-put-other q.tail s 0;
        count_same = at-put-other q.count s 0;
        content_same = truncate_segment-other fs is_fs s q w;
        no_longer = omega (arith, ap (length {A = ℕ}) empty);
      })

  none_held : (ps : List (List ℕ)) → 0 ≡ length ps → [] ≡ ps
  none_held [] e = refl
  none_held (p ∷ ps) e = absurd (omega arith)

  pub finish_scan-SegmentScanned :
      (s : Segment) (q₀ q : Queue) (w₀ w : W) (records : List (List ℕ))
      → SegmentScanned s q₀ q w₀ w records
      → (finish_scan fs s q w).0 ≡ true
      → SegmentScanned s q₀ (finish_scan fs s q w).1 w₀ (finish_scan fs s q w).2 records
  unfolding finish_scan
  finish_scan-SegmentScanned s q₀ q w₀ w records v done = elim (Bool-cases (at q.count s == 0)) [
    | inr some_left ↦ rw (some_left, finish_scan) v
    | inl is_none ↦
        let t = truncated-SegmentScanned s q w (ground arith) in
        let empty = none_held records (ground (arith, v.held.count_eq)) in
        let emptied : SegmentScanned s q₀ (truncate_segment fs s q w).1 w₀
            (truncate_segment fs s q w).2 [] =
          record {
            held = t.held;
            active_same = t.active_same ∙ v.active_same;
            maximum_same = t.maximum_same ∙ v.maximum_same;
            head_same = t.head_same ∙ v.head_same;
            tail_same = t.tail_same ∙ v.tail_same;
            count_same = t.count_same ∙ v.count_same;
            content_same = t.content_same ∙ v.content_same;
            no_longer = omega (arith, t.no_longer, v.no_longer);
          } in
        rw (is_none, finish_scan)
          (subst
            (λ l.
              SegmentScanned s q₀ (truncate_segment fs s q w).1 w₀ (truncate_segment fs s q w).2 l)
            empty emptied)
  ]

  -- The quarantine file grows by what is no record, and by nothing else.
  pub finish_scan-quarantine :
      (s : Segment) (q : Queue) (w : W)
      → content (quarantine_path s) (finish_scan fs s q w).2 ≡ content (quarantine_path s) w
  unfolding finish_scan truncate_segment
  finish_scan-quarantine s q w =
      let p = segment_path s in
      let t = quarantine_path s in
      ground
        (arith, is_fs.open_write_other p t w (λ c. cc), is_fs.close_keeps p t (fs.open_write p w).1)

  -- The members that a repair leaves alone.
  pub repair_tail-queue :
      (s : Segment) (tail corrupt : ℕ) (q : Queue) (w : W)
      → let q' = (repair_tail fs s tail corrupt q w).1 in
        (q'.metadata.head ≡ q.metadata.head)
        × (q'.tail ≡ q.tail)
        × (q'.count ≡ q.count)
        × (q'.metadata.active_segment ≡ q.metadata.active_segment)
        × (q'.segment_maximum_bytes ≡ q.segment_maximum_bytes)
  unfolding repair_tail
  repair_tail-queue s tail corrupt q w =
      (ground arith, ground arith, ground arith, ground arith, ground arith)

  pub other_paths : (s : Segment) → segment_path s ≢ segment_path (other s)
  other_paths s e = ground arith

  pub pair_eq : {x : ℕ × ℕ} {a b : ℕ} → x.0 ≡ a → x.1 ≡ b → x ≡ (a, b)
  pair_eq e f = cc
