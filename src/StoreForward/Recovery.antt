-- ===== src/StoreForward/Recovery.antt =====
-- `scanSegment` of logger/firmware/src/StoreForwardQueue.cpp as a whole.
use Prim.Native.Nat.{min}
use devices.Prelude.{
  ℕ, ◌-◌, ◌<◌, ◌≡◌, refl, sym, ap, ◌∙◌, true, some, List, [], ◌∷◌, ◌++◌, arith, length,
  Option-cases, Bool-cases, inl, inr, ltb,
}
use mathlib.Core.Path.{subst}
use mathlib.Core.List.{append-nil}
use devices.StoreForward.Fs.{Fs, FilePath, Segment, IsFs, segment_path, quarantine_path}
use devices.StoreForward.Format.{at, other}
use devices.StoreForward.Types.{Queue}
use devices.StoreForward.Contents.{encode_records}
use devices.StoreForward.Segments.{truncate_segment}
use devices.StoreForward.Scan.{located, repair_tail, create_segment, scan_file, scan_segment}
use devices.StoreForward.Scanned.{EachByte}
use devices.StoreForward.Mended.{repair_tail-Repaired}
use devices.StoreForward.Recovered.{
  SegmentScanned, truncated-SegmentScanned, finish_scan-SegmentScanned, finish_scan-quarantine,
}
use devices.StoreForward.Found.{Located, walk-Located, located_whole, located_repaired}

module _ {W R : Type 0} (fs : Fs W R) {whole rest : R → List ℕ} {content : FilePath → W → List ℕ}
    (is_fs : IsFs fs whole rest content) where
  no_length : (l : List ℕ) → length l ≡ 0 → l ≡ []
  no_length [] e = refl
  no_length (x ∷ l) e = absurd (omega arith)

  -- The file has been scanned, the records are kept, and the torn bytes are in the quarantine.
  pub record FileScanned (s : Segment) (q q' : Queue) (w w' : W) (records : List (List ℕ))
      (torn : List ℕ) : Type 0 where
    pub scanned : SegmentScanned fs is_fs s q q' w w' records
    pub quarantined : content (quarantine_path s) w' ≡ content (quarantine_path s) w ++ torn

  scan_file-FileScanned :
      (s : Segment) (file : R) (q : Queue) (w : W) (v : Located fs is_fs s q w file)
      → let (done, q', w') = scan_file fs s file q w in
        done ≡ true → FileScanned s q q' w w' v.records v.torn
  unfolding scan_file
  scan_file-FileScanned s file q w v done =
      let size = fs.size file in
      let tail = length (v.skipped ++ encode_records v.records) in
      let q₁ = located s (length v.skipped) tail (length v.records) q in
      let less : size - tail ≡ length v.torn = omega (arith, v.size_eq) in
      elim (Bool-cases (ltb tail size)) [
        | inr at_end ↦
            let no_torn = no_length v.torn (ground (arith, v.size_eq)) in
            let t = quarantine_path s in
            rw (v.stop_eq, v.head_eq, at_end, scan_file)
              (record {
                scanned =
                    finish_scan-SegmentScanned fs is_fs s q q₁ w w v.records
                      (located_whole fs is_fs s q w file v no_torn)
                      (rw (v.stop_eq, v.head_eq, at_end, scan_file) at done);
                quarantined =
                    finish_scan-quarantine fs is_fs s q₁ w
                    ∙ (sym (append-nil (content t w)) ∙ ap (λ l. content t w ++ l) (sym no_torn));
              })
        | inl behind ↦
            let q₂ = (repair_tail fs s tail (length v.torn) q₁ w).1 in
            let w₂ = (repair_tail fs s tail (length v.torn) q₁ w).2 in
            elim (Bool-cases (repair_tail fs s tail (length v.torn) q₁ w).0) [
              | inr failed ↦
                  let undone = rw (v.stop_eq, v.head_eq, behind, less, failed, scan_file) at done in
                  absurd (cc)
              | inl repaired ↦
                  let rep =
                    repair_tail-Repaired fs is_fs s (v.skipped ++ encode_records v.records) v.torn
                      q₁ w v.content_eq in
                  rw (v.stop_eq, v.head_eq, behind, less, repaired, scan_file)
                    (record {
                      scanned =
                          finish_scan-SegmentScanned fs is_fs s q q₂ w w₂ v.records
                            (located_repaired fs is_fs s q w file v repaired)
                            (rw (v.stop_eq, v.head_eq, behind, less, repaired, scan_file) at done);
                      quarantined =
                          finish_scan-quarantine fs is_fs s q₂ w₂ ∙ rep.torn_moved repaired;
                    })
            ]
      ]

  -- Opening the file for reading changes none.
  after_open :
      (s : Segment) (q q' : Queue) (w w' : W) (records : List (List ℕ))
      → SegmentScanned fs is_fs s q q' (fs.open_read (segment_path s) w).1 w' records
      → SegmentScanned fs is_fs s q q' w w' records
  after_open s q q' w w' records a =
      let keeps = λ (f : FilePath). is_fs.open_read_keeps (segment_path s) f w in
      record {
        held = a.held;
        active_same = a.active_same;
        maximum_same = a.maximum_same;
        head_same = a.head_same;
        tail_same = a.tail_same;
        count_same = a.count_same;
        content_same = a.content_same ∙ keeps (segment_path (other s));
        no_longer = omega (arith, a.no_longer, ap (length {A = ℕ}) (keeps (segment_path s)));
      }

  create_segment_truncates :
      (s : Segment) (q : Queue) (w : W)
      → (create_segment fs s q w).0 ≡ true
      → create_segment fs s q w ≡ truncate_segment fs s q w
  unfolding create_segment truncate_segment
  create_segment_truncates s q w done = ground arith

  create_segment-SegmentScanned :
      (s : Segment) (q : Queue) (w : W)
      → (create_segment fs s q w).0 ≡ true
      → SegmentScanned fs is_fs s q (create_segment fs s q w).1 w (create_segment fs s q w).2 []
  create_segment-SegmentScanned s q w done =
      let e = create_segment_truncates s q w done in
      subst (λ x. SegmentScanned fs is_fs s q (x.1) w (x.2) []) (sym e)
        (truncated-SegmentScanned fs is_fs s q w (ap (λ x. x.0) (sym e) ∙ done))

  module _ (reads : (r : R) → 0 < length (rest r) → length (fs.read 1 r).0 ≡ 1) where
    -- A scan of a file that opens and reads, if it succeeds: the bytes before the replay head, then
    -- the records that the segment now holds, then the bytes that the quarantine file has gained
    -- make up the file. The other segment is as it was.
    pub scan_segment_recovers :
        (s : Segment) (q : Queue) (w : W) (file : R)
        → EachByte (content (segment_path s) w)
        → length (content (segment_path s) w) < 2147483648
        → (fs.open_read (segment_path s) w).0 ≡ some file
        → (scan_segment fs s q w).0 ≡ true
        → let (_, q', w') = scan_segment fs s q w in
          (skipped : List ℕ) × (records : List (List ℕ)) × (torn : List ℕ) × (content
              (segment_path s)
              w
            ≡ (skipped ++ encode_records records) ++ torn)
          × (length skipped ≡ min (at q.metadata.head s) (length (content (segment_path s) w)))
          × FileScanned s q q' w w' records torn
    unfolding scan_segment
    scan_segment_recovers s q w file bytes bound opened done =
        let p = segment_path s in
        let w₁ = (fs.open_read p w).1 in
        let keeps = is_fs.open_read_keeps p p w in
        let is_whole : whole file ≡ content p w₁ =
          is_fs.open_read_whole p w file opened ∙ sym keeps in
        let v =
          walk-Located fs is_fs reads s q w₁ file is_whole (rw keeps bytes) (rw keeps bound) in
        let done' : (scan_file fs s file q w₁).0 ≡ true = rw (opened, scan_segment) at done in
        let found = scan_file-FileScanned s file q w₁ v done' in
        let size : fs.size file ≡ length (content p w) =
          is_fs.reader.size_whole file ∙ ap (length {A = ℕ}) (is_whole ∙ keeps) in
        (
          v.skipped,
          v.records,
          v.torn,
          sym keeps ∙ v.content_eq,
          sym v.head_eq ∙ ap (λ n. min (at q.metadata.head s) n) size,
          rw (opened, scan_segment)
              (record {
                scanned = after_open s q _ w _ v.records found.scanned;
                quarantined =
                    found.quarantined
                    ∙ ap (λ l. l ++ v.torn) (is_fs.open_read_keeps p (quarantine_path s) w);
              }),
        )

    -- The same without the bytes, also where the file could not be opened and was created.
    pub scan_segment-SegmentScanned :
        (s : Segment) (q : Queue) (w : W)
        → EachByte (content (segment_path s) w)
        → length (content (segment_path s) w) < 2147483648
        → (scan_segment fs s q w).0 ≡ true
        → let (_, q', w') = scan_segment fs s q w in
          (records : List (List ℕ)) × SegmentScanned fs is_fs s q q' w w' records
    unfolding scan_segment
    scan_segment-SegmentScanned s q w bytes bound done =
        let w₁ = (fs.open_read (segment_path s) w).1 in
        elim (Option-cases (fs.open_read (segment_path s) w).0) [
          | inr (file, opened) ↦
              let v = scan_segment_recovers s q w file bytes bound opened done in (v.1, v.5.scanned)
          | inl missing ↦
              let done' : (create_segment fs s q w₁).0 ≡ true =
                rw (missing, scan_segment) at done in
              (
                [],
                rw (missing, scan_segment)
                    (after_open s q _ w _ [] (create_segment-SegmentScanned s q w₁ done')),
              )
        ]
