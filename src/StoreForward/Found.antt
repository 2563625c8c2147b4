-- ===== src/StoreForward/Found.antt =====
-- What the walk of `scanSegment` of logger/firmware/src/StoreForwardQueue.cpp leaves to do, and the segment after it.
use Prim.Native.Nat.{min}
use devices.Prelude.{
  ℕ, ◌+◌, ◌<◌, ◌≡◌, refl, sym, ap, ◌∙◌, true, List, [], ◌++◌, arith, length, take, drop,
  length-append, length-take, length-drop, take-append-drop,
}
use mathlib.Core.List.{append_assoc, append-nil}
use mathlib.Core.Path.{subst}
use devices.StoreForward.Fs.{Fs, FilePath, Segment, IsFs, segment_path}
use devices.StoreForward.Format.{at, other}
use devices.StoreForward.Types.{Queue}
use devices.StoreForward.Contents.{
  encode_records, EachPayload, SegmentHolds, Holds-cast, at-put_self, at-put-other,
}
use devices.StoreForward.Scan.{located, scan_records, repair_tail}
use devices.StoreForward.Scanned.{EachByte, EachByte-append}
use devices.StoreForward.Walked.{scan_records-Walked}
use devices.StoreForward.Mended.{repair_tail-Repaired}
use devices.StoreForward.Recovered.{SegmentScanned, repair_tail-queue, other_paths, pair_eq}

module _ {W R : Type 0} (fs : Fs W R) {whole rest : R → List ℕ} {content : FilePath → W → List ℕ}
    (is_fs : IsFs fs whole rest content) where
  -- What the walk has found, before the file is repaired: the records, and the torn rest.
  pub record Located (s : Segment) (q : Queue) (w : W) (file : R) : Type 0 where
    pub skipped : List ℕ
    pub records : List (List ℕ)
    pub torn : List ℕ
    pub content_eq : content (segment_path s) w ≡ (skipped ++ encode_records records) ++ torn
    pub head_eq : min (at q.metadata.head s) (fs.size file) ≡ length skipped
    pub payloads : EachPayload records
    pub stop_eq :
        scan_records fs
          (fs.size file)
          (fs.size file)
          (min (at q.metadata.head s) (fs.size file))
          0
          file
        ≡ (length (skipped ++ encode_records records), length records)
    pub size_eq : fs.size file ≡ length (skipped ++ encode_records records) + length torn

  module _ (reads : (r : R) → 0 < length (rest r) → length (fs.read 1 r).0 ≡ 1) where
    pub walk-Located :
        (s : Segment) (q : Queue) (w : W) (file : R)
        → whole file ≡ content (segment_path s) w
        → EachByte (content (segment_path s) w)
        → length (content (segment_path s) w) < 2147483648
        → Located s q w file
    walk-Located s q w file opened bytes bound =
        let size = fs.size file in
        let head = min (at q.metadata.head s) size in
        let c = content (segment_path s) w in
        let size_whole : size ≡ length c = is_fs.reader.size_whole file ∙ ap length opened in
        let before = take head c in
        let after = drop head c in
        let split = take-append-drop head c in
        let cut : length before ≡ head = omega (arith, length-take head c) in
        let behind = length-drop head c in
        let walked =
          scan_records-Walked fs is_fs.reader reads size before after 0 file size (opened ∙ split)
            (EachByte-append before after (subst EachByte split bytes)).1
            (size_whole ∙ ap length split) (omega arith) (omega (arith, behind)) in
        let valid = length-append before (encode_records walked.records) in
        record {
          skipped = before;
          records = walked.records;
          torn = walked.torn;
          content_eq =
              split
              ∙ (ap (λ l. before ++ l) walked.bytes_eq
                  ∙ sym (append_assoc before (encode_records walked.records) walked.torn));
          head_eq = sym cut;
          payloads = walked.payloads;
          stop_eq =
              ap (λ h. scan_records fs size size h 0 file) (sym cut)
              ∙ pair_eq fs is_fs (walked.offset_eq ∙ sym valid) (omega (arith, walked.count_eq));
          size_eq = omega (
            arith,
            valid,
            behind,
            ap (length {A = ℕ}) walked.bytes_eq,
            length-append (encode_records walked.records) walked.torn,
          );
        }

  located-Holds :
      (s : Segment) (q : Queue) (w : W) (file : R) (v : Located s q w file) (w' : W)
      → content (segment_path s) w' ≡ v.skipped ++ encode_records v.records
      → let valid = v.skipped ++ encode_records v.records in
        SegmentHolds content
          (located s (length v.skipped) (length valid) (length v.records) q)
          w'
          s
          v.records
  located-Holds s q w file v w' e = record {
    skipped = v.skipped;
    bytes_eq = e;
    head_eq = at-put_self q.metadata.head s (length v.skipped);
    tail_eq = at-put_self q.tail s _ ∙ ap length (sym e);
    count_eq = at-put_self q.count s (length v.records);
    payloads = v.payloads;
  }

  -- A file with no byte behind its last record.
  pub located_whole :
      (s : Segment) (q : Queue) (w : W) (file : R) (v : Located s q w file)
      → v.torn ≡ []
      → let valid = v.skipped ++ encode_records v.records in
        SegmentScanned fs is_fs s q
          (located s (length v.skipped) (length valid) (length v.records) q)
          w
          w
          v.records
  located_whole s q w file v e = record {
    held =
        located-Holds s q w file v w (
          v.content_eq ∙ (ap (λ l. (v.skipped ++ encode_records v.records) ++ l) e ∙ append-nil _));
    active_same = refl;
    maximum_same = refl;
    head_same = at-put-other q.metadata.head s _;
    tail_same = at-put-other q.tail s _;
    count_same = at-put-other q.count s _;
    content_same = refl;
    no_longer = omega arith;
  }

  -- A file whose tail was moved to the quarantine.
  pub located_repaired :
      (s : Segment) (q : Queue) (w : W) (file : R) (v : Located s q w file)
      → let valid = v.skipped ++ encode_records v.records in
        let (done, q', w') =
          repair_tail fs s
            (length valid)
            (length v.torn)
            (located s (length v.skipped) (length valid) (length v.records) q)
            w in
        done ≡ true → SegmentScanned fs is_fs s q q' w w' v.records
  located_repaired s q w file v done =
      let valid = v.skipped ++ encode_records v.records in
      let q₁ = located s (length v.skipped) (length valid) (length v.records) q in
      let rep = repair_tail-Repaired fs is_fs s valid v.torn q₁ w v.content_eq in
      let (heads, tails, counts, active, maximum) =
        repair_tail-queue fs is_fs s (length valid) (length v.torn) q₁ w in
      let kept = rep.prefix_kept done in
      record {
        held =
            Holds-cast refl (ap (λ p. at p s) heads) (ap (λ p. at p s) tails)
              (ap (λ p. at p s) counts) (located-Holds s q w file v _ kept);
        active_same = active;
        maximum_same = maximum;
        head_same = ap (λ p. at p (other s)) heads ∙ at-put-other q.metadata.head s _;
        tail_same = ap (λ p. at p (other s)) tails ∙ at-put-other q.tail s _;
        count_same = ap (λ p. at p (other s)) counts ∙ at-put-other q.count s _;
        content_same =
            rep.others_same (segment_path (other s)) (other_paths fs is_fs s) (λ c. cc) (λ c. cc);
        no_longer = omega (
          arith,
          ap (length {A = ℕ}) kept,
          ap (length {A = ℕ}) v.content_eq,
          length-append valid v.torn,
        );
      }
