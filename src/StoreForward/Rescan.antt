-- ===== src/StoreForward/Rescan.antt =====
-- `scanSegment` of logger/firmware/src/StoreForwardQueue.cpp over a segment that is in order.
use Prim.Native.Nat.{min}
use devices.Prelude.{
  ℕ, suc, ◌<◌, ◌≡◌, sym, ap, ◌∙◌, true, false, some, List, ◌∷◌, ◌++◌, arith, length, length-append,
  ltb,
}
use devices.StoreForward.Fs.{Fs, FilePath, Segment, IsFs, segment_path}
use devices.StoreForward.Format.{at}
use devices.StoreForward.Types.{Queue}
use devices.StoreForward.Contents.{encode_records, EachPayload, records_bytes, at-put_self}
use devices.StoreForward.Scan.{located, scan_records, finish_scan, scan_file, scan_segment}
use devices.StoreForward.Complete.{IsReliable, scan_records_written}

module _ {W R : Type 0} (fs : Fs W R) {whole rest : R → List ℕ} {content : FilePath → W → List ℕ}
    (is_fs : IsFs fs whole rest content) (reliable : IsReliable fs whole rest) where
  finish_scan_some :
      (s : Segment) (head tail n : ℕ) (q : Queue) (w : W)
      → let q₁ = located s head tail (suc n) q in finish_scan fs s q₁ w ≡ (true, q₁, w)
  unfolding finish_scan
  finish_scan_some s head tail n q w = ground (arith, at-put_self q.count s (suc n))

  -- On files that read without fault, a scan keeps every record: a segment file that holds records
  -- behind its replay head comes out with that head and all of them, and no file is changed. (A
  -- segment without a record is emptied.)
  pub scan_segment_keeps :
      (s : Segment) (q : Queue) (w : W) (file : R) (skipped : List ℕ) (p : List ℕ)
      (ps : List (List ℕ))
      → content (segment_path s) w ≡ skipped ++ encode_records (p ∷ ps)
      → at q.metadata.head s ≡ length skipped
      → EachPayload (p ∷ ps)
      → length (content (segment_path s) w) < 2147483648
      → (fs.open_read (segment_path s) w).0 ≡ some file
      → let tail = length (content (segment_path s) w) in
        scan_segment fs s q w ≡ (
          true,
          located s (length skipped) tail (suc (length ps)) q,
          (fs.open_read (segment_path s) w).1,
        )
  unfolding scan_segment scan_file
  scan_segment_keeps s q w file skipped p ps e at_head payloads bound opened =
      let path = segment_path s in
      let w₁ = (fs.open_read path w).1 in
      let records = encode_records (p ∷ ps) in
      let is_whole : whole file ≡ skipped ++ records =
        is_fs.open_read_whole path w file opened ∙ e in
      let size : fs.size file ≡ length (content path w) =
        is_fs.reader.size_whole file ∙ (ap (length {A = ℕ}) (is_whole ∙ sym e)) in
      let sum = ap (length {A = ℕ}) e ∙ length-append skipped records in
      let many = records_bytes (p ∷ ps) payloads in
      let head : min (at q.metadata.head s) (length (content path w)) ≡ length skipped =
        omega (arith, sum, at_head) in
      let n = length (content path w) in
      let walked : scan_records fs n n (length skipped) 0 file ≡ (n, suc (length ps)) =
        scan_records_written fs is_fs.reader reliable (p ∷ ps) n skipped 0 file n payloads is_whole
          (ap (length {A = ℕ}) e) bound (omega (arith, many, sum)) (omega (arith, many, sum))
        ∙ ap (λ k. (n, k)) (omega arith) in
      let not_short : ltb n n ≡ false = ground arith in
      rw (opened, scan_segment, scan_file, size, head, walked, not_short)
        (finish_scan_some s (length skipped) n (length ps) q w₁)
