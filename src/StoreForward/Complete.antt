-- ===== src/StoreForward/Complete.antt =====
-- The walk of `scanSegment` of logger/firmware/src/StoreForwardQueue.cpp ends, and over files that
-- read without fault it passes every record that is there.
use Prim.Native.Nat.{min}
use devices.Prelude.{
  ℕ, zero, suc, ◌+◌, ◌*◌, ◌≤◌, ◌<◌, ◌≡◌, refl, sym, ap, ◌∙◌, true, some, List, [], ◌∷◌, ◌++◌, arith,
  length, drop, append_split, length-append, drop-append, Option-cases, inl, inr, leb,
}
use devices.Prelude.Words.{u32}
use mathlib.Core.List.{append_assoc}
use devices.StoreForward.Fs.{Fs, IsReader}
use devices.StoreForward.Format.{checksum, header_of, encode_header, decode_header, header_bytes}
use devices.StoreForward.Queue.{read_header}
use devices.StoreForward.Reading.{
  IsPayload, encode_record, length-encode_record, length-encode_header, decode-encode_header,
}
use devices.StoreForward.Contents.{encode_records, EachPayload}
use devices.StoreForward.Scan.{valid_record, scan_records}
use devices.StoreForward.Scanned.{read_checksum-eq}
use devices.StoreForward.Walked.{valid_record-whole}

module _ {W R : Type 0} (fs : Fs W R) where
  -- A valid record lies within the file, and is of bounded length.
  valid_record-within :
      (size offset n : ℕ) (r : R)
      → offset ≤ size
      → size < 2147483648
      → (valid_record fs size offset r).0 ≡ some n
      → offset + (12 + n) ≤ size
  unfolding valid_record
  valid_record-within size offset n r h bound e = ground arith

  scan_records_over :
      (fuel size offset count : ℕ) (r : R)
      → size < offset + 12
      → offset ≤ size
      → size < 2147483648
      → scan_records fs fuel size offset count r ≡ (offset, count)
  unfolding scan_records
  scan_records_over zero size offset count r over h bound = refl
  scan_records_over (suc fuel) size offset count r over h bound = ground arith

  -- The walk never ends for want of fuel: the file size is enough of it, and more changes nothing.
  pub scan_records_enough :
      (fuel fuel' size offset count : ℕ) (r : R)
      → offset ≤ size
      → size < 2147483648
      → size ≤ offset + 12 * fuel
      → fuel ≤ fuel'
      → scan_records fs fuel' size offset count r ≡ scan_records fs fuel size offset count r
  unfolding scan_records
  scan_records_enough zero fuel' size offset count r h bound enough le =
      scan_records_over fuel' size offset count r (omega arith) h bound
  scan_records_enough (suc fuel) zero size offset count r h bound enough le = absurd (omega arith)
  scan_records_enough (suc fuel) (suc fuel') size offset count r h bound enough le =
      let r' = (valid_record fs size offset r).1 in
      elim (Option-cases (valid_record fs size offset r).0) [
        | inl none_found ↦ rw (none_found, scan_records) refl
        | inr (n, found) ↦
            let within = valid_record-within size offset n r h bound found in
            let next : u32 (offset + (header_bytes + n)) ≡ offset + (12 + n) =
              omega (arith, within) in
            let ih =
              scan_records_enough fuel fuel' size (offset + (12 + n)) (u32 (count + 1)) r' within
                bound (omega (arith, within)) (omega arith) in
            rw (found, scan_records, next, ih) refl
      ]

-- Files that read without fault: a seek within the file succeeds, and a read gives all it can.
pub record IsReliable {W R : Type 0} (fs : Fs W R) (whole rest : R → List ℕ) : Type 0 where
  pub seek_within : (n : ℕ) (r : R) → n ≤ length (whole r) → (fs.seek n r).0 ≡ true
  pub read_full : (n : ℕ) (r : R) → length (fs.read n r).0 ≡ min n (length (rest r))

module _ {W R : Type 0} (fs : Fs W R) {whole rest : R → List ℕ} (reader : IsReader fs whole rest)
    (reliable : IsReliable fs whole rest) where
  open reader use {read_rest, seek_rest}

  pub reads_one : (r : R) → 0 < length (rest r) → length (fs.read 1 r).0 ≡ 1
  reads_one r h = omega (arith, reliable.read_full 1 r)

  read_header-record :
      (p later : List ℕ) (r : R)
      → IsPayload p
      → rest r ≡ encode_record p ++ later
      → ((read_header fs r).0 ≡ some (header_of p)) × (rest (read_header fs r).1 ≡ p ++ later)
  unfolding header_of
  read_header-record p later r v e =
      let header = encode_header (header_of p) in
      let split = e ∙ append_assoc header p later in
      let size : length (rest r) ≡ 12 + length (p ++ later) =
        ap (length {A = ℕ}) split
        ∙ (length-append header (p ++ later)
            ∙ ap (λ k. k + length (p ++ later)) (length-encode_header p)) in
      let full : length (fs.read header_bytes r).0 ≡ length header =
        omega (arith, reliable.read_full header_bytes r, size, length-encode_header p) in
      let both =
        append_split (fs.read header_bytes r).0 (rest (fs.read header_bytes r).1) header
          (p ++ later) (sym (read_rest header_bytes r) ∙ split) full in
      let decoded = ap decode_header both.0 ∙ decode-encode_header p v in
      (ground arith, ground arith)

  -- At the record of a payload, the walk finds it.
  valid_record_written :
      (p before later : List ℕ) (r : R) (size : ℕ)
      → IsPayload p
      → whole r ≡ before ++ (encode_record p ++ later)
      → size ≡ length (before ++ (encode_record p ++ later))
      → size < 2147483648
      → (valid_record fs size (length before) r).0 ≡ some (length p)
  unfolding valid_record header_of checksum
  valid_record_written p before later r size v e is_size bound =
      let after = encode_record p ++ later in
      let r₁ = (fs.seek (length before) r).1 in
      let sum = length-append before after in
      let sum' = length-append (encode_record p) later in
      let sought =
        reliable.seek_within (length before) r (omega (arith, ap (length {A = ℕ}) e, sum)) in
      let is_rest : rest r₁ ≡ after =
        seek_rest (length before) r sought
        ∙ (ap (drop (length before)) e ∙ drop-append before after) in
      let header = read_header-record p later r₁ v is_rest in
      let value =
        read_checksum-eq fs reader reads_one p later 2166136261 (read_header fs r₁).1 header.1 in
      let fits : leb (u32 (length before + (header_bytes + length p))) size ≡ true =
        ground (arith, sum, sum', length-encode_record p) in
      ground arith

  -- A walk over records that are there counts each of them.
  pub scan_records_written :
      (ps : List (List ℕ)) (fuel : ℕ) (before : List ℕ) (count : ℕ) (r : R) (size : ℕ)
      → EachPayload ps
      → whole r ≡ before ++ encode_records ps
      → size ≡ length (before ++ encode_records ps)
      → size < 2147483648
      → count + length ps < 2147483648
      → length ps ≤ fuel
      → scan_records fs fuel size (length before) count r ≡ (size, count + length ps)
  unfolding scan_records
  scan_records_written [] fuel before count r size v e is_size bound few enough =
      let sum = length-append before (encode_records []) in
      let stop : length before ≡ size = omega (arith, sum) in
      scan_records_over fs fuel size (length before) count r (omega arith) (omega arith) bound
      ∙ ground (arith, stop)
  scan_records_written (p ∷ ps) zero before count r size v e is_size bound few enough =
      absurd (omega arith)
  scan_records_written (p ∷ ps) (suc fuel) before count r size v e is_size bound few enough =
      let offset = length before in
      let later = encode_records ps in
      let r' = (valid_record fs size offset r).1 in
      let found = valid_record_written p before later r size v.0 e is_size bound in
      let done = before ++ encode_record p in
      let border : before ++ (encode_record p ++ later) ≡ done ++ later =
        sym (append_assoc before (encode_record p) later) in
      let sum = length-append before (encode_record p) in
      let within : length done + length later ≡ size =
        sym (length-append done later) ∙ (ap (length {A = ℕ}) (sym border) ∙ sym is_size) in
      let one = length-encode_record p in
      let under : leb (u32 (offset + header_bytes)) size ≡ true = ground arith in
      let next : u32 (offset + (header_bytes + length p)) ≡ length done = omega arith in
      let counted : u32 (count + 1) ≡ count + 1 = omega arith in
      let ih =
        scan_records_written ps fuel done (count + 1) r' size v.1
          (valid_record-whole fs reader reads_one size offset r ∙ (e ∙ border))
          (is_size ∙ ap (length {A = ℕ}) border) bound (omega arith) (omega arith) in
      rw (under, found, scan_records, next, counted, ih) (ap (λ k. (size, k)) (omega arith))
