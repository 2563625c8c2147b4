-- ===== src/StoreForward/Walked.antt =====
-- The walk of `scanSegment` of logger/firmware/src/StoreForwardQueue.cpp over a segment file: it
-- counts valid records, one behind the other, and nothing else.
use devices.Prelude.{
  ℕ, zero, suc, ◌+◌, ◌≤◌, ◌<◌, ◌≡◌, refl, sym, ap, ◌∙◌, true, some, List, [], ◌∷◌, ◌++◌, arith,
  length, take, drop, length-append, length-take, drop-append, take-append-drop, Option-cases,
  Bool-cases, inl, inr, leb,
}
use devices.Prelude.Words.{u32}
use mathlib.Core.List.{append_assoc}
use mathlib.Core.Path.{subst}
use devices.StoreForward.Fs.{Fs, IsReader}
use devices.StoreForward.Format.{
  RecordHeader, checksum, header_of, encode_header, header_bytes, record_magic,
}
use devices.StoreForward.Queue.{read_header}
use devices.StoreForward.Reading.{IsPayload, encode_record, length-encode_record}
use devices.StoreForward.Contents.{encode_records, EachPayload}
use devices.StoreForward.Scan.{read_checksum, valid_record, scan_records}
use devices.StoreForward.Scanned.{
  EachByte, EachByte-append, read_checksum-whole, read_checksum-eq, read_header-file, header_found,
}

module _ {W R : Type 0} (fs : Fs W R) {whole rest : R → List ℕ} (reader : IsReader fs whole rest)
    (reads : (r : R) → 0 < length (rest r) → length (fs.read 1 r).0 ≡ 1) where
  open reader use {read_rest, read_whole, seek_rest, seek_whole}

  pub valid_record-whole :
      (size offset : ℕ) (r : R) → whole (valid_record fs size offset r).1 ≡ whole r
  unfolding valid_record
  valid_record-whole size offset r =
      let r₁ = (fs.seek offset r).1 in
      let r₂ = (read_header fs r₁).1 in
      let two : whole r₂ ≡ whole r =
        ap whole (read_header-file fs reader reads r₁)
        ∙ (read_whole header_bytes r₁ ∙ seek_whole offset r) in
      elim (Option-cases (read_header fs r₁).0) [
        | inl e ↦ ground (arith, two, seek_whole offset r)
        | inr (h, e) ↦ ground (
          arith,
          two,
          seek_whole offset r,
          read_checksum-whole fs reader reads h.length 2166136261 r₂,
        )
      ]

  -- The bytes behind a header that passed, when their checksum is the header's, are a payload, and
  -- header and payload are its record.
  record_read :
      (after behind : List ℕ) (r : R) (h : RecordHeader)
      → after ≡ encode_header h ++ behind
      → rest r ≡ behind
      → h.magic ≡ record_magic
      → h.length ≤ length behind
      → (read_checksum fs h.length 2166136261 r).0 ≡ h.checksum
      → (length (take h.length behind) ≡ h.length)
        × (after ≡ encode_record (take h.length behind) ++ drop h.length behind)
  unfolding header_of checksum
  record_read after behind r h e is_rest magic fits value =
      let p = take h.length behind in
      let later = drop h.length behind in
      let size : length p ≡ h.length = omega (arith, length-take h.length behind) in
      let split = take-append-drop h.length behind in
      let sum : checksum p ≡ h.checksum =
        sym (read_checksum-eq fs reader reads p later 2166136261 r (is_rest ∙ split))
        ∙ (ap (λ n. (read_checksum fs n 2166136261 r).0) size ∙ value) in
      let same : h ≡ header_of p = ground arith in
      (
        size,
        e
            ∙ (ap (λ l. encode_header h ++ l) split
                ∙ (sym (append_assoc (encode_header h) p later)
                    ∙ ap (λ k. (encode_header k ++ p) ++ later) same)),
      )

  -- A record that starts some bytes.
  pub record RecordAt (after : List ℕ) (n : ℕ) : Type 0 where
    pub payload : List ℕ
    pub later : List ℕ
    pub bytes_eq : after ≡ encode_record payload ++ later
    pub is_payload : IsPayload payload
    pub length_eq : n ≡ length payload

  valid_record-tests :
      (size offset n : ℕ) (r : R) (header : RecordHeader)
      → (read_header fs (fs.seek offset r).1).0 ≡ some header
      → (valid_record fs size offset r).0 ≡ some n
      → let file = (read_header fs (fs.seek offset r).1).1 in
        (leb (u32 (offset + (header_bytes + header.length))) size ≡ true)
        × ((read_checksum fs header.length 2166136261 file).0 ≡ header.checksum)
        × (n ≡ header.length)
  unfolding valid_record
  valid_record-tests size offset n r header found h = (ground arith, ground arith, ground arith)

  -- Where the walk finds a valid record, the file holds the record of a payload.
  valid_record-RecordAt :
      (before after : List ℕ) (r : R) (size n : ℕ)
      → whole r ≡ before ++ after
      → EachByte after
      → size ≡ length (before ++ after)
      → size < 2147483648
      → (valid_record fs size (length before) r).0 ≡ some n
      → RecordAt after n
  unfolding valid_record
  valid_record-RecordAt before after r size n e bytes is_size bound h =
      let r₁ = (fs.seek (length before) r).1 in
      let r₂ = (read_header fs r₁).1 in
      elim (Bool-cases (fs.seek (length before) r).0) [
        | inr lost ↦ absurd (ground arith)
        | inl sought ↦ elim (Option-cases (read_header fs r₁).0) [
          | inl missing ↦ absurd (ground arith)
          | inr (header, found) ↦
              let is_rest : rest r₁ ≡ after =
                seek_rest (length before) r sought
                ∙ (ap (drop (length before)) e ∙ drop-append before after) in
              let all =
                header_found fs reader reads r₁ (subst EachByte (sym is_rest) bytes) found in
              let parts : length after ≡ 12 + length (rest r₂) =
                ap length (sym is_rest ∙ all.0)
                ∙ (length-append (encode_header header) (rest r₂)
                    ∙ ap (λ k. k + length (rest r₂)) all.1) in
              let tested = valid_record-tests size (length before) n r header found h in
              let fits : header.length ≤ length (rest r₂) =
                ground (arith, tested.0, parts, length-append before after) in
              let made =
                record_read after (rest r₂) r₂ header (sym is_rest ∙ all.0) refl all.2 fits
                  tested.1 in
              record {
                payload = take header.length (rest r₂);
                later = drop header.length (rest r₂);
                bytes_eq = made.1;
                is_payload = (ground (arith, made.0), ground (arith, made.0));
                length_eq = tested.2 ∙ sym made.0;
              }
        ]
      ]

  -- The file with the border moved behind that record.
  record_next :
      (before after : List ℕ) (n : ℕ) (found : RecordAt after n)
      → EachByte after
      → let done = before ++ encode_record found.payload in
        (before ++ after ≡ done ++ found.later)
        × (length done ≡ length before + (12 + n))
        × (length after ≡ 12 + n + length found.later)
        × EachByte found.later
  record_next before after n found bytes =
      let p = found.payload in
      (
        ap (λ l. before ++ l) found.bytes_eq
            ∙ sym (append_assoc before (encode_record p) found.later),
        omega (
          arith,
          length-append before (encode_record p),
          length-encode_record p,
          found.length_eq,
        ),
        omega (
          arith,
          ap (length {A = ℕ}) found.bytes_eq,
          length-append (encode_record p) found.later,
          length-encode_record p,
          found.length_eq,
        ),
        (EachByte-append (encode_record p) found.later (subst EachByte found.bytes_eq bytes)).1,
      )

  -- The bytes behind the starting offset of a walk: the records that it counted, and what is left.
  pub record Walked (after : List ℕ) (offset count : ℕ) (stop : ℕ × ℕ) : Type 0 where
    pub records : List (List ℕ)
    pub torn : List ℕ
    pub bytes_eq : after ≡ encode_records records ++ torn
    pub payloads : EachPayload records
    pub offset_eq : stop.0 ≡ offset + length (encode_records records)
    pub count_eq : stop.1 ≡ count + length records

  Walked-none : (after : List ℕ) (offset count : ℕ) → Walked after offset count (offset, count)
  Walked-none after offset count = record {
    records = [];
    torn = after;
    bytes_eq = refl;
    payloads = tt;
    offset_eq = omega arith;
    count_eq = omega arith;
  }

  Walked-more :
      (after : List ℕ) (offset count n : ℕ) (stop : ℕ × ℕ) (found : RecordAt after n)
      → Walked found.later (offset + (12 + n)) (count + 1) stop
      → Walked after offset count stop
  Walked-more after offset count n stop found w = record {
    records = found.payload ∷ w.records;
    torn = w.torn;
    bytes_eq =
        found.bytes_eq
        ∙ (ap (λ l. encode_record found.payload ++ l) w.bytes_eq
            ∙ sym (append_assoc (encode_record found.payload) (encode_records w.records) w.torn));
    payloads = (found.is_payload, w.payloads);
    offset_eq = omega (
      arith,
      w.offset_eq,
      found.length_eq,
      length-append (encode_record found.payload) (encode_records w.records),
      length-encode_record found.payload,
    );
    count_eq = omega (arith, w.count_eq);
  }

  pub scan_records-Walked :
      (fuel : ℕ) (before after : List ℕ) (count : ℕ) (r : R) (size : ℕ)
      → whole r ≡ before ++ after
      → EachByte after
      → size ≡ length (before ++ after)
      → size < 2147483648
      → count + length after < 2147483648
      → Walked after (length before) count (scan_records fs fuel size (length before) count r)
  unfolding scan_records
  scan_records-Walked zero before after count r size e bytes is_size bound few =
      Walked-none after (length before) count
  scan_records-Walked (suc fuel) before after count r size e bytes is_size bound few =
      let offset = length before in
      let r' = (valid_record fs size offset r).1 in
      elim (Bool-cases (leb (u32 (offset + header_bytes)) size)) [
        | inr over ↦ rw (over, scan_records) (Walked-none after offset count)
        | inl under ↦ elim (Option-cases (valid_record fs size offset r).0) [
          | inl none_found ↦ rw (under, none_found, scan_records) (Walked-none after offset count)
          | inr (n, found) ↦
              let at_offset =
                valid_record-RecordAt before after r size n e bytes is_size bound found in
              let (whole_eq, done_eq, after_eq, later_bytes) =
                record_next before after n at_offset bytes in
              let done = before ++ encode_record at_offset.payload in
              let sum = length-append before after in
              let next : u32 (offset + (header_bytes + n)) ≡ offset + (12 + n) =
                omega (arith, sum, after_eq) in
              let counted : u32 (count + 1) ≡ count + 1 = omega arith in
              let ih =
                scan_records-Walked fuel done at_offset.later (count + 1) r' size
                  (valid_record-whole size offset r ∙ (e ∙ whole_eq)) later_bytes
                  (is_size ∙ ap (length {A = ℕ}) whole_eq) bound (omega (arith, after_eq)) in
              rw (under, found, scan_records, next, counted)
                (Walked-more after offset count n _ at_offset (rw done_eq at ih))
        ]
      ]
