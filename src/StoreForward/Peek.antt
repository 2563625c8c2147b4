-- ===== src/StoreForward/Peek.antt =====
-- `peek` of logger/firmware/src/StoreForwardQueue.cpp against the abstract view.

use devices.Prelude.{
  ℕ, ◌≡◌, sym, ap, some, none, List, [], ◌∷◌, ◌++◌, arith, length, drop-append, Option-cases, inl,
  inr,
}
use devices.StoreForward.Fs.{Fs, FilePath, IsFs, Segment, segment_path}
use devices.StoreForward.Format.{at, header_of}
use devices.StoreForward.Types.{Queue, pending_records, oldest_segment}
use devices.StoreForward.Reading.{
  IsPayload, encode_record, read_payload_written, read_header_written,
}
use devices.StoreForward.Queue.{read_header, open_at_head, peek_file, peek}
use devices.StoreForward.Contents.{
  encode_records, IsQueue, SegmentHolds, pending_records-eq, oldest_segment-holds,
}

module _ {W R : Type 0} (fs : Fs W R) {whole rest : R → List ℕ} {content : FilePath → W → List ℕ}
    (is_fs : IsFs fs whole rest content) where
  -- The file at the replay head of a segment stands before its pending records.
  pub open_at_head-rest :
      (s : Segment) (q : Queue) (w : W) (records : List (List ℕ)) {r : R}
      → SegmentHolds content q w s records
      → (open_at_head fs s q w).0 ≡ some r
      → rest r ≡ encode_records records
  open_at_head-rest s q w records h e = elim (Option-cases (fs.open_read (segment_path s) w).0) [
    | inl missing ↦ absurd (ground arith)
    | inr (file, opened) ↦ ground (
      arith,
      is_fs.reader.seek_rest (at q.metadata.head s) file,
      is_fs.open_read_whole (segment_path s) w file,
      drop-append h.skipped (encode_records records),
    )
  ]

  -- What `peek` reads at the start of a record is that record's payload.
  peek_file_written :
      (r : R) (q : Queue) (p later payload : List ℕ)
      → IsPayload p
      → rest r ≡ encode_record p ++ later
      → (peek_file fs r q).0 ≡ some payload
      → payload ≡ p
  unfolding peek_file header_of
  peek_file_written r q p later payload v e h = elim (Option-cases (read_header fs r).0) [
    | inl missing ↦ absurd (ground arith)
    | inr (header, found) ↦
        let (is_header, after) = read_header_written fs is_fs.reader r p later v e found in
        let read =
          read_payload_written fs is_fs.reader fs.available (length p) (read_header fs r).1 p later
            after in
        ground (arith, read)
  ]

  peek_first :
      (q : Queue) (w : W) (p : List ℕ) (ps : List (List ℕ)) (payload : List ℕ)
      → SegmentHolds content q w (oldest_segment q) (p ∷ ps)
      → (peek fs q w).0 ≡ some payload
      → payload ≡ p
  unfolding peek
  peek_first q w p ps payload v h = elim (Option-cases (open_at_head fs (oldest_segment q) q w).0) [
    | inl missing ↦ absurd (ground arith)
    | inr (file, opened) ↦
        let before = open_at_head-rest (oldest_segment q) q w (p ∷ ps) v opened in
        ground (arith, peek_file_written file q p (encode_records ps) payload v.payloads.0 before)
  ]

  peek-none_pending : (q : Queue) (w : W) → pending_records q ≡ 0 → (peek fs q w).0 ≡ none
  unfolding peek
  peek-none_pending q w h = ground arith

  -- A payload that `peek` delivers is the oldest pending one: it is the first of the records that
  -- the two segments hold, whatever reads fall short.
  pub peek_sound :
      (q : Queue) (w : W) (older newer : List (List ℕ)) {payload : List ℕ}
      → IsQueue content q w older newer
      → (peek fs q w).0 ≡ some payload
      → (later : List (List ℕ)) × (older ++ newer ≡ payload ∷ later)
  peek_sound q w [] [] v h =
      absurd (cc (peek-none_pending q w (pending_records-eq content q w [] [] v)))
  peek_sound q w [] (p ∷ ps) {payload = payload} v h = (
    ps,
    ap (λ x. x ∷ ps)
        (sym (peek_first q w p ps payload (oldest_segment-holds content q w [] (p ∷ ps) v) h)),
  )
  peek_sound q w (p ∷ ps) newer {payload = payload} v h = (
    ps ++ newer,
    ap (λ x. x ∷ (ps ++ newer))
        (sym (peek_first q w p ps payload (oldest_segment-holds content q w (p ∷ ps) newer v) h)),
  )
