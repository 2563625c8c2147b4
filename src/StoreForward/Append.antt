-- ===== src/StoreForward/Append.antt =====
-- Appending to the active segment of logger/firmware/src/StoreForwardQueue.cpp.
use mathlib.Core.List.{append_assoc, append-nil}
use devices.Prelude.{
  ℕ, ◌+◌, ◌≤◌, ◌<◌, ◌≡◌, ◌≢◌, refl, sym, ap, ◌∙◌, true, List, [], ◌∷◌, ◌++◌, arith, length,
  length-append,
}
use devices.Prelude.Words.{u32}
use devices.StoreForward.Fs.{Fs, FilePath, IsFs, segment_path}
use devices.StoreForward.Format.{at, put, other, header_of, encode_header, header_bytes}
use devices.StoreForward.Types.{Queue}
use devices.StoreForward.Reading.{
  IsPayload, encode_record, length-encode_header, length-encode_record,
}
use devices.StoreForward.Contents.{
  encode_records, EachPayload, Holds, IsQueue, records_bytes, Holds-cast, at-put_self, at-put-other,
}
use devices.StoreForward.Queue.{append_record}

encode_records-snoc :
    (ps : List (List ℕ)) (p : List ℕ)
    → encode_records (ps ++ (p ∷ [])) ≡ encode_records ps ++ encode_record p
encode_records-snoc [] p = append-nil (encode_record p)
encode_records-snoc (x ∷ ps) p =
    ap (λ l. encode_record x ++ l) (encode_records-snoc ps p)
    ∙ sym (append_assoc (encode_record x) (encode_records ps) (encode_record p))

EachPayload-snoc :
    (ps : List (List ℕ)) (p : List ℕ) → EachPayload ps → IsPayload p → EachPayload (ps ++ (p ∷ []))
EachPayload-snoc [] p v h = (h, tt)
EachPayload-snoc (x ∷ ps) p v h = (v.0, EachPayload-snoc ps p v.1 h)

-- A segment with one record more at its end.
Holds-snoc :
    {bytes : List ℕ} {head tail count : ℕ} {ps : List (List ℕ)} (p : List ℕ)
    → Holds bytes head tail count ps
    → IsPayload p
    → tail + (12 + length p) < 2147483648
    → Holds
        (bytes ++ encode_record p)
        head
        (u32 (tail + (header_bytes + length p)))
        (u32 (count + 1))
        (ps ++ (p ∷ []))
Holds-snoc {bytes} {ps = ps} p v h small = record {
  skipped = v.skipped;
  bytes_eq =
      ap (λ l. l ++ encode_record p) v.bytes_eq
      ∙ (append_assoc v.skipped (encode_records ps) (encode_record p)
          ∙ ap (λ l. v.skipped ++ l) (sym (encode_records-snoc ps p)));
  head_eq = v.head_eq;
  tail_eq = omega (arith, v.tail_eq, length-append bytes (encode_record p), length-encode_record p);
  count_eq = omega (
    arith,
    v.count_eq,
    v.tail_eq,
    ap length v.bytes_eq,
    length-append v.skipped (encode_records ps),
    records_bytes ps v.payloads,
    length-append ps (p ∷ []),
  );
  payloads = EachPayload-snoc ps p v.payloads h;
}

module _ {W R : Type 0} (fs : Fs W R) where
  pub append_record-queue :
      (p : List ℕ) (q : Queue) (w : W)
      → (append_record fs p q w).0 ≡ true
      → (append_record fs p q w).1 ≡ record q {
        tail =
            put q.tail q.metadata.active_segment
              (u32 (at q.tail q.metadata.active_segment + (header_bytes + length p)));
        count =
            put q.count q.metadata.active_segment (u32 (at q.count q.metadata.active_segment + 1));
        last_error = "";
      }
  unfolding append_record
  append_record-queue p q w h = ground arith

module _ {W R : Type 0} (fs : Fs W R) {whole rest : R → List ℕ} {content : FilePath → W → List ℕ}
    (is_fs : IsFs fs whole rest content) where
  append_record-content :
      (p : List ℕ) (q : Queue) (w : W)
      → let s = segment_path q.metadata.active_segment in
        (append_record fs p q w).0 ≡ true
        → content s (append_record fs p q w).2 ≡ content s w ++ encode_record p
  unfolding append_record
  append_record-content p q w h =
      let s = segment_path q.metadata.active_segment in
      let bytes = encode_header (header_of p) in
      let w₁ = (fs.open_append s w).1 in
      let w₂ = (fs.write s bytes w₁).1 in
      let w₃ = (fs.write s p w₂).1 in
      ground (
        arith,
        is_fs.open_append_keeps s s w,
        is_fs.write_appends s bytes w₁,
        is_fs.write_appends s p w₂,
        is_fs.flush_keeps s s w₃,
        is_fs.close_keeps s s (fs.flush s w₃),
        length-encode_header p,
        append_assoc (content s w) bytes p,
      )

  append_record-other :
      (p : List ℕ) (q : Queue) (w : W) (r : FilePath)
      → segment_path q.metadata.active_segment ≢ r
      → content r (append_record fs p q w).2 ≡ content r w
  unfolding append_record
  append_record-other p q w r ne =
      let s = segment_path q.metadata.active_segment in
      let bytes = encode_header (header_of p) in
      let w₁ = (fs.open_append s w).1 in
      let w₂ = (fs.write s bytes w₁).1 in
      let w₃ = (fs.write s p w₂).1 in
      ground (
        arith,
        is_fs.open_append_keeps s r w,
        is_fs.write_other s r bytes w₁ ne,
        is_fs.write_other s r p w₂ ne,
        is_fs.flush_keeps s r w₂,
        is_fs.close_keeps s r (fs.flush s w₂),
        is_fs.flush_keeps s r w₃,
        is_fs.close_keeps s r (fs.flush s w₃),
      )

  -- With room in the active segment, a successful append puts the payload behind all others.
  pub append_record-IsQueue :
      (p : List ℕ) (q : Queue) (w : W) (older newer : List (List ℕ))
      → IsQueue content q w older newer
      → IsPayload p
      → at q.tail q.metadata.active_segment + (12 + length p) ≤ q.segment_maximum_bytes
      → (append_record fs p q w).0 ≡ true
      → IsQueue content
          (append_record fs p q w).1
          (append_record fs p q w).2
          older
          (newer ++ (p ∷ []))
  append_record-IsQueue p q w older newer v h room done =
      let s = q.metadata.active_segment in
      let is_same = append_record-queue fs p q w done in
      rw is_same (record {
        older_held =
            Holds-cast (append_record-other p q w (segment_path (other s)) (λ e. ground arith)) refl
              (at-put-other q.tail s _) (at-put-other q.count s _) v.older_held;
        newer_held =
            Holds-cast (append_record-content p q w done) refl (at-put_self q.tail s _)
              (at-put_self q.count s _) (Holds-snoc p v.newer_held h (omega arith));
        is_ready = v.is_ready;
        bounded = v.bounded;
        older_fits = rw (at-put-other q.tail s) v.older_fits;
        newer_fits = rw (at-put_self q.tail s) (omega arith);
      })
