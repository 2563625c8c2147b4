-- ===== src/StoreForward/Reading.antt =====
-- Reading records back: what `peek` and `pop` see at the replay head of a segment file of
-- logger/firmware/src/StoreForwardQueue.cpp that holds well-formed records.
use Prim.Native.Nat.{min}
use devices.Prelude.{
  ℕ, zero, suc, ◌+◌, ◌-◌, ◌≤◌, ◌<◌, ◌^◌, ◌≡◌, refl, sym, ◌∙◌, Bool, some, List, [], ◌∷◌, ◌++◌,
  arith, length, append_split, length-append, Option-cases, inl, inr,
}
use mathlib.Core.List.{append_assoc}
use devices.Prelude.Words.{word32_bytes}
use devices.StoreForward.Fs.{Fs, IsReader}
use devices.StoreForward.Format.{
  RecordHeader, fnv_step, checksum, checksum_from, header_of, encode_header, decode_header,
  header_bytes, maximum_payload_bytes,
}
use devices.StoreForward.Queue.{read_payload, read_header}

-- A payload that the queue accepts.
abbrev pub IsPayload : List ℕ → Type 0
IsPayload p = (0 < length p) × (length p ≤ maximum_payload_bytes)

abbrev pub encode_record : List ℕ → List ℕ
encode_record p = encode_header (header_of p) ++ p

checksum_from-lt : (v : ℕ) (bs : List ℕ) → v < 2 ^ 32 → checksum_from v bs < 2 ^ 32
unfolding checksum_from
checksum_from-lt v [] h = h
checksum_from-lt v (b ∷ bs) h = checksum_from-lt (fnv_step v b) bs (omega arith)

pub checksum-lt : (bs : List ℕ) → checksum bs < 2 ^ 32
unfolding checksum
checksum-lt bs = checksum_from-lt 2166136261 bs (omega arith)

pub length-encode_header : (p : List ℕ) → length (encode_header (header_of p)) ≡ 12
unfolding encode_header header_of
length-encode_header p = refl

pub length-encode_record : (p : List ℕ) → length (encode_record p) ≡ 12 + length p
length-encode_record p =
    omega (arith, length-append (encode_header (header_of p)) p, length-encode_header p)

-- A record header survives being written and read back.
pub decode-encode_header :
    (p : List ℕ) → IsPayload p → decode_header (encode_header (header_of p)) ≡ some (header_of p)
unfolding decode_header encode_header header_of
decode-encode_header p v =
    let l = word32_bytes (length p) (omega arith) in
    let c = word32_bytes (checksum p) (checksum-lt p) in ground (arith, l, c)

-- A header is decoded from twelve bytes only.
decode_header-length : (b : List ℕ) {h : RecordHeader} → decode_header b ≡ some h → length b ≡ 12
unfolding decode_header
decode_header-length b e = ground arith

module _ {W R : Type 0} (fs : Fs W R) {whole rest : R → List ℕ}
    (reader : IsReader fs whole rest) where
  open reader use {read_rest, read_le}

  -- What the loop has read and what is left make up what there was.
  read_payload-rest :
      (more : R → Bool) (fuel n : ℕ) (acc : List ℕ) (r : R)
      → (read_payload fs more fuel n acc r).0 ++ rest (read_payload fs more fuel n acc r).1
        ≡ acc ++ rest r
  unfolding read_payload
  read_payload-rest more zero n acc r = refl
  read_payload-rest more (suc fuel) n acc r =
      let chunk = (fs.read (min 256 (n - length acc)) r).0 in
      let r' = (fs.read (min 256 (n - length acc)) r).1 in
      let ih = read_payload-rest more fuel n (acc ++ chunk) r' in
      ground (arith, ih, read_rest (min 256 (n - length acc)) r, append_assoc acc chunk (rest r'))

  -- Read to its full length from the head of the file, a payload is the one that was written.
  pub read_payload_written :
      (more : R → Bool) (fuel : ℕ) (r : R) (p later : List ℕ)
      → rest r ≡ p ++ later
      → length (read_payload fs more fuel (length p) [] r).0 ≡ length p
      → (read_payload fs more fuel (length p) [] r).0 ≡ p
  read_payload_written more fuel r p later e h =
      (append_split _ _ p later (read_payload-rest more fuel (length p) [] r ∙ e) h).0

  -- The file is then behind it.
  pub read_payload_behind :
      (more : R → Bool) (fuel : ℕ) (r : R) (p later : List ℕ)
      → rest r ≡ p ++ later
      → length (read_payload fs more fuel (length p) [] r).0 ≡ length p
      → rest (read_payload fs more fuel (length p) [] r).1 ≡ later
  read_payload_behind more fuel r p later e h =
      (append_split _ _ p later (read_payload-rest more fuel (length p) [] r ∙ e) h).1

  -- The bytes that a header was decoded from, at the start of a written record.
  header_bytes_written :
      (r : R) (p later : List ℕ) {h : RecordHeader}
      → rest r ≡ encode_record p ++ later
      → decode_header (fs.read header_bytes r).0 ≡ some h
      → ((fs.read header_bytes r).0 ≡ encode_header (header_of p))
        × (rest (fs.read header_bytes r).1 ≡ p ++ later)
  header_bytes_written r p later e found =
      append_split (fs.read header_bytes r).0 (rest (fs.read header_bytes r).1)
        (encode_header (header_of p)) (p ++ later)
        (sym (read_rest header_bytes r) ∙ (e ∙ append_assoc (encode_header (header_of p)) p later))
        (decode_header-length _ found ∙ sym (length-encode_header p))

  -- A header that is read at the start of a written record is that record's.
  pub read_header_written :
      (r : R) (p later : List ℕ) {h : RecordHeader}
      → IsPayload p
      → rest r ≡ encode_record p ++ later
      → (read_header fs r).0 ≡ some h
      → (h ≡ header_of p) × (rest (read_header fs r).1 ≡ p ++ later)
  read_header_written r p later {h = h} v e found =
      elim (Option-cases (decode_header (fs.read header_bytes r).0)) [
        | inl missing ↦ absurd (ground arith)
        | inr (h', decoded) ↦
            let (bytes, after) = header_bytes_written r p later e decoded in
            ground (arith, decode-encode_header p v)
      ]
