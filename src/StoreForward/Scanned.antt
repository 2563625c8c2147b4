-- ===== src/StoreForward/Scanned.antt =====
-- Single headers and checksums that `scanSegment` of logger/firmware/src/StoreForwardQueue.cpp reads.
use devices.Prelude.{
  ℕ, zero, suc, ◌+◌, ◌/◌, ◌%◌, ◌≤◌, ◌<◌, ◌≡◌, ◌⊎◌, refl, sym, ap, ◌∙◌, some, List, [], ◌∷◌, ◌++◌,
  arith, length, drop, append_split, Option-cases, inl, inr,
}
use devices.Prelude.Words.{word32, put32}
use mathlib.Core.Path.{subst}
use devices.StoreForward.Fs.{Fs, IsReader}
use devices.StoreForward.Format.{
  RecordHeader, fnv_step, checksum_from, encode_header, decode_header, word_at, header_bytes,
  maximum_payload_bytes, record_magic,
}
use devices.StoreForward.Queue.{read_header}
use devices.StoreForward.Scan.{read_checksum}

-- The values are bytes.
abbrev pub EachByte : List ℕ → Type 0
EachByte [] = Unit
EachByte (b ∷ bs) = (b < 256) × EachByte bs

pub EachByte-append : (xs ys : List ℕ) → EachByte (xs ++ ys) → EachByte xs × EachByte ys
EachByte-append [] ys v = (tt, v)
EachByte-append (x ∷ xs) ys v = let (a, b) = EachByte-append xs ys v.1 in ((v.0, a), b)

pub put32-word32 :
    (a b c d : ℕ)
    → a < 256
    → b < 256
    → c < 256
    → d < 256
    → put32 (word32 a b c d) ≡ a ∷ b ∷ c ∷ d ∷ []
put32-word32 a b c d ha hb hc hd =
    let e0 : word32 a b c d % 256 ≡ a = omega arith in
    let e1 : word32 a b c d / 256 % 256 ≡ b = omega arith in
    let e2 : word32 a b c d / 65536 % 256 ≡ c = omega arith in
    let e3 : word32 a b c d / 16777216 % 256 ≡ d = omega arith in rw (e0, e1, e2, e3) refl

pub none_left : (l : List ℕ) → length l ≡ 0 → l ≡ []
none_left [] h = refl
none_left (x ∷ l) h = absurd (omega arith)

list_cases : (l : List ℕ) → (l ≡ []) ⊎ (x : ℕ) × (xs : List ℕ) × (l ≡ x ∷ xs)
list_cases [] = inl refl
list_cases (x ∷ xs) = inr (x, xs, refl)

-- A list of bytes begins with the word that is read from it.
split_word :
    (n : ℕ) (b : List ℕ)
    → length b ≡ 4 + n
    → EachByte b
    → (put32 (word_at 0 b) ++ drop 4 b ≡ b)
      × (length (drop 4 b) ≡ n)
      × EachByte (drop 4 b)
      × (word_at 4 b ≡ word_at 0 (drop 4 b))
      × (word_at 8 b ≡ word_at 4 (drop 4 b))
split_word n [] h v = absurd (omega arith)
split_word n (a ∷ []) h v = absurd (omega arith)
split_word n (a ∷ b ∷ []) h v = absurd (omega arith)
split_word n (a ∷ b ∷ c ∷ []) h v = absurd (omega arith)
split_word n (a ∷ b ∷ c ∷ d ∷ l) h v = (
  ap (λ x. x ++ l) (put32-word32 a b c d v.0 v.1.0 v.1.1.0 v.1.1.1.0),
  omega arith,
  v.1.1.1.1,
  refl,
  refl,
)

-- A header that is decoded from bytes is encoded to the same bytes.
decode_header-length : (b : List ℕ) {h : RecordHeader} → decode_header b ≡ some h → length b ≡ 12
unfolding decode_header
decode_header-length b e = ground arith

decode_header-eq :
    (b : List ℕ) {h : RecordHeader}
    → decode_header b ≡ some h
    → h ≡ record { magic = word_at 0 b; length = word_at 4 b; checksum = word_at 8 b }
unfolding decode_header
decode_header-eq b e = ground arith

pub encode-decode_header :
    (b : List ℕ) {h : RecordHeader} → EachByte b → decode_header b ≡ some h → encode_header h ≡ b
unfolding encode_header
encode-decode_header b v e =
    let x = split_word 8 b (decode_header-length b e) v in
    let y = split_word 4 (drop 4 b) x.1 x.2 in
    let z = split_word 0 (drop 4 (drop 4 b)) y.1 y.2 in
    let third : put32 (word_at 8 b) ≡ drop 4 (drop 4 b) =
      ap put32 (x.4 ∙ y.3)
      ∙ (ap (λ l. put32 (word_at 0 (drop 4 (drop 4 b))) ++ l) (sym (none_left _ z.1)) ∙ z.0) in
    let second : put32 (word_at 4 b) ++ put32 (word_at 8 b) ≡ drop 4 b =
      ap (λ v. put32 v ++ put32 (word_at 8 b)) x.3
      ∙ (ap (λ l. put32 (word_at 0 (drop 4 b)) ++ l) third ∙ y.0) in
    rw (decode_header-eq b e) (ap (λ l. put32 (word_at 0 b) ++ l) second ∙ x.0)

-- `reads`: where a byte is left, reading one gives one.
module _ {W R : Type 0} (fs : Fs W R) {whole rest : R → List ℕ} (reader : IsReader fs whole rest)
    (reads : (r : R) → 0 < length (rest r) → length (fs.read 1 r).0 ≡ 1) where
  open reader use {read_rest, read_whole, seek_rest, seek_whole}

  pub read_checksum-whole : (n value : ℕ) (r : R) → whole (read_checksum fs n value r).1 ≡ whole r
  unfolding read_checksum
  read_checksum-whole zero value r = refl
  read_checksum-whole (suc n) value r = elim (list_cases (fs.read 1 r).0) [
    | inl e ↦ rw (e, read_checksum) (read_whole 1 r)
    | inr (b, bs, e) ↦
        rw (e, read_checksum)
          (read_checksum-whole n (fnv_step value b) (fs.read 1 r).1 ∙ read_whole 1 r)
  ]

  -- Read to its end, the loop computes the checksum of the bytes that follow.
  pub read_checksum-eq :
      (bytes later : List ℕ) (value : ℕ) (r : R)
      → rest r ≡ bytes ++ later
      → (read_checksum fs (length bytes) value r).0 ≡ checksum_from value bytes
  unfolding read_checksum checksum_from
  read_checksum-eq [] later value r e = refl
  read_checksum-eq (x ∷ bytes) later value r e = elim (list_cases (fs.read 1 r).0) [
    | inl missing ↦ absurd (ground (arith, reads r))
    | inr (b, bs, found) ↦
        let one = reads r (ground arith) in
        let all =
          append_split (fs.read 1 r).0 (rest (fs.read 1 r).1) (x ∷ []) (bytes ++ later)
            (sym (read_rest 1 r) ∙ e) one in
        rw (all.0, read_checksum)
          (read_checksum-eq bytes later (fnv_step value x) (fs.read 1 r).1 all.1)
  ]

  pub read_header-file : (r : R) → (read_header fs r).1 ≡ (fs.read header_bytes r).1
  read_header-file r = ground arith

  -- What a header that was read and passed the test says of the bytes.
  pub header_found :
      (r : R) {h : RecordHeader}
      → EachByte (rest r)
      → (read_header fs r).0 ≡ some h
      → (rest r ≡ encode_header h ++ rest (read_header fs r).1)
        × (length (encode_header h) ≡ 12)
        × (h.magic ≡ record_magic)
        × (0 < h.length)
        × (h.length ≤ maximum_payload_bytes)
  header_found r {h = h} v e = elim (Option-cases (decode_header (fs.read header_bytes r).0)) [
    | inl missing ↦ absurd (ground arith)
    | inr (h', decoded) ↦
        let split = read_rest header_bytes r in
        let bytes =
          EachByte-append (fs.read header_bytes r).0 (rest (fs.read header_bytes r).1)
            (subst EachByte split v) in
        let same : h' ≡ h = ground arith in
        let encoded = encode-decode_header _ bytes.0 (decoded ∙ ap some same) in
        let decoded_length = decode_header-length _ decoded in
        (
          rw (read_header-file r)
              (split ∙ ap (λ l. l ++ rest (fs.read header_bytes r).1) (sym encoded)),
          ap length encoded ∙ decoded_length,
          ground arith,
          ground arith,
          ground arith,
        )
  ]
