-- ===== src/StoreForward/Format.antt =====
-- The bytes of a queue record and of the metadata, as logger/firmware/src/StoreForwardQueue.cpp
-- lays them out on its little-endian target, and the FNV-1a checksum over them.
use Prim.Native.Nat.{bit_xor}
use devices.Prelude.{
  ℕ, ◌+◌, ◌*◌, Bool, Option, some, none, List, [], ◌∷◌, ◌++◌, ◌&&◌, not, length, take, get_or, leb,
  ◌==◌, if◌then◌else◌,
}
use devices.Prelude.Words.{u8, u32, put16, put32, word32}
use devices.StoreForward.Fs.{Segment, seg_zero, seg_one}

abbrev pub metadata_magic : ℕ
metadata_magic = 0x5346514D

abbrev pub metadata_version : ℕ
metadata_version = 2

abbrev pub record_magic : ℕ
record_magic = 0x53465131

abbrev pub maximum_payload_bytes : ℕ
maximum_payload_bytes = 4096

-- `sizeof(RecordHeader)`, `sizeof(Metadata)` and `sizeof(LegacyMetadataV1)`
abbrev pub header_bytes : ℕ
header_bytes = 12

abbrev pub metadata_bytes : ℕ
metadata_bytes = 32

abbrev pub legacy_metadata_bytes : ℕ
legacy_metadata_bytes = 24

-- One round of the checksum, and the loop over the bytes.
abbrev pub fnv_step : ℕ → ℕ → ℕ
fnv_step value byte = u32 (bit_xor value (u8 byte) * 16777619)

unfoldable pub checksum_from : ℕ → List ℕ → ℕ
checksum_from value [] = value
checksum_from value (byte ∷ bytes) = checksum_from (fnv_step value byte) bytes

unfoldable pub checksum : List ℕ → ℕ
unfolding checksum_from
checksum bytes = checksum_from 2166136261 bytes

pub record RecordHeader : Type 0 where
  pub magic : ℕ
  pub length : ℕ
  pub checksum : ℕ

unfoldable pub header_of : List ℕ → RecordHeader
header_of payload = record {
  magic = record_magic;
  length = length payload;
  checksum = checksum payload;
}

unfoldable pub encode_header : RecordHeader → List ℕ
encode_header h = put32 h.magic ++ (put32 h.length ++ put32 h.checksum)

-- The word and the half-word at an offset.
abbrev pub word_at : ℕ → List ℕ → ℕ
word_at i b = word32 (get_or b i 0) (get_or b (i + 1) 0) (get_or b (i + 2) 0) (get_or b (i + 3) 0)

abbrev pub half_at : ℕ → List ℕ → ℕ
half_at i b = get_or b i 0 + 256 * get_or b (i + 1) 0

-- What reading `sizeof(header)` bytes into a header gives, if it reads them all.
unfoldable pub decode_header : List ℕ → Option RecordHeader
decode_header b =
    if length b == header_bytes
    then some (record { magic = word_at 0 b; length = word_at 4 b; checksum = word_at 8 b })
    else none

-- The test on a header that `peek`, `peekBatch`, `pop` and `scanSegment` share.
abbrev pub header_valid : RecordHeader → Bool
header_valid h =
    (h.magic == record_magic) && (not (h.length == 0) && leb h.length maximum_payload_bytes)

-- One value for each of the two segments.
pub record Pair : Type 0 where
  pub zero : ℕ
  pub one : ℕ

abbrev pub at : Pair → Segment → ℕ
at p seg_zero = p.zero
at p seg_one = p.one

abbrev pub put : Pair → Segment → ℕ → Pair
put p seg_zero v = record p { zero = v }
put p seg_one v = record p { one = v }

abbrev pub other : Segment → Segment
other seg_zero = seg_one
other seg_one = seg_zero

abbrev pub segment_byte : Segment → ℕ
segment_byte seg_zero = 0
segment_byte seg_one = 1

-- `activeSegment < 2`
abbrev pub segment_of : ℕ → Option Segment
segment_of b = if b == 0 then some seg_zero else if b == 1 then some seg_one else none

-- The magic, the version and the checksum are written by `saveMetadata` alone.
pub record Metadata : Type 0 where
  pub active_segment : Segment
  pub reserved : ℕ
  pub head : Pair
  pub dropped_records : ℕ
  pub corruption_events : ℕ
  pub quarantined_bytes : ℕ

-- `metadata_ = {}`
abbrev pub empty_metadata : Metadata
empty_metadata = record {
  active_segment = seg_zero;
  reserved = 0;
  head = record { zero = 0; one = 0 };
  dropped_records = 0;
  corruption_events = 0;
  quarantined_bytes = 0;
}

-- The bytes before the checksum.
pub metadata_body : Metadata → List ℕ
metadata_body m =
    put32 metadata_magic
    ++ (put16 metadata_version
        ++ ((segment_byte m.active_segment ∷ u8 m.reserved ∷ [])
            ++ (put32 m.head.zero
                ++ (put32 m.head.one
                    ++ (put32 m.dropped_records
                        ++ (put32 m.corruption_events ++ put32 m.quarantined_bytes))))))

unfoldable pub encode_metadata : Metadata → List ℕ
unfolding metadata_body
encode_metadata m = metadata_body m ++ put32 (checksum (metadata_body m))

-- The tests of `loadMetadata` on a current file, and what it then holds.
unfoldable pub decode_metadata : List ℕ → Option Metadata
decode_metadata b =
    if (word_at 0 b == metadata_magic)
      && ((half_at 4 b == metadata_version) && (word_at 28 b == checksum (take 28 b)))
    then elim (segment_of (get_or b 6 0)) [
      | some segment ↦ some (record {
        active_segment = segment;
        reserved = get_or b 7 0;
        head = record { zero = word_at 8 b; one = word_at 12 b };
        dropped_records = word_at 16 b;
        corruption_events = word_at 20 b;
        quarantined_bytes = word_at 24 b;
      })
      | none ↦ none
    ]
    else none

-- The same on a version 1 file, which had no corruption counters and no flag byte.
unfoldable pub decode_legacy : List ℕ → Option Metadata
decode_legacy b =
    if (word_at 0 b == metadata_magic)
      && ((half_at 4 b == 1) && (word_at 20 b == checksum (take 20 b)))
    then elim (segment_of (get_or b 6 0)) [
      | some segment ↦ some (record empty_metadata {
        active_segment = segment;
        head = record { zero = word_at 8 b; one = word_at 12 b };
        dropped_records = word_at 16 b;
      })
      | none ↦ none
    ]
    else none
