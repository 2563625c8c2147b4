-- ===== src/StoreForward/Archive.antt =====
-- logger/firmware/src/RejectedUploads.cpp: the archive of payloads that the server has rejected, in
-- numbered files.
use Prim.Native.String.{String}
use devices.Prelude.{
  ℕ, zero, suc, ◌+◌, ◌-◌, ◌^◌, Bool, true, false, Option, some, none, List, [], ◌++◌, ◌&&◌, ◌||◌,
  not, length, leb, ltb, ◌==◌, bytes_eq, if◌then◌else◌, ℤ, pos, negsuc,
}
use devices.Prelude.Words.{u32, put32}
use devices.Https.Recovery.{payload_rejected}
use devices.StoreForward.Fs.{Fs, FilePath, rejected_path, rejected_temporary_path}
use devices.StoreForward.Format.{word_at, checksum, maximum_payload_bytes}
use devices.StoreForward.Types.{Queue}
use devices.StoreForward.Queue.{fail, read_payload}

abbrev pub rejected_magic : ℕ
rejected_magic = 0x52454A31

abbrev pub rejected_slots : ℕ
rejected_slots = 16

-- `sizeof(Header)`
abbrev pub rejected_header_bytes : ℕ
rejected_header_bytes = 16

-- The conversions between `int` and `uint32_t`.
abbrev pub to_word : ℤ → ℕ
to_word (pos n) = u32 n
to_word (negsuc n) = 2 ^ 32 - 1 - u32 n

abbrev pub from_word : ℕ → ℤ
from_word w = if ltb w (2 ^ 31) then pos w else negsuc (2 ^ 32 - 1 - w)

pub record RejectedHeader : Type 0 where
  pub magic : ℕ
  pub length : ℕ
  pub checksum : ℕ
  pub http_status : ℕ

unfoldable pub rejected_header_of : List ℕ → ℤ → RejectedHeader
rejected_header_of payload status = record {
  magic = rejected_magic;
  length = length payload;
  checksum = checksum payload;
  http_status = to_word status;
}

unfoldable pub encode_rejected_header : RejectedHeader → List ℕ
encode_rejected_header h =
    put32 h.magic ++ (put32 h.length ++ (put32 h.checksum ++ put32 h.http_status))

unfoldable pub decode_rejected_header : List ℕ → Option RejectedHeader
decode_rejected_header b =
    if length b == rejected_header_bytes
    then some (record {
      magic = word_at 0 b;
      length = word_at 4 b;
      checksum = word_at 8 b;
      http_status = word_at 12 b;
    })
    else none

-- The test on a header, against the size of its file.
abbrev pub rejected_header_valid : ℕ → RejectedHeader → Bool
rejected_header_valid size h =
    (h.magic == rejected_magic)
    && (not (h.length == 0)
        && (leb h.length maximum_payload_bytes && (size == rejected_header_bytes + h.length)))

-- `if (freeSlot == kRejectedSlots) freeSlot = slot`
abbrev pub first_free : Option ℕ → ℕ → Option ℕ
first_free none slot = some slot
first_free (some f) slot = some f

-- Whether what a slot gave is the payload.
abbrev pub is_saved : List ℕ → Option (List ℕ × ℤ) → Bool
is_saved payload none = false
is_saved payload (some (saved, status)) = bytes_eq saved payload

-- What was read back is what was written.
abbrev pub is_verified : List ℕ → ℤ → Option (List ℕ × RejectedHeader) → Bool
is_verified payload status none = false
is_verified payload status (some (saved, h)) =
    bytes_eq saved payload
    && ((h.checksum == checksum payload) && (h.http_status == to_word status))

-- The first guard of `preserveRejected`.
unfoldable pub refused : List ℕ → ℤ → Queue → Bool
refused payload status q =
    not q.ready
    || ((length payload == 0)
        || (ltb maximum_payload_bytes (length payload) || not (payload_rejected status)))

module _ {W R : Type 0} (fs : Fs W R) where
  -- Its payload loop gives up where a read gives nothing; it then has fewer bytes than it wants.
  unfoldable pub read_file : R → Option (List ℕ × RejectedHeader)
  read_file file =
      let (bytes, file₁) = fs.read rejected_header_bytes file in
      elim (decode_rejected_header bytes) [
        | none ↦ none
        | some h ↦
            let (payload, _) = read_payload fs (λ r. true) h.length h.length [] file₁ in
            if rejected_header_valid (fs.size file) h && (length payload == h.length)
            then some (payload, h)
            else none
      ]

  unfoldable pub read_path : FilePath → W → Option (List ℕ × RejectedHeader) × W
  read_path path w =
      let (opened, w₁) = fs.open_read path w in
      elim opened [ none ↦ (none, w₁) | some file ↦ (read_file file, w₁) ]

  abbrev pub rejected_slot_present : ℕ → Queue → W → Bool
  rejected_slot_present slot q w =
      q.ready && (ltb slot rejected_slots && fs.exists (rejected_path slot) w)

  -- The payload and the status that a slot holds.
  unfoldable pub read_rejected : ℕ → Queue → W → Option (List ℕ × ℤ) × W
  read_rejected slot q w =
      let (found, w₁) = read_path (rejected_path slot) w in
      if q.ready && ltb slot rejected_slots
      then elim found [
        | none ↦ (none, w₁)
        | some (payload, h) ↦ (
          if checksum payload == h.checksum then some (payload, from_word h.http_status) else none,
          w₁,
        )
      ]
      else (none, w)

  -- The loop of `preserveRejected` over so many slots: whether the payload is in one of them, and the
  -- first free one.
  unfoldable pub find_slot : List ℕ → Queue → ℕ → ℕ → Option ℕ → W → Bool × Option ℕ × W
  find_slot payload q zero slot free w = (false, free, w)
  find_slot payload q (suc n) slot free w =
      let (saved, w₁) = read_rejected slot q w in
      elim (rejected_slot_present slot q w) [
        | false ↦ find_slot payload q n (slot + 1) (first_free free slot) w
        | true ↦ elim (is_saved payload saved) [
          | true ↦ (true, free, w₁)
          | false ↦ find_slot payload q n (slot + 1) free w₁
        ]
      ]

  -- The header and the payload, written to the temporary file.
  unfoldable pub write_rejected : List ℕ → ℤ → W → Bool × W
  write_rejected payload status w =
      let path = rejected_temporary_path in
      let (opened, w₁) = fs.open_write path w in
      let header = encode_rejected_header (rejected_header_of payload status) in
      let (header_written, w₂) = fs.write path header w₁ in
      let (payload_written, w₃) = fs.write path payload w₂ in
      let closed = λ (v : W). fs.close path (fs.flush path v) in
      if opened
      then (if header_written == rejected_header_bytes
          then (payload_written == length payload, closed w₃)
          else (false, closed w₂))
      else (false, closed w₁)

  -- The end of `preserveRejected`, with a free slot.
  unfoldable pub store_rejected : ℕ → List ℕ → ℤ → Queue → W → Bool × Queue × W
  store_rejected slot payload status q w =
      let message : String = "Rejected upload archive write failed; replay retained" in
      let (written, w₁) = write_rejected payload status w in
      let (found, w₂) = read_path rejected_temporary_path w₁ in
      let (renamed, w₃) = fs.rename rejected_temporary_path (rejected_path slot) w₂ in
      if written
      then (if is_verified payload status found
          then (if renamed
              then (
                true,
                record q { rejected_records = u32 (q.rejected_records + 1); last_error = "" },
                w₃,
              )
              else (false, fail q message, w₃))
          else (false, fail q message, w₂))
      else (false, fail q message, w₁)

  unfoldable pub preserve_rejected : List ℕ → ℤ → Queue → W → Bool × Queue × W
  preserve_rejected payload status q w =
      let (found, free, w₁) = find_slot payload q rejected_slots 0 none w in
      if refused payload status q
      then (false, fail q "Rejected upload cannot be archived; replay retained", w)
      else if found
      then (true, fail q "", w₁)
      else elim free [
        | none ↦ (
          false,
          fail q "Rejected upload archive full; replay retained; export recovery records",
          w₁,
        )
        | some slot ↦ store_rejected slot payload status q w₁
      ]
