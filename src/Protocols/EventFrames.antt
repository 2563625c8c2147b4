-- ===== src/Protocols/EventFrames.antt =====
-- The frames of shared/protocols/SystemEvents.h: an event in four parts of 20 bytes, and the
-- receiver that puts the parts together.
use devices.Prelude.{
  ℕ, ◌+◌, ◌-◌, ◌*◌, Bool, false, List, [], ◌∷◌, ◌++◌, length, get_or, take, drop, replicate, ◌&&◌,
  ◌||◌, not, ltb, ◌==◌, if◌then◌else◌,
}
use devices.Prelude.Words.{u8, put32, put16, word32}

-- The `code` is its 32 bytes.
pub record Event : Type 0 where
  pub boot : ℕ
  pub seq : ℕ
  pub ms : ℕ
  pub value : ℕ
  pub severity : ℕ
  pub code : List ℕ
  pub duration_ms : ℕ
  pub http_status : ℕ
  pub method : ℕ
  pub version : ℕ

-- The layout that `frame` cuts into parts.
abbrev pub event_bytes : Event → List ℕ
event_bytes e =
    u8 e.version
    ∷ u8 e.severity
    ∷ u8 e.method
    ∷ 0
    ∷ (put32 e.boot
        ++ (put32 e.seq
            ++ (put32 e.ms
                ++ (put32 e.value
                    ++ (put32 e.duration_ms
                        ++ (put16 e.http_status ++ (e.code ++ (0 ∷ 0 ∷ []))))))))

-- The piece of a part, filled up with zeros.
abbrev pub piece : List ℕ → ℕ → List ℕ
piece bytes part =
    let own = take 17 (drop (part * 17) bytes) in own ++ replicate (17 - length own) 0

unfoldable pub frame : Event → ℕ → List ℕ
frame e part =
    225 ∷ part ∷ u8 e.seq ∷ (if ltb part 4 then piece (event_bytes e) part else replicate 17 0)

pub record Receiver : Type 0 where
  pub bytes : List ℕ
  pub next : ℕ
  pub sequence : ℕ

abbrev pub fresh_receiver : Receiver
fresh_receiver = record { bytes = replicate 60 0; next = 0; sequence = 0 }

-- `memcpy` of `n` bytes to an offset.
abbrev pub overwrite : ℕ → ℕ → List ℕ → List ℕ → List ℕ
overwrite offset n source buffer = take offset buffer ++ (take n source ++ drop (offset + n) buffer)

abbrev pub word_of : ℕ → List ℕ → ℕ
word_of i b = word32 (get_or b i 0) (get_or b (i + 1) 0) (get_or b (i + 2) 0) (get_or b (i + 3) 0)

abbrev pub read_event : List ℕ → Event
read_event b = record {
  version = get_or b 0 0;
  severity = get_or b 1 0;
  method = get_or b 2 0;
  boot = word_of 4 b;
  seq = word_of 8 b;
  ms = word_of 12 b;
  value = word_of 16 b;
  duration_ms = word_of 20 b;
  http_status = get_or b 24 0 + 256 * get_or b 25 0;
  code = take 32 (drop 26 b);
}

-- The result, the event that the caller passed, and the receiver after a call.
unfoldable pub accept : List ℕ → Event → Receiver → Bool × Event × Receiver
accept incoming e r =
    let part = get_or incoming 1 0 in
    let next = if part == 0 then 0 else r.next in
    let sequence = if part == 0 then get_or incoming 2 0 else r.sequence in
    let offset = next * 17 in
    let n = if ltb 17 (60 - offset) then 17 else 60 - offset in
    let bytes = overwrite offset n (drop 3 incoming) r.bytes in
    let read = read_event bytes in
    if not (length incoming == 20) || (not (get_or incoming 0 0 == 225) || ltb 3 part)
    then (false, e, record r { next = 0 })
    else if not (part == next) || not (get_or incoming 2 0 == sequence)
    then (false, e, record r { next = 0; sequence = sequence })
    else if not (next + 1 == 4)
    then (false, e, record { bytes = bytes; next = next + 1; sequence = sequence })
    else (
      (read.version == 1) && (u8 read.seq == sequence),
      read,
      record { bytes = bytes; next = 0; sequence = sequence },
    )
