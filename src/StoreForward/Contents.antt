-- ===== src/StoreForward/Contents.antt =====
-- The abstract view of the queue of logger/firmware/src/StoreForwardQueue.cpp: the payloads that
-- its two segment files hold beyond their committed heads, oldest first.

use devices.Prelude.Words.{u32}
use devices.Prelude.{
  ◌+◌, refl, ap, ◌∙◌, ℕ, suc, ◌*◌, ◌≤◌, ◌<◌, ◌^◌, ◌≡◌, sym, true, List, [], ◌∷◌, ◌++◌, arith,
  length, length-append,
}
use mathlib.Core.Path.{subst}
use devices.StoreForward.Fs.{FilePath, Segment, segment_path}
use devices.StoreForward.Format.{Pair, at, put, other}
use devices.StoreForward.Types.{Queue, pending_records, oldest_segment}
use devices.StoreForward.Reading.{IsPayload, encode_record, length-encode_record}

abbrev pub encode_records : List (List ℕ) → List ℕ
encode_records [] = []
encode_records (p ∷ ps) = encode_record p ++ encode_records ps

abbrev pub EachPayload : List (List ℕ) → Type 0
EachPayload [] = Unit
EachPayload (p ∷ ps) = IsPayload p × EachPayload ps

-- A segment file with the head, tail and count kept for it, and the payloads that are pending.
pub record Holds (bytes : List ℕ) (head tail count : ℕ) (records : List (List ℕ)) : Type 0 where
  pub skipped : List ℕ
  pub bytes_eq : bytes ≡ skipped ++ encode_records records
  pub head_eq : head ≡ length skipped
  pub tail_eq : tail ≡ length bytes
  pub count_eq : count ≡ length records
  pub payloads : EachPayload records

-- Each pending record takes at least thirteen bytes, so that no counter wraps.
pub records_bytes :
    (ps : List (List ℕ)) → EachPayload ps → 13 * length ps ≤ length (encode_records ps)
records_bytes [] v = omega arith
records_bytes (p ∷ ps) v = omega (
  arith,
  records_bytes ps v.1,
  length-append (encode_record p) (encode_records ps),
  length-encode_record p,
)

-- The same segment under equal members.
pub Holds-cast :
    {bytes bytes' : List ℕ} {head head' tail tail' count count' : ℕ} {ps : List (List ℕ)}
    → bytes' ≡ bytes
    → head' ≡ head
    → tail' ≡ tail
    → count' ≡ count
    → Holds bytes head tail count ps
    → Holds bytes' head' tail' count' ps
Holds-cast b h t c v = record {
  skipped = v.skipped;
  bytes_eq = b ∙ v.bytes_eq;
  head_eq = h ∙ v.head_eq;
  tail_eq = t ∙ (v.tail_eq ∙ ap length (sym b));
  count_eq = c ∙ v.count_eq;
  payloads = v.payloads;
}

-- An emptied segment.
pub Holds-empty : {bytes : List ℕ} → bytes ≡ [] → Holds bytes 0 0 0 []
Holds-empty e = record {
  skipped = [];
  bytes_eq = e;
  head_eq = refl;
  tail_eq = ap length (sym e);
  count_eq = refl;
  payloads = tt;
}

pub at-put_self : (p : Pair) (s : Segment) (v : ℕ) → at (put p s v) s ≡ v
at-put_self p s v = ground arith

pub at-put-other : (p : Pair) (s : Segment) (v : ℕ) → at (put p s v) (other s) ≡ at p (other s)
at-put-other p s v = ground arith

pub at-put_back : (p : Pair) (s : Segment) (v : ℕ) → at (put p (other s) v) s ≡ at p s
at-put_back p s v = ground arith

pub other-other : (s : Segment) → other (other s) ≡ s
other-other s = ground arith

pub oldest_segment_active :
    (q : Queue)
    → at q.count (other q.metadata.active_segment) ≡ 0
    → oldest_segment q ≡ q.metadata.active_segment
oldest_segment_active q h = ground arith

pub oldest_segment_inactive :
    (q : Queue) (n : ℕ)
    → at q.count (other q.metadata.active_segment) ≡ suc n
    → oldest_segment q ≡ other q.metadata.active_segment
oldest_segment_inactive q n h = ground arith

pending_records_sum :
    (q : Queue)
    → pending_records q
      ≡ u32 (at q.count (other q.metadata.active_segment) + at q.count q.metadata.active_segment)
pending_records_sum q = ground arith

module _ {W : Type 0} (content : FilePath → W → List ℕ) where
  abbrev pub SegmentHolds : Queue → W → Segment → List (List ℕ) → Type 0
  SegmentHolds q w s records =
      Holds (content (segment_path s) w) (at q.metadata.head s) (at q.tail s) (at q.count s) records

  -- The queue is ready, its files hold `older` in the inactive segment and `newer` in the active
  -- one, and both fit their bound.
  pub record IsQueue (q : Queue) (w : W) (older newer : List (List ℕ)) : Type 0 where
    pub older_held : SegmentHolds q w (other q.metadata.active_segment) older
    pub newer_held : SegmentHolds q w q.metadata.active_segment newer
    pub is_ready : q.ready ≡ true
    pub bounded : q.segment_maximum_bytes < 2 ^ 31
    pub older_fits : at q.tail (other q.metadata.active_segment) ≤ q.segment_maximum_bytes
    pub newer_fits : at q.tail q.metadata.active_segment ≤ q.segment_maximum_bytes

  -- The payloads of the segment that is read first.
  abbrev pub first_records : List (List ℕ) → List (List ℕ) → List (List ℕ)
  first_records [] newer = newer
  first_records (p ∷ ps) newer = p ∷ ps

  -- `oldestSegment` is the segment that holds the oldest pending payload.
  pub oldest_segment-holds :
      (q : Queue) (w : W) (older newer : List (List ℕ))
      → IsQueue q w older newer
      → SegmentHolds q w (oldest_segment q) (first_records older newer)
  oldest_segment-holds q w [] newer v =
      subst (λ s. SegmentHolds q w s newer) (sym (oldest_segment_active q v.older_held.count_eq))
        v.newer_held
  oldest_segment-holds q w (p ∷ ps) newer v =
      subst (λ s. SegmentHolds q w s (p ∷ ps))
        (sym (oldest_segment_inactive q (length ps) v.older_held.count_eq)) v.older_held

  -- `pendingRecords` counts the payloads: its sum does not wrap.
  pub pending_records-eq :
      (q : Queue) (w : W) (older newer : List (List ℕ))
      → IsQueue q w older newer
      → pending_records q ≡ length older + length newer
  pending_records-eq q w older newer v =
      let old = v.older_held in
      let new = v.newer_held in
      ground (
        arith,
        records_bytes older old.payloads,
        records_bytes newer new.payloads,
        length-append old.skipped (encode_records older),
        length-append new.skipped (encode_records newer),
        pending_records_sum q,
      )
