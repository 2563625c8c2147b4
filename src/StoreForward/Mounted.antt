-- ===== src/StoreForward/Mounted.antt =====
-- `begin` of logger/firmware/src/StoreForwardQueue.cpp as a whole.
use Prim.Native.Nat.{min}
use devices.Prelude.{
  ℕ, ◌+◌, ◌-◌, ◌*◌, ◌/◌, ◌≤◌, ◌<◌, ◌≡◌, ◌≢◌, true, false, some, none, List, arith, length,
  replicate, leb, Bool-cases, inl, inr,
}
use devices.StoreForward.Fs.{Fs, Segment, segment_path, IsFs, FilePath}
use devices.StoreForward.Format.{header_bytes}
use devices.StoreForward.Types.{Queue}
use devices.StoreForward.Contents.{IsQueue}
use devices.StoreForward.Scanned.{EachByte}
use devices.StoreForward.Blank.{verify, verify_sound, ReadsPartition}
use devices.StoreForward.Begin.{
  Flash, find_partition, mount_or_format, size_and_recover, begin, filesystem_reserve_bytes,
}
use devices.StoreForward.Started.{recover-IsQueue}

module _ {W R : Type 0} (fs : Fs W R) {whole rest : R → List ℕ} {content : FilePath → W → List ℕ}
    (is_fs : IsFs fs whole rest content) where
  module _ {P : Type 0} (flash : Flash W P) where
    mount_or_format_mounted :
        (p : P) (w : W)
        → (flash.mount p w).0 ≡ true
        → ((mount_or_format fs flash p w).0 ≡ none)
          × ((mount_or_format fs flash p w).1 ≡ (flash.mount p w).1)
    unfolding mount_or_format
    mount_or_format_mounted p w h = (ground arith, ground arith)

    size_and_recover-IsQueue :
        ((r : R) → 0 < length (rest r) → length (fs.read 1 r).0 ≡ 1)
        → (maximum : ℕ) (q : Queue) (w : W) → maximum < 4294967296
        → ((s : Segment) → EachByte (content (segment_path s) w))
        → ((s : Segment)
            → length (content (segment_path s) w)
              ≤ min maximum (flash.total_bytes w - filesystem_reserve_bytes) / 2)
        → (size_and_recover fs flash maximum q w).0 ≡ true
        → let (_, q', w') = size_and_recover fs flash maximum q w in
          (older : List (List ℕ)) × (newer : List (List ℕ)) × IsQueue content q' w' older newer
    unfolding size_and_recover
    size_and_recover-IsQueue reads maximum q w bound bytes fits done =
        let total = flash.total_bytes w in
        let half = min maximum (total - filesystem_reserve_bytes) / 2 in
        let q₁ : Queue = record q { segment_maximum_bytes = half } in
        elim (Bool-cases (leb total (filesystem_reserve_bytes + 2 * header_bytes))) [
          | inl small ↦ absurd (ground arith)
          | inr large ↦ elim (Bool-cases (leb half (header_bytes + 1))) [
            | inl small ↦ absurd (ground arith)
            | inr enough ↦
                rw (large, enough, size_and_recover)
                  (recover-IsQueue fs is_fs reads q₁ w (omega arith) bytes fits
                    (rw (large, enough, size_and_recover) at done))
          ]
        ]

    -- A `begin` that mounts the partition and succeeds establishes the queue's invariant, whatever
    -- bytes the files held, as long as each segment file is within half the capacity and reads of
    -- bytes that are there succeed: the queue is ready, and its segments hold well-formed records.
    pub begin-IsQueue :
        (maximum : ℕ) (q : Queue) (w : W) (p : P)
        → ((r : R) → 0 < length (rest r) → length (fs.read 1 r).0 ≡ 1)
        → maximum < 4294967296
        → find_partition fs flash ≡ some p
        → (flash.mount p w).0 ≡ true
        → ((s : Segment) → EachByte (content (segment_path s) (flash.mount p w).1))
        → ((s : Segment)
            → length (content (segment_path s) (flash.mount p w).1)
              ≤ min maximum (flash.total_bytes (flash.mount p w).1 - filesystem_reserve_bytes) / 2)
        → (begin fs flash true maximum q w).0 ≡ true
        → let (_, q', w') = begin fs flash true maximum q w in
          (older : List (List ℕ)) × (newer : List (List ℕ)) × IsQueue content q' w' older newer
    unfolding begin size_and_recover
    begin-IsQueue maximum q w p reads bound found mounted bytes fits done =
        let (e, e') = mount_or_format_mounted p w mounted in
        rw (found, e, e', begin)
          (size_and_recover-IsQueue reads maximum _ (flash.mount p w).1 bound bytes fits
            (rw (found, e, e', begin) at done))

    -- A partition that cannot be mounted, and of which some byte is not 0xff, is never formatted,
    -- whichever reads fail: `begin` returns false, and nothing has happened since the failed mount.
    pub begin_preserves :
        (maximum : ℕ) (q : Queue) (w : W) (p : P) (bytes : List ℕ)
        → find_partition fs flash ≡ some p
        → (flash.mount p w).0 ≡ false
        → flash.partition_size p ≡ length bytes
        → ReadsPartition (flash.partition_read p (flash.mount p w).1) bytes
        → bytes ≢ replicate (length bytes) 255
        → let (done, _, w') = begin fs flash true maximum q w in
          (done ≡ false) × (w' ≡ (flash.mount p w).1)
    unfolding begin mount_or_format
    begin_preserves maximum q w p bytes found unmounted size reads foreign =
        let w₁ = (flash.mount p w).1 in
        elim (Bool-cases (verify (length bytes) (flash.partition_read p w₁))) [
          | inl erased ↦
              absurd (foreign (verify_sound (flash.partition_read p w₁) bytes reads erased).1)
          | inr kept ↦ (ground arith, ground arith)
        ]
