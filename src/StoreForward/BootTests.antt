-- ===== src/StoreForward/BootTests.antt =====
-- Runs of the start of the queue, of its archive and of batches over files in memory.
use devices.Prelude.{
  ℕ, ◌-◌, ◌*◌, ◌/◌, ◌≤◌, ◌<◌, ◌≡◌, ◌≢◌, ◌⊎◌, refl, sym, ap, get_or, true, false, Bool, some, List,
  [], ◌∷◌, ◌++◌, arith, length, take, drop, replicate, length-take, inr, pos,
}
use Prim.Native.Nat.{min}
use mathlib.Core.List.{append-nil}
use devices.StoreForward.Fs.{Segment, seg_zero, seg_one, segment_path, rejected_path}
use devices.StoreForward.Format.{checksum, checksum_from, header_of, encode_header, decode_header}
use devices.StoreForward.Reading.{encode_record}
use devices.StoreForward.Contents.{IsQueue, encode_records}
use devices.StoreForward.Queue.{read_payload}
use devices.StoreForward.Ram.{Files, Reader, ram, update, ram-IsFs}
use devices.StoreForward.Scan.{
  read_checksum, valid_record, scan_records, copy_bytes, copy_prefix, copy_corrupt, repair_tail,
  located, finish_scan, scan_file, scan_segment,
}
use devices.StoreForward.Scanned.{EachByte}
use devices.StoreForward.Complete.{IsReliable, scan_records_enough}
use devices.StoreForward.Recovery.{FileScanned, scan_segment_recovers}
use devices.StoreForward.Rescan.{scan_segment_keeps}
use devices.StoreForward.Tests.{abc, one_pending, no_files, files, content, one_pending-IsQueue}
use devices.StoreForward.Metadata.{load_metadata, save_metadata}
use devices.StoreForward.Segments.{truncate_segment}
use devices.StoreForward.Format.{encode_metadata, decode_metadata, decode_legacy}
use devices.StoreForward.Archive.{
  rejected_header_of, encode_rejected_header, decode_rejected_header, read_file, read_path, refused,
  read_rejected, is_saved, find_slot, write_rejected, store_rejected, preserve_rejected,
}
use devices.StoreForward.Archived.{SameFiles}
use devices.StoreForward.Preserved.{preserve_rejected_archives, preserve_rejected_keeps}
use devices.StoreForward.Blank.{each_erased, verify, verify-each_erased}
use devices.StoreForward.Begin.{
  Flash, count_quarantine, fresh_metadata, initial_metadata, scan_and_save, recover, find_partition,
  mount_or_format, size_and_recover, begin,
}
use devices.StoreForward.Mounted.{begin-IsQueue, begin_preserves}
use devices.StoreForward.Batch.{batch_records, batch_pass, pass_if_running, peek_batch}
use devices.StoreForward.Batches.{peek_batch_sound}

abbrev torn_files : Files
torn_files = update no_files (segment_path seg_zero) (encode_record abc ++ (7 ∷ 7 ∷ []))

ram_reads : (r : Reader) → 0 < length (r.1) → length (ram.read 1 r).0 ≡ 1
ram_reads r h = omega (arith, length-take 1 (r.1))

torn_bytes : EachByte (torn_files (segment_path seg_zero))
unfolding encode_header header_of checksum checksum_from
torn_bytes = omega arith

torn_done : (scan_segment ram seg_zero one_pending torn_files).0 ≡ true
unfolding scan_segment scan_file scan_records valid_record read_checksum repair_tail copy_prefix
    copy_corrupt copy_bytes finish_scan encode_header decode_header header_of checksum checksum_from
torn_done = refl

scan_segment_recovers_example :
    let (_, q', w') = scan_segment ram seg_zero one_pending torn_files in
    (skipped : List ℕ) × (records : List (List ℕ)) × (torn : List ℕ) × (torn_files
        (segment_path seg_zero)
      ≡ (skipped ++ encode_records records) ++ torn)
    × (length skipped ≡ min 0 (length (torn_files (segment_path seg_zero))))
    × FileScanned ram ram-IsFs seg_zero one_pending q' torn_files w' records torn
unfolding encode_header
scan_segment_recovers_example =
    scan_segment_recovers ram ram-IsFs ram_reads seg_zero one_pending torn_files
      (torn_files (segment_path seg_zero), torn_files (segment_path seg_zero)) torn_bytes
      (omega arith) refl torn_done

ram-IsReliable : IsReliable ram (λ r. r.0) (λ r. r.1)
ram-IsReliable = record { seek_within = λ n r h. refl; read_full = λ n r. length-take n (r.1) }

scan_segment_keeps_example :
    scan_segment ram seg_zero one_pending files ≡ (true, located seg_zero 0 15 1 one_pending, files)
unfolding encode_header
scan_segment_keeps_example =
    scan_segment_keeps ram ram-IsFs ram-IsReliable seg_zero one_pending files
      (encode_record abc, encode_record abc) [] abc [] (sym (append-nil (encode_record abc))) refl
      (omega arith, tt) (omega arith) refl

scan_records_enough_example :
    scan_records ram 100 17 0 0 (torn_files (segment_path seg_zero), [])
    ≡ scan_records ram 2 17 0 0 (torn_files (segment_path seg_zero), [])
scan_records_enough_example =
    scan_records_enough ram 2 100 17 0 0 (torn_files (segment_path seg_zero), []) (omega arith)
      (omega arith) (omega arith) (omega arith)

-- A partition of 600000 bytes that mounts, or that does not and holds the two bytes 255 and 1.
abbrev flash : Bool → Flash Files ℕ
flash mounts = record {
  find = λ label. some 0;
  mount = λ p w. (mounts, w);
  format = λ w. (true, w);
  partition_size = λ p. 2;
  partition_read = λ p w offset n. some (take n (drop offset (255 ∷ 1 ∷ [])));
  total_bytes = λ w. 600000;
}

torn_EachByte : (s : Segment) → EachByte (torn_files (segment_path s))
torn_EachByte seg_zero = torn_bytes
torn_EachByte seg_one = tt

torn_fits : (s : Segment) → length (torn_files (segment_path s)) ≤ min 80 (600000 - 512 * 1024) / 2
unfolding encode_header
torn_fits seg_zero = omega arith
torn_fits seg_one = omega arith

started : (begin ram (flash true) true 80 one_pending torn_files).0 ≡ true
unfolding begin find_partition mount_or_format size_and_recover recover scan_and_save
    initial_metadata load_metadata fresh_metadata count_quarantine save_metadata encode_metadata
    decode_metadata decode_legacy scan_segment scan_file scan_records valid_record read_checksum
    repair_tail copy_prefix copy_corrupt copy_bytes finish_scan truncate_segment encode_header
    decode_header header_of checksum checksum_from
started = refl

begin-IsQueue_example :
    let (_, q', w') = begin ram (flash true) true 80 one_pending torn_files in
    (older : List (List ℕ)) × (newer : List (List ℕ)) × IsQueue content q' w' older newer
unfolding find_partition
begin-IsQueue_example =
    begin-IsQueue ram ram-IsFs (flash true) 80 one_pending torn_files 0 ram_reads (omega arith) refl
      refl torn_EachByte torn_fits started

foreign : ◌≢◌ {A = List ℕ} (255 ∷ 1 ∷ []) (replicate 2 255)
foreign e = absurd (omega (arith, ap (λ l. get_or l 1 0) e))

begin_preserves_example :
    let (done, _, w') = begin ram (flash false) true 80 one_pending torn_files in
    (done ≡ false) × (w' ≡ torn_files)
unfolding find_partition
begin_preserves_example =
    begin_preserves ram ram-IsFs (flash false) 80 one_pending torn_files 0 (255 ∷ 1 ∷ []) refl refl
      refl (λ offset n. inr refl) foreign

verify-each_erased_example :
    verify 2 (λ offset n. some (take n (drop offset (255 ∷ 1 ∷ [])))) ≡ false
unfolding each_erased
verify-each_erased_example = verify-each_erased (255 ∷ 1 ∷ [])

stored : (preserve_rejected ram abc (pos 422) one_pending no_files).0 ≡ true
unfolding preserve_rejected refused find_slot read_rejected read_path read_file store_rejected
    write_rejected rejected_header_of encode_rejected_header decode_rejected_header read_payload
    checksum checksum_from
stored = refl

preserve_rejected_archives_example :
    let w' = (preserve_rejected ram abc (pos 422) one_pending no_files).2 in
    (slot : ℕ) × (slot < 16)
    × (((v : Files) × SameFiles ram ram-IsFs no_files v
          × (is_saved abc (read_rejected ram slot one_pending v).0 ≡ true)
          × SameFiles ram ram-IsFs no_files w')
        ⊎ (ram.exists (rejected_path slot) no_files ≡ false)
          × (w' (rejected_path slot)
              ≡ encode_rejected_header (rejected_header_of abc (pos 422)) ++ abc))
preserve_rejected_archives_example =
    preserve_rejected_archives ram ram-IsFs abc (pos 422) one_pending no_files stored

preserve_rejected_keeps_example :
    let (done, _, w') = preserve_rejected ram abc (pos 422) one_pending files in
    (w' (segment_path seg_zero) ≡ encode_record abc)
    ⊎ (done ≡ true) × (ram.exists (segment_path seg_zero) files ≡ false)
preserve_rejected_keeps_example =
    preserve_rejected_keeps ram ram-IsFs abc (pos 422) one_pending files (segment_path seg_zero)
      (λ e. cc)

peek_batch_sound_example :
    let (_, payloads, _, _) = peek_batch ram 8 100 one_pending files in
    (later : List (List ℕ)) × ([] ++ (abc ∷ []) ≡ payloads ++ later) × (length payloads ≤ min 8 8)
peek_batch_sound_example =
    peek_batch_sound ram ram-IsFs 8 100 one_pending files [] (abc ∷ []) one_pending-IsQueue

-- The batch holds the pending payload.
batch_of_one : (peek_batch ram 8 100 one_pending files).1 ≡ abc ∷ []
unfolding peek_batch batch_pass batch_records pass_if_running read_payload encode_header
    decode_header header_of checksum checksum_from
batch_of_one = refl
