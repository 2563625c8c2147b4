-- ===== src/StoreForward/Tests.antt =====
-- Runs of the queue over files in memory.
use mathlib.Core.List.{append-nil}
use devices.Prelude.{ℕ, ◌≡◌, ◌≤◌, ◌<◌, refl, sym, true, false, List, [], ◌∷◌, ◌⊎◌, arith}
use devices.StoreForward.Fs.{FilePath, seg_zero, segment_path}
use devices.StoreForward.Format.{empty_metadata, encode_header}
use devices.StoreForward.Types.{Queue}
use devices.StoreForward.Reading.{encode_record, length-encode_record}
use devices.StoreForward.Contents.{IsQueue}
use devices.StoreForward.Metadata.{save_metadata}
use devices.StoreForward.Segments.{truncate_segment, switch_segment, rotate_segment}
use devices.StoreForward.Queue.{append_record, enqueue, pop, pop_if_matches}
use devices.StoreForward.Ram.{Files, ram, update, ram-IsFs}
use devices.StoreForward.Enqueue.{enqueue_refines}
use devices.StoreForward.Pop.{Popped, Unpopped, pop_refines}
use devices.StoreForward.Acknowledge.{pop_if_matches_refines}

abbrev pub abc : List ℕ
abc = 97 ∷ 98 ∷ 99 ∷ []

abbrev xyz : List ℕ
xyz = 120 ∷ 121 ∷ 122 ∷ []

-- One pending payload in the first segment, and room for two.
abbrev pub one_pending : Queue
one_pending = record {
  metadata = empty_metadata;
  tail = record { zero = 15; one = 0 };
  count = record { zero = 1; one = 0 };
  segment_maximum_bytes = 40;
  enabled = true;
  ready = true;
  rejected_records = 0;
  last_error = "";
}

abbrev pub no_files : Files
no_files p = []

abbrev pub files : Files
files = update no_files (segment_path seg_zero) (encode_record abc)

abbrev pub content : FilePath → Files → List ℕ
content p w = w p

pub one_pending-IsQueue : IsQueue content one_pending files [] (abc ∷ [])
one_pending-IsQueue = record {
  older_held = record {
    skipped = [];
    bytes_eq = refl;
    head_eq = refl;
    tail_eq = refl;
    count_eq = refl;
    payloads = tt;
  };
  newer_held = record {
    skipped = [];
    bytes_eq = sym (append-nil (encode_record abc));
    head_eq = refl;
    tail_eq = sym (length-encode_record abc);
    count_eq = refl;
    payloads = omega arith;
  };
  is_ready = refl;
  bounded = omega arith;
  older_fits = omega arith;
  newer_fits = omega arith;
}

enqueue_refines_example :
    let (done, q', w') = enqueue ram xyz one_pending files in
    ((30 ≤ 40) × IsQueue content q' w' [] (abc ∷ xyz ∷ []) × (q'.metadata.dropped_records ≡ 0))
    ⊎ ((40 < 30) × IsQueue content q' w' (abc ∷ []) (xyz ∷ []) × (q'.metadata.dropped_records ≡ 0))
unfolding enqueue rotate_segment switch_segment truncate_segment save_metadata append_record
    encode_header
enqueue_refines_example =
    enqueue_refines ram ram-IsFs xyz one_pending files [] (abc ∷ []) one_pending-IsQueue refl

pop_refines_example :
    let (done, q', w') = pop ram true one_pending files in
    ((p : List ℕ) × Popped ram ram-IsFs true one_pending (q', w') [] (abc ∷ []) p)
    ⊎ (done ≡ false) × Unpopped ram ram-IsFs one_pending (q', w') [] (abc ∷ [])
pop_refines_example =
    pop_refines ram ram-IsFs true one_pending files [] (abc ∷ []) one_pending-IsQueue

pop_if_matches_refines_example :
    let (done, q', w') = pop_if_matches ram xyz false one_pending files in
    Popped ram ram-IsFs false one_pending (q', w') [] (abc ∷ []) xyz
    ⊎ Unpopped ram ram-IsFs one_pending (q', w') [] (abc ∷ [])
pop_if_matches_refines_example =
    pop_if_matches_refines ram ram-IsFs xyz false one_pending files [] (abc ∷ [])
      one_pending-IsQueue
