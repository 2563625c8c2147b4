-- ===== src/StoreForward/Preserved.antt =====
-- `preserveRejected` of logger/firmware/src/RejectedUploads.cpp as a whole.
use devices.Prelude.{
  ℕ, ◌<◌, ◌≡◌, ◌≢◌, ◌⊎◌, refl, sym, ap, ◌∙◌, Bool, true, false, none, List, ◌++◌, arith, ◌==◌,
  Bool-cases, Option-cases, inl, inr, ℤ,
}
use devices.StoreForward.Fs.{
  Fs, FilePath, IsFs, metadata_path, metadata_temporary_path, segment_repair_path, segment_path,
  quarantine_path, rejected_path, rejected_temporary_path,
}
use mathlib.Core.Path.{subst}
use devices.StoreForward.Types.{Queue}
use devices.StoreForward.Contents.{IsQueue}
use devices.StoreForward.Held.{TwoHold-same, TwoHold-active-IsQueue, IsQueue-TwoHold_active}
use devices.StoreForward.Archive.{
  rejected_slots, rejected_header_of, encode_rejected_header, read_path, read_rejected, is_saved,
  refused, find_slot, write_rejected, store_rejected, preserve_rejected,
}
use devices.StoreForward.Archived.{
  SameFiles, find_slot-Searched, read_path-SameFiles, SameFiles-refl, write_rejected-content,
  write_rejected-other,
}

path_cases : (slot : ℕ) (p : FilePath) → (rejected_path slot ≡ p) ⊎ (rejected_path slot ≢ p)
path_cases slot metadata_path = inr (λ e. cc)
path_cases slot metadata_temporary_path = inr (λ e. cc)
path_cases slot segment_repair_path = inr (λ e. cc)
path_cases slot rejected_temporary_path = inr (λ e. cc)
path_cases slot (segment_path s) = inr (λ e. cc)
path_cases slot (quarantine_path s) = inr (λ e. cc)
path_cases slot (rejected_path n) = elim (Bool-cases (slot == n)) [
  | inl e ↦ inl (ap rejected_path (ground arith))
  | inr e ↦ inr (λ h. ground arith)
]

module _ {W R : Type 0} (fs : Fs W R) {whole rest : R → List ℕ} {content : FilePath → W → List ℕ}
    (is_fs : IsFs fs whole rest content) where
  -- Storing succeeds by renaming the verified temporary file to the slot.
  pub record Stored (slot : ℕ) (payload : List ℕ) (status : ℤ) (done : Bool) (w w' : W)
      : Type 0 where
    pub in_slot :
        done ≡ true
        → content (rejected_path slot) w'
          ≡ encode_rejected_header (rejected_header_of payload status) ++ payload
    pub slot_kept : done ≡ false → content (rejected_path slot) w' ≡ content (rejected_path slot) w
    pub others_kept :
        (p : FilePath)
        → rejected_temporary_path ≢ p
        → rejected_path slot ≢ p
        → content p w' ≡ content p w

  store_rejected-Stored :
      (slot : ℕ) (payload : List ℕ) (status : ℤ) (q : Queue) (w : W)
      → let (done, _, w') = store_rejected fs slot payload status q w in
        Stored slot payload status done w w'
  unfolding store_rejected
  store_rejected-Stored slot payload status q w =
      let t = rejected_temporary_path in
      let w₁ = (write_rejected fs payload status w).1 in
      let w₂ = (read_path fs t w₁).1 in
      let same = (read_path-SameFiles fs is_fs t w₁).content_same in
      let p = rejected_path slot in
      record {
        in_slot = λ h. ground (
          arith,
          write_rejected-content fs is_fs payload status w,
          same t,
          is_fs.rename_moves t p w₂,
        );
        slot_kept = λ h. ground (
          arith,
          write_rejected-other fs is_fs payload status p w (λ c. cc),
          same p,
          is_fs.rename_fails t p p w₂,
        );
        others_kept = λ f ne ne'. ground (
          arith,
          write_rejected-other fs is_fs payload status f w ne,
          same f,
          is_fs.rename_other t p f w₂ ne ne',
        );
      }

  -- The three ways a call ends: refused, with the files as they were; with the payload in a slot
  -- already; or by storing it in a slot that was free.
  data Preserved (payload : List ℕ) (status : ℤ) (q : Queue) (w : W) (done : Bool) (w' : W)
      : Type 0 where
    left_alone : done ≡ false → SameFiles fs is_fs w w' → Preserved payload status q w done w'
    already :
        (slot : ℕ) (v : W)
        → slot < 16
        → SameFiles fs is_fs w v
        → is_saved payload (read_rejected fs slot q v).0 ≡ true
        → SameFiles fs is_fs w w'
        → Preserved payload status q w done w'
    tried :
        (slot : ℕ) (v : W)
        → slot < 16
        → fs.exists (rejected_path slot) w ≡ false
        → SameFiles fs is_fs w v
        → Stored slot payload status done v w'
        → Preserved payload status q w done w'

  preserve_rejected-Preserved :
      (payload : List ℕ) (status : ℤ) (q : Queue) (w : W)
      → let (done, _, w') = preserve_rejected fs payload status q w in
        Preserved payload status q w done w'
  unfolding preserve_rejected refused
  preserve_rejected-Preserved payload status q w =
      let found = (find_slot fs payload q rejected_slots 0 none w).0 in
      let free = (find_slot fs payload q rejected_slots 0 none w).1 in
      let w₁ = (find_slot fs payload q rejected_slots 0 none w).2 in
      elim (Bool-cases (refused payload status q)) [
        | inl no_way ↦ rw (no_way, preserve_rejected) (left_alone refl (SameFiles-refl fs is_fs w))
        | inr goes_on ↦
            let ready : q.ready ≡ true = ground arith in
            let s =
              find_slot-Searched fs is_fs payload q rejected_slots 0 none w ready (omega arith)
                (λ k e. absurd (cc)) in
            elim (Bool-cases found) [
              | inl saved ↦
                  let (slot, v, b, is_here, lt) = s.found_saved saved in
                  rw (goes_on, saved, preserve_rejected) (already slot v lt b is_here s.same)
              | inr not_saved ↦ elim (Option-cases free) [
                | inl full ↦
                    rw (goes_on, not_saved, full, preserve_rejected) (left_alone refl s.same)
                | inr (slot, is_free) ↦
                    let (lt, absent) = s.free_absent slot is_free in
                    rw (goes_on, not_saved, is_free, preserve_rejected)
                      (tried slot w₁ lt absent s.same
                        (store_rejected-Stored slot payload status q w₁))
              ]
            ]
      ]

  -- A payload that is reported as archived is in one of the sixteen slots: either the slot gave it
  -- back when it was read, with no file changed, or the slot was free and its file is now the header
  -- of the payload and the status, followed by the payload.
  pub preserve_rejected_archives :
      (payload : List ℕ) (status : ℤ) (q : Queue) (w : W)
      → (preserve_rejected fs payload status q w).0 ≡ true
      → let w' = (preserve_rejected fs payload status q w).2 in
        (slot : ℕ) × (slot < 16)
        × (((v : W) × SameFiles fs is_fs w v
              × (is_saved payload (read_rejected fs slot q v).0 ≡ true)
              × SameFiles fs is_fs w w')
            ⊎ (fs.exists (rejected_path slot) w ≡ false)
              × (content (rejected_path slot) w'
                  ≡ encode_rejected_header (rejected_header_of payload status) ++ payload))
  preserve_rejected_archives payload status q w done =
      elim (preserve_rejected-Preserved payload status q w) [
        | left_alone undone same ↦ absurd (cc)
        | already slot v lt b is_here same ↦ (slot, lt, inl (v, b, is_here, same))
        | tried slot v lt absent same stored ↦ (slot, lt, inr (absent, stored.in_slot done))
      ]

  -- Whatever goes wrong, a file other than the temporary one is as it was, unless the call succeeded
  -- and the file was not there before: no archived payload and no queue file is ever overwritten.
  pub preserve_rejected_keeps :
      (payload : List ℕ) (status : ℤ) (q : Queue) (w : W) (p : FilePath)
      → rejected_temporary_path ≢ p
      → let (done, _, w') = preserve_rejected fs payload status q w in
        (content p w' ≡ content p w) ⊎ (done ≡ true) × (fs.exists p w ≡ false)
  preserve_rejected_keeps payload status q w p ne =
      elim (preserve_rejected-Preserved payload status q w) [
        | left_alone undone same ↦ inl (same.content_same p)
        | already slot v lt b is_here same ↦ inl (same.content_same p)
        | tried slot v lt absent same stored ↦ elim (path_cases slot p) [
          | inr elsewhere ↦ inl (stored.others_kept p ne elsewhere ∙ same.content_same p)
          | inl is_slot ↦ elim (Bool-cases (preserve_rejected fs payload status q w).0) [
            | inl done ↦ inr (done, ap (λ f. fs.exists f w) (sym is_slot) ∙ absent)
            | inr failed ↦ inl (
                subst (λ f. content f (preserve_rejected fs payload status q w).2 ≡ content f w)
                  is_slot (stored.slot_kept failed ∙ same.content_same (rejected_path slot)))
          ]
        ]
      ]

  -- The queue's own files and members are as they were.
  preserve_rejected-content :
      (payload : List ℕ) (status : ℤ) (q : Queue) (w : W) (p : FilePath)
      → rejected_temporary_path ≢ p
      → ((n : ℕ) → rejected_path n ≢ p)
      → content p (preserve_rejected fs payload status q w).2 ≡ content p w
  preserve_rejected-content payload status q w p ne none_there =
      elim (preserve_rejected-Preserved payload status q w) [
        | left_alone undone same ↦ same.content_same p
        | already slot v lt b is_here same ↦ same.content_same p
        | tried slot v lt absent same stored ↦
            stored.others_kept p ne (none_there slot) ∙ same.content_same p
      ]

  preserve_rejected-queue :
      (payload : List ℕ) (status : ℤ) (q : Queue) (w : W)
      → let q' = (preserve_rejected fs payload status q w).1 in
        (q'.metadata ≡ q.metadata)
        × (q'.tail ≡ q.tail)
        × (q'.count ≡ q.count)
        × (q'.ready ≡ q.ready)
        × (q'.segment_maximum_bytes ≡ q.segment_maximum_bytes)
  unfolding preserve_rejected store_rejected
  preserve_rejected-queue payload status q w =
      (ground arith, ground arith, ground arith, ground arith, ground arith)

  pub preserve_rejected-IsQueue :
      (payload : List ℕ) (status : ℤ) (q : Queue) (w : W) (older newer : List (List ℕ))
      → IsQueue content q w older newer
      → let (_, q', w') = preserve_rejected fs payload status q w in
        IsQueue content q' w' older newer
  preserve_rejected-IsQueue payload status q w older newer v =
      let (metadata, tail, count, ready, maximum) = preserve_rejected-queue payload status q w in
      TwoHold-active-IsQueue content (ap (λ m. m.active_segment) metadata) (
        TwoHold-same content
          (record {
            head_same = ap (λ m. m.head) metadata;
            tail_same = tail;
            count_same = count;
            ready_same = ready;
            maximum_same = maximum;
            content_same = λ s.
                preserve_rejected-content payload status q w (segment_path s) (λ e. cc) (λ n e. cc);
          })
          (IsQueue-TwoHold_active content v))
