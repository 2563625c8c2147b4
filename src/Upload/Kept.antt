-- ===== src/Upload/Kept.antt =====
-- What an answer to a snapshot does to the records of the queue and of the archive
-- (logger/firmware/src/LiveUploadAsync.cpp).
use devices.Prelude.{
  ℕ, ℤ, ◌<◌, ◌≡◌, ◌⊎◌, ◌∙◌, refl, Bool, true, false, Option, List, ◌∷◌, ◌++◌, arith, Bool-cases,
  Option-cases, inl, inr, not, ◌||◌,
}
use devices.Https.Evidence.{recorded}
use devices.Https.Recovery.{
  IsArchive, Resolution, payload_rejected, resolve_rejected, archived, advance_failed,
  archive_failed, retained,
}
use devices.StoreForward.Fs.{Fs, FilePath, IsFs, rejected_path}
use devices.StoreForward.Format.{at}
use devices.StoreForward.Types.{Queue}
use devices.StoreForward.Queue.{pop_if_matches}
use devices.StoreForward.Contents.{IsQueue}
use devices.StoreForward.Archive.{
  preserve_rejected, rejected_header_of, encode_rejected_header, is_saved, read_rejected,
}
use devices.StoreForward.Archived.{SameFiles}
use devices.StoreForward.Preserved.{preserve_rejected_archives, preserve_rejected-IsQueue}
use devices.StoreForward.Acknowledge.{pop_if_matches_refines}
use devices.Upload.State.{LiveUpload}
use devices.Upload.Snapshot.{
  save_rejected, advance_rejected, advance_in_flight, accept_snapshot, settle_rejected,
  reject_snapshot, complete_snapshot,
}
use devices.Upload.Untouched.{pop_if_matches-rejected}

module _ {W R : Type 0} (fs : Fs W R) {whole rest : R → List ℕ} {content : FilePath → W → List ℕ}
    (is_fs : IsFs fs whole rest content) where
  -- The queue holds all the records that it held, or all but the first, `p`, for a reason.
  abbrev pub Holding : List (List ℕ) → List ℕ → Type 0 → Queue → W → Type 0
  Holding all p reason q w =
      (older : List (List ℕ)) × (newer : List (List ℕ)) × IsQueue content q w older newer
      × ((all ≡ older ++ newer) ⊎ (all ≡ p ∷ (older ++ newer)) × reason)

  pop-Holding :
      (p : List ℕ) (reason : Type 0) (q : Queue) (w : W) (older newer : List (List ℕ))
      → IsQueue content q w older newer
      → reason
      → let (_, q', w') = pop_if_matches fs p false q w in Holding (older ++ newer) p reason q' w'
  pop-Holding p reason q w older newer v because =
      elim (pop_if_matches_refines fs is_fs p false q w older newer v) [
        | inl (older', newer', held, rest_eq, counted) ↦
            (older', newer', held, inr (rest_eq, because))
        | inr (held, counted) ↦ (older, newer, held, inl refl)
      ]

  weaken :
      {all : List (List ℕ)} {p : List ℕ} {reason reason' : Type 0} {q : Queue} {w : W}
      → Holding all p reason q w
      → (reason → reason')
      → Holding all p reason' q w
  weaken (older, newer, held, inl same) f = (older, newer, held, inl same)
  weaken (older, newer, held, inr (first, because)) f = (older, newer, held, inr (first, f because))

  -- The payload is in one of the sixteen slots: the slot's file is the header of the payload and the
  -- status, followed by the payload; or the slot has given the payload when it was read, and its file
  -- is still what it was before.
  abbrev pub Archived : List ℕ → ℤ → Queue → W → W → Type 0
  Archived payload status q w w' =
      (slot : ℕ) × (slot < 16)
      × ((content (rejected_path slot) w'
            ≡ encode_rejected_header (rejected_header_of payload status) ++ payload)
          ⊎ (v : W) × SameFiles fs is_fs w v
            × (is_saved payload (read_rejected fs slot q v).0 ≡ true)
            × (content (rejected_path slot) w' ≡ content (rejected_path slot) w))

  -- An archiving that reports success and is followed by steps that leave the archive alone.
  preserve_rejected-Archived :
      (payload : List ℕ) (status : ℤ) (q : Queue) (w w' : W)
      → (preserve_rejected fs payload status q w).0 ≡ true
      → ((n : ℕ)
          → content (rejected_path n) w'
            ≡ content (rejected_path n) (preserve_rejected fs payload status q w).2)
      → Archived payload status q w w'
  preserve_rejected-Archived payload status q w w' saved kept =
      let (slot, lt, place) = preserve_rejected_archives fs is_fs payload status q w saved in
      elim place [
        | inl (v, same, is_here, after) ↦
            (slot, lt, inr (v, same, is_here, kept slot ∙ after.content_same (rejected_path slot)))
        | inr (was_free, stored) ↦ (slot, lt, inl (kept slot ∙ stored))
      ]

  Archived-kept :
      (payload : List ℕ) (status : ℤ) (q : Queue) (w w₁ w₂ : W)
      → ((n : ℕ) → content (rejected_path n) w₂ ≡ content (rejected_path n) w₁)
      → Archived payload status q w w₁
      → Archived payload status q w w₂
  Archived-kept payload status q w w₁ w₂ kept (slot, lt, inl stored) =
      (slot, lt, inl (kept slot ∙ stored))
  Archived-kept payload status q w w₁ w₂ kept (slot, lt, inr (v, same, is_here, left)) =
      (slot, lt, inr (v, same, is_here, kept slot ∙ left))

  -- The records of the queue.
  abbrev pub Pending : List (List ℕ) → Queue × W → Type 0
  Pending all (q, w) =
      (older : List (List ℕ)) × (newer : List (List ℕ)) × IsQueue content q w older newer
      × (all ≡ older ++ newer)

  module _ (timestamp_of : List ℕ → Option (List ℕ)) where
    advance_rejected-rejected :
        (n : ℕ) (durable : Bool) (payload : List ℕ) (q : Queue) (w : W)
        → content (rejected_path n) (advance_rejected fs timestamp_of durable payload (q, w)).1.1
          ≡ content (rejected_path n) w
    advance_rejected-rejected n true payload q w =
        pop_if_matches-rejected fs is_fs n payload false q w
    advance_rejected-rejected n false payload q w = refl

    -- The two callbacks of a rejection, on the queue and the archive in the filesystem: the archiving
    -- leaves all records pending, and an acknowledgement, even one that fails after the record is off
    -- the queue, leaves the archive alone.
    pub callbacks-IsArchive :
        (payload : List ℕ) (status : ℤ) (durable : Bool) (all : List (List ℕ)) (q : Queue) (w : W)
        → IsArchive
            (save_rejected fs timestamp_of status payload)
            (advance_rejected fs timestamp_of durable payload)
            (Pending all)
            (λ v. Archived payload status q w v.1)
            (q, w)
    callbacks-IsArchive payload status durable all q w = record {
      save_keeps = λ p.
          let (older, newer, v, same) = p in
          (older, newer, preserve_rejected-IsQueue fs is_fs payload status q w older newer v, same);
      save_done = λ saved. preserve_rejected-Archived payload status q w _ saved (λ n. refl);
      advance_keeps = λ there.
          let (_, q₁, w₁) = preserve_rejected fs payload status q w in
          Archived-kept payload status q w w₁ _
            (λ n. advance_rejected-rejected n durable payload q₁ w₁) there;
    }

    accept_snapshot-queue :
        (u : LiveUpload) (w : W)
        → u.durable_in_flight ≡ true
        → let (u', w') = accept_snapshot fs timestamp_of u w in
          let (_, q, w₁) = pop_if_matches fs u.in_flight_payload false u.store_forward_queue w in
          (u'.store_forward_queue ≡ q) × (w' ≡ w₁)
    unfolding accept_snapshot advance_in_flight
    accept_snapshot-queue u w durable = elim (Option-cases (timestamp_of u.in_flight_payload)) [
      | inl e ↦ (ground arith, ground arith)
      | inr (text, e) ↦ (ground arith, ground arith)
    ]

    settle_rejected-queue :
        (r : Resolution) (u : LiveUpload)
        → (settle_rejected fs timestamp_of r u).1.store_forward_queue ≡ u.store_forward_queue
    settle_rejected-queue retained u = refl
    settle_rejected-queue archived u = refl
    settle_rejected-queue archive_failed u = refl
    settle_rejected-queue advance_failed u = refl

    -- The queue and the files after a rejection: untouched, after the archiving, or after the
    -- acknowledgement that follows an archiving that succeeded.
    reject_snapshot_steps :
        (status : ℤ) (permanent : Bool) (u : LiveUpload) (w : W)
        → u.durable_in_flight ≡ true
        → let (_, u', w') = reject_snapshot fs timestamp_of status permanent u w in
          let p = u.in_flight_payload in
          let (saved, q₁, w₁) = preserve_rejected fs p status u.store_forward_queue w in
          let (_, q₂, w₂) = pop_if_matches fs p false q₁ w₁ in
          ((u'.store_forward_queue ≡ u.store_forward_queue) × (w' ≡ w))
          ⊎ (((u'.store_forward_queue ≡ q₁) × (w' ≡ w₁))
              ⊎ ((saved ≡ true) × (u'.store_forward_queue ≡ q₂) × (w' ≡ w₂)))
    unfolding reject_snapshot resolve_rejected
    reject_snapshot_steps status permanent u w durable =
        let p = u.in_flight_payload in
        let x = preserve_rejected fs p status u.store_forward_queue w in
        let y = pop_if_matches fs p false x.1 x.2 in
        let settled = settle_rejected-queue in
        elim (Bool-cases (not permanent || not (payload_rejected status))) [
          | inl kept ↦ inl (ground (arith, settled), ground arith)
          | inr goes_on ↦ elim (Bool-cases (x.0)) [
            | inr unsaved ↦ inr (inl (ground (arith, settled), ground arith))
            | inl saved ↦ elim (Bool-cases (y.0)) [
              | inr unpopped ↦ inr (inr (saved, ground (arith, settled), ground arith))
              | inl popped ↦ inr (inr (saved, ground (arith, settled), ground arith))
            ]
          ]
        ]

    reject_snapshot-Holding :
        (status : ℤ) (permanent : Bool) (u : LiveUpload) (w : W) (older newer : List (List ℕ))
        → u.durable_in_flight ≡ true
        → IsQueue content u.store_forward_queue w older newer
        → let (_, u', w') = reject_snapshot fs timestamp_of status permanent u w in
          Holding
            (older ++ newer)
            u.in_flight_payload
            (Archived u.in_flight_payload status u.store_forward_queue w w')
            u'.store_forward_queue
            w'
    reject_snapshot-Holding status permanent u w older newer durable v =
        let p = u.in_flight_payload in
        let x = preserve_rejected fs p status u.store_forward_queue w in
        let v₁ =
          preserve_rejected-IsQueue fs is_fs p status u.store_forward_queue w older newer v in
        elim (reject_snapshot_steps status permanent u w durable) [
          | inl (same, at) ↦ rw (same, at) (older, newer, v, inl refl)
          | inr later ↦ elim later [
            | inl (same, at) ↦ rw (same, at) (older, newer, v₁, inl refl)
            | inr (saved, same, at) ↦
                rw (same, at)
                  (pop-Holding p _ x.1 x.2 older newer v₁ (
                    preserve_rejected-Archived p status u.store_forward_queue w _ saved
                      (λ n. pop_if_matches-rejected fs is_fs n p false x.1 x.2)))
          ]
        ]

    -- Whatever an answer to the snapshot that was sent is, the queue keeps all of its records in
    -- their order, or all but the oldest; and then that one is the record that was sent, and the
    -- server has accepted it, or the answer was a permanent rejection and it is in the archive: a slot's
    -- file holds it, or a slot that gave it when it was read has the file that it had.
    pub complete_snapshot_keeps :
        (accepted : Bool) (status : ℤ) (permanent : Bool) (now : ℕ) (u : LiveUpload) (w : W)
        (older newer : List (List ℕ))
        → u.durable_in_flight ≡ true
        → IsQueue content u.store_forward_queue w older newer
        → let (_, u', w') = complete_snapshot fs timestamp_of accepted status permanent now u w in
          Holding
            (older ++ newer)
            u.in_flight_payload
            ((accepted ≡ true)
              ⊎ (permanent ≡ true) × Archived u.in_flight_payload status u.store_forward_queue w w')
            u'.store_forward_queue
            w'
    unfolding complete_snapshot
    complete_snapshot_keeps true status permanent now u w older newer durable v =
        let u₁ : LiveUpload = record u { upload_evidence = recorded true now u.upload_evidence } in
        let (same, at) = accept_snapshot-queue u₁ w durable in
        rw (same, at)
          (pop-Holding u.in_flight_payload _ u.store_forward_queue w older newer v (inl refl))
    complete_snapshot_keeps false status false now u w older newer durable v =
        (older, newer, v, inl refl)
    complete_snapshot_keeps false status true now u w older newer durable v =
        let u₁ : LiveUpload = record u { upload_evidence = recorded false now u.upload_evidence } in
        weaken (reject_snapshot-Holding status true u₁ w older newer durable v) (λ x. inr (refl, x))
