-- ===== src/Https/Recovery.antt =====
-- logger/firmware/include/UploadRecovery.h: how a rejected batch is taken apart, and when a rejected
-- record may leave the queue. The two callbacks are steps of a world.
use devices.Prelude.{
  ℕ, suc, ℤ, ◌-◌, ◌≡◌, refl, arith, Bool-cases, inl, inr, leb, List, [], ◌∷◌, Bool, true, false,
  ◌&&◌, ◌||◌, not, ◌==◌, is_number, if◌then◌else◌,
}

-- `payloadRejected`
abbrev pub payload_rejected : ℤ → Bool
payload_rejected status = is_number status 400 || (is_number status 413 || is_number status 422)

-- `allowBatch` and `recordResolved`, on the number of records still to be sent singly.
abbrev pub allow_batch : ℕ → Bool
allow_batch singles = singles == 0

abbrev pub record_resolved : Bool → ℕ → ℕ
record_resolved advanced singles = if advanced && not (singles == 0) then singles - 1 else singles

pub data Resolution : Type 0 where
  retained archived archive_failed advance_failed : Resolution

unfoldable pub resolve_rejected :
    {W : Type 0} → ℤ → Bool → (W → Bool × W) → (W → Bool × W) → ℕ → W → Resolution × ℕ × W
resolve_rejected status permanent save advance singles w =
    let (saved, w₁) = save w in
    let (advanced, w₂) = advance w₁ in
    if not permanent || not (payload_rejected status)
    then (retained, singles, w)
    else if not saved
    then (archive_failed, singles, w₁)
    else if not advanced
    then (advance_failed, singles, w₂)
    else (archived, record_resolved true singles, w₂)

-- What the callbacks of `resolve_rejected` do for a record in some world: `save` does not touch the
-- queue, and puts the record into the archive if it succeeds; `advance`, whether it succeeds or not,
-- does not touch the archive.
pub record IsArchive {W : Type 0} (save advance : W → Bool × W) (Queued ArchivedIn : W → Type 0)
    (w : W) : Type 0 where
  pub save_keeps : Queued w → Queued (save w).1
  pub save_done : (save w).0 ≡ true → ArchivedIn (save w).1
  pub advance_keeps : ArchivedIn (save w).1 → ArchivedIn (advance (save w).1).1

-- Where a resolution leaves the record, and what the count of single records becomes.
abbrev pub Settled :
    {W : Type 0} → (W → Type 0) → (W → Type 0) → ℕ → W → Resolution → ℕ → W → Type 0
Settled Queued ArchivedIn singles w retained singles' w' = (singles' ≡ singles) × (w' ≡ w)
Settled Queued ArchivedIn singles w archive_failed singles' w' = (singles' ≡ singles) × Queued w'
Settled Queued ArchivedIn singles w advance_failed singles' w' =
    (singles' ≡ singles) × ArchivedIn w'
Settled Queued ArchivedIn singles w archived singles' w' =
    (singles' ≡ record_resolved true singles) × ArchivedIn w'

abbrev pub is_retained : Resolution → Bool
is_retained retained = true
is_retained _ = false

-- A rejected record that was queued is never lost, if the archiving does not touch the queue and the
-- acknowledgement does not touch the archive: nothing is done exactly if the rejection is not permanent
-- or its status does not reject a payload; the record is still queued if the archive failed; and it is
-- in the archive in the other two cases, of which only `archived` counts as one of the single records.
pub rejected_is_not_lost :
    {W : Type 0} (save advance : W → Bool × W) (Queued ArchivedIn : W → Type 0) (w : W)
    → IsArchive save advance Queued ArchivedIn w
    → (status : ℤ) (permanent : Bool) (singles : ℕ) → Queued w
    → let (resolution, singles', w') = resolve_rejected status permanent save advance singles w in
      (is_retained resolution ≡ not (permanent && payload_rejected status))
      × Settled Queued ArchivedIn singles w resolution singles' w'
unfolding resolve_rejected
rejected_is_not_lost save advance Queued ArchivedIn w is status permanent singles here =
    let w₁ = (save w).1 in
    elim (Bool-cases (permanent && payload_rejected status)) [
      | inr minor ↦
          let kept : not permanent || not (payload_rejected status) ≡ true = ground arith in
          rw (kept, minor, resolve_rejected) (refl, (refl, refl))
      | inl final ↦
          let goes_on : not permanent || not (payload_rejected status) ≡ false = ground arith in
          elim (Bool-cases ((save w).0)) [
            | inr unsaved ↦
                rw (goes_on, final, unsaved, resolve_rejected) (refl, (refl, is.save_keeps here))
            | inl saved ↦
                let there = is.advance_keeps (is.save_done saved) in
                elim (Bool-cases ((advance w₁).0)) [
                  | inr stuck ↦
                      rw (goes_on, final, saved, stuck, resolve_rejected) (refl, (refl, there))
                  | inl gone ↦
                      rw (goes_on, final, saved, gone, resolve_rejected) (refl, (refl, there))
                ]
          ]
    ]

abbrev pub resolve_all : List Bool → ℕ → ℕ
resolve_all [] singles = singles
resolve_all (advanced ∷ rest) singles = resolve_all rest (record_resolved advanced singles)

abbrev pub count : List Bool → ℕ
count [] = 0
count (advanced ∷ rest) = if advanced then suc (count rest) else count rest

resolve_all-count : (flags : List Bool) (n : ℕ) → resolve_all flags n ≡ n - count flags
resolve_all-count [] n = omega arith
resolve_all-count (true ∷ rest) n =
    ground (arith, resolve_all-count rest (n - 1), resolve_all-count rest n)
resolve_all-count (false ∷ rest) n = ground (arith, resolve_all-count rest n)

-- After a rejected batch of `n` records, batches are allowed again exactly when `n` attempts on
-- single records have advanced the queue.
batch_waits_for_singles :
    (flags : List Bool) (n : ℕ) → allow_batch (resolve_all flags n) ≡ leb n (count flags)
batch_waits_for_singles flags n = ground (arith, resolve_all-count flags n)
