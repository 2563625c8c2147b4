-- ===== src/StoreForward/Pop.antt =====
-- `pop` of logger/firmware/src/StoreForwardQueue.cpp against the abstract view.
use mathlib.Core.Path.{subst}
use Prim.Native.String.{String}
use devices.Prelude.{
  ℕ, ◌≡◌, refl, sym, ◌∙◌, Bool, false, List, [], ◌∷◌, ◌++◌, ◌⊎◌, inl, inr, arith, length,
  Option-cases, Bool-cases, ◌==◌, not, ◌||◌, if◌then◌else◌,
}
use devices.StoreForward.Fs.{Fs, FilePath, IsFs, Segment, segment_path}
use devices.StoreForward.Format.{RecordHeader, header_of}
use devices.StoreForward.Types.{Queue, saturating_add, pending_records, oldest_segment}
use devices.StoreForward.Reading.{read_header_written}
use devices.StoreForward.Contents.{
  IsQueue, encode_records, pending_records-eq, oldest_segment_active, oldest_segment_inactive,
}
use devices.StoreForward.Queue.{fail, advance, read_header, open_at_head, commit_pop, pop}
use devices.StoreForward.Commit.{commit_pop-TwoHold, commit_pop-active}
use devices.StoreForward.Peek.{open_at_head-rest}
use devices.StoreForward.Held.{
  TwoHold, SameHeld, TwoHold-same, fail-SameHeld, same_queue, IsQueue-TwoHold_active,
  IsQueue-TwoHold-other, TwoHold-active-IsQueue, TwoHold-other-IsQueue,
}

module _ {W R : Type 0} (fs : Fs W R) {whole rest : R → List ℕ} {content : FilePath → W → List ℕ}
    (is_fs : IsFs fs whole rest content) where
  open_at_head-SameHeld :
      (s : Segment) (q q' : Queue) (w : W)
      → SameHeld content q q' w w
      → SameHeld content q q' w (open_at_head fs s q w).1
  open_at_head-SameHeld s q q' w e = record {
    head_same = e.head_same;
    tail_same = e.tail_same;
    count_same = e.count_same;
    ready_same = e.ready_same;
    maximum_same = e.maximum_same;
    content_same = λ t. ground (arith, is_fs.open_read_keeps (segment_path s) (segment_path t) w);
  }

  -- The first record of the segment `s` is gone, or the call has failed and it is still there.
  abbrev FirstPopped :
      Bool → Segment → List (List ℕ) → List (List ℕ) → Queue → Bool × Queue × W → List ℕ → Type 0
  FirstPopped discarded s ps b q result p =
      (result.1.metadata.active_segment ≡ q.metadata.active_segment)
      × (TwoHold content result.1 result.2 s ps b
            × (result.1.metadata.dropped_records
                ≡ (advance s (length p) discarded q).metadata.dropped_records)
          ⊎ (result.0 ≡ false)
            × TwoHold content result.1 result.2 s (p ∷ ps) b
            × (result.1.metadata.dropped_records ≡ q.metadata.dropped_records))

  commit-FirstPopped :
      (d : Bool) (s : Segment) (p : List ℕ) (ps b : List (List ℕ)) (q : Queue) (w : W)
      (h : RecordHeader)
      → h ≡ header_of p
      → TwoHold content q w s (p ∷ ps) b
      → FirstPopped d s ps b q (commit_pop fs s h.length d q w) p
  unfolding header_of
  commit-FirstPopped d s p ps b q w h e v =
      rw e (
        commit_pop-active fs is_fs s (length p) d q w,
        commit_pop-TwoHold fs is_fs s p ps b d q w v,
      )

  pop-FirstPopped :
      (d : Bool) (q : Queue) (w : W) (p : List ℕ) (ps b : List (List ℕ))
      → TwoHold content q w (oldest_segment q) (p ∷ ps) b
      → FirstPopped d (oldest_segment q) ps b q (pop fs d q w) p
  unfolding pop
  pop-FirstPopped d q w p ps b v =
      let s = oldest_segment q in
      let w₁ = (open_at_head fs s q w).1 in
      let failed = λ (e : String).
        TwoHold-same content (open_at_head-SameHeld s q (fail q e) w (fail-SameHeld content q w e))
          v in
      elim (Bool-cases (not q.ready || (pending_records q == 0))) [
        | inl idle ↦ rw idle (refl, inr (refl, v, refl))
        | inr busy ↦ elim (Option-cases (open_at_head fs s q w).0) [
          | inl missing ↦
              rw (busy, missing) (refl, inr (refl, failed "Queue pop seek failed", refl))
          | inr (file, opened) ↦ elim (Option-cases (read_header fs file).0) [
            | inl bad ↦
                rw (busy, opened, bad) (refl, inr (refl, failed "Queue pop header invalid", refl))
            | inr (h, found) ↦
                let before = open_at_head-rest fs is_fs s q w (p ∷ ps) v.first_held opened in
                let is_header =
                  (read_header_written fs is_fs.reader file p (encode_records ps)
                    v.first_held.payloads.0 before found).0 in
                let held =
                  TwoHold-same content (open_at_head-SameHeld s q q w (same_queue content q w)) v in
                rw (busy, opened, found) (commit-FirstPopped d s p ps b q w₁ h is_header held)
          ]
        ]
      ]

  -- After the call, all pending records but the first, `p`, are pending, in their order, and the drop
  -- counter is raised by one, up to its maximum, if the call discards.
  abbrev pub Popped : Bool → Queue → Queue × W → List (List ℕ) → List (List ℕ) → List ℕ → Type 0
  Popped discarded q (q', w') older newer p =
      (older' : List (List ℕ)) × (newer' : List (List ℕ)) × IsQueue content q' w' older' newer'
      × (older ++ newer ≡ p ∷ (older' ++ newer'))
      × (q'.metadata.dropped_records ≡ (
          if discarded
          then saturating_add q.metadata.dropped_records 1
          else q.metadata.dropped_records))

  -- After the call, the same records are pending, and none was counted as dropped.
  abbrev pub Unpopped : Queue → Queue × W → List (List ℕ) → List (List ℕ) → Type 0
  Unpopped q (q', w') older newer =
      IsQueue content q' w' older newer × (q'.metadata.dropped_records ≡ q.metadata.dropped_records)

  pop_none_pending :
      (d : Bool) (q : Queue) (w : W) → pending_records q ≡ 0 → pop fs d q w ≡ (false, q, w)
  unfolding pop
  pop_none_pending d q w e = ground arith

  -- Whatever the filesystem does, `pop` takes off the oldest pending record and keeps all the others
  -- in order, or it fails and keeps every record.
  pub pop_refines :
      (discarded : Bool) (q : Queue) (w : W) (older newer : List (List ℕ))
      → IsQueue content q w older newer
      → let (done, q', w') = pop fs discarded q w in
        ((p : List ℕ) × Popped discarded q (q', w') older newer p)
        ⊎ (done ≡ false) × Unpopped q (q', w') older newer
  pop_refines d q w [] [] v =
      let idle = pop_none_pending d q w (pending_records-eq content q w [] [] v) in
      rw idle (inr (refl, (v, refl)))
  pop_refines d q w [] (p ∷ ps) v =
      let s = oldest_segment_active q v.older_held.count_eq in
      let held =
        subst (λ t. TwoHold content q w t (p ∷ ps) []) (sym s) (IsQueue-TwoHold_active content v) in
      let (active, result) = pop-FirstPopped d q w p ps [] held in
      elim result [
        | inl (gone, counted) ↦
            inl (p, ([], ps, TwoHold-active-IsQueue content (active ∙ sym s) gone, refl, counted))
        | inr (fails, kept, counted) ↦
            inr (fails, (TwoHold-active-IsQueue content (active ∙ sym s) kept, counted))
      ]
  pop_refines d q w (p ∷ ps) newer v =
      let s = oldest_segment_inactive q (length ps) v.older_held.count_eq in
      let held =
        subst (λ t. TwoHold content q w t (p ∷ ps) newer) (sym s)
          (IsQueue-TwoHold-other content v) in
      let (active, result) = pop-FirstPopped d q w p ps newer held in
      let q' = (pop fs d q w).1 in
      let w' = (pop fs d q w).2 in
      elim result [
        | inl (gone, counted) ↦
            let gone' = subst (λ t. TwoHold content q' w' t ps newer) s gone in
            inl (p, (ps, newer, TwoHold-other-IsQueue content active gone', refl, counted))
        | inr (fails, kept, counted) ↦
            let kept' = subst (λ t. TwoHold content q' w' t (p ∷ ps) newer) s kept in
            inr (fails, (TwoHold-other-IsQueue content active kept', counted))
      ]
