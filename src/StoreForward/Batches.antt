-- ===== src/StoreForward/Batches.antt =====
-- `peekBatch` of logger/firmware/src/StoreForwardQueue.cpp as a whole.
use Prim.Native.Nat.{min}
use devices.Prelude.{
  ℕ, ◌≤◌, ◌≡◌, ◌⊎◌, refl, sym, ap, ◌∙◌, true, List, [], ◌∷◌, ◌++◌, ◌||◌, not, arith, length, leb,
  ◌==◌, Bool-cases, Option-cases, inl, inr,
}
use mathlib.Core.List.{append_assoc, append-nil}
use mathlib.Core.Path.{subst}
use devices.StoreForward.Fs.{Fs, FilePath, IsFs, Segment, segment_path}
use devices.StoreForward.Format.{at, other}
use devices.StoreForward.Types.{Queue, pending_records, oldest_segment}
use devices.StoreForward.Queue.{open_at_head}
use devices.StoreForward.Contents.{
  IsQueue, SegmentHolds, Holds-cast, first_records, oldest_segment-holds, oldest_segment_active,
  oldest_segment_inactive, other-other,
}
use devices.StoreForward.Peek.{open_at_head-rest}
use devices.StoreForward.Batch.{
  running, broken, returned, Batch, batch_pass, pass_if_running, peek_batch,
}
use devices.StoreForward.Batched.{batch_records-Taken, Taken, course_cases, no_records, Taken-none}

module _ {W R : Type 0} (fs : Fs W R) {whole rest : R → List ℕ} {content : FilePath → W → List ℕ}
    (is_fs : IsFs fs whole rest content) where
  open_at_head-content :
      (s : Segment) (q : Queue) (p : FilePath) (w : W)
      → content p (open_at_head fs s q w).1 ≡ content p w
  open_at_head-content s q p w = ground (arith, is_fs.open_read_keeps (segment_path s) p w)

  batch_pass-content :
      (s : Segment) (limit maximum : ℕ) (q : Queue) (b : Batch) (p : FilePath) (w : W)
      → content p (batch_pass fs s limit maximum q b w).1 ≡ content p w
  unfolding batch_pass
  batch_pass-content s limit maximum q b p w = ground (arith, open_at_head-content s q p w)

  batch_pass_full :
      (s : Segment) (limit maximum : ℕ) (q : Queue) (b : Batch) (w : W)
      → leb limit (length b.payloads) ≡ true
      → (batch_pass fs s limit maximum q b w).0 ≡ b
  unfolding batch_pass
  batch_pass_full s limit maximum q b w h = ground arith

  batch_pass-Taken :
      (s : Segment) (limit maximum : ℕ) (q : Queue) (b : Batch) (w : W) (ps : List (List ℕ))
      → SegmentHolds content q w s ps
      → Taken limit b (batch_pass fs s limit maximum q b w).0 ps
  unfolding batch_pass
  batch_pass-Taken s limit maximum q b w ps v = elim (Bool-cases (leb limit (length b.payloads))) [
    | inl full ↦
        rw (batch_pass_full s limit maximum q b w full)
          (Taken-none limit b b ps refl (λ h. inl full))
    | inr room ↦ elim (Bool-cases (at q.count s == 0)) [
      | inl is_none ↦
          rw (room, is_none, batch_pass)
            (Taken-none limit b b ps refl (λ h. inr (no_records ps (ground (arith, v.count_eq)))))
      | inr some_left ↦ elim (Option-cases (open_at_head fs s q w).0) [
        | inl lost ↦
            rw (room, some_left, lost, batch_pass) (Taken-none limit b _ ps refl (λ h. absurd (cc)))
        | inr (file, opened) ↦
            let at_records = open_at_head-rest fs is_fs s q w ps v opened in
            rw (room, some_left, opened, batch_pass, v.count_eq)
              (batch_records-Taken fs is_fs ps limit maximum file b v.payloads at_records)
      ]
    ]
  ]

  -- The payloads of a batch come first among those that were there.
  abbrev AsFarAs : ℕ → List (List ℕ) → Batch → Type 0
  AsFarAs limit all b =
      (left : List (List ℕ)) × (all ≡ b.payloads ++ left) × (length b.payloads ≤ limit)

  pass_if_over :
      (s : Segment) (limit maximum : ℕ) (q : Queue) (b : Batch) (w : W)
      → (b.course ≡ broken) ⊎ (b.course ≡ returned)
      → pass_if_running fs s limit maximum q b w ≡ (b, w)
  unfolding pass_if_running
  pass_if_over s limit maximum q b w over = ground arith

  pass_if_runs :
      (s : Segment) (limit maximum : ℕ) (q : Queue) (b : Batch) (w : W)
      → b.course ≡ running
      → pass_if_running fs s limit maximum q b w ≡ batch_pass fs s limit maximum q b w
  unfolding pass_if_running
  pass_if_runs s limit maximum q b w runs = ground arith

  -- The second round, after a first one over `ps`.
  second_pass :
      (s : Segment) (limit maximum : ℕ) (q : Queue) (b₁ : Batch) (w : W)
      (ps rs later : List (List ℕ))
      → b₁.payloads ++ later ≡ ps
      → length b₁.payloads ≤ limit
      → (b₁.course ≡ running → (leb limit (length b₁.payloads) ≡ true) ⊎ (later ≡ []))
      → SegmentHolds content q w s rs
      → AsFarAs limit (ps ++ rs) (pass_if_running fs s limit maximum q b₁ w).0
  second_pass s limit maximum q b₁ w ps rs later kept fits ended u =
      let unchanged : ps ++ rs ≡ b₁.payloads ++ (later ++ rs) =
        ap (λ l. l ++ rs) (sym kept) ∙ append_assoc b₁.payloads later rs in
      elim (course_cases b₁.course) [
        | inr over ↦
            subst (λ x. AsFarAs limit (ps ++ rs) (x.0))
              (sym (pass_if_over s limit maximum q b₁ w over)) (later ++ rs, unchanged, fits)
        | inl runs ↦
            subst (λ x. AsFarAs limit (ps ++ rs) (x.0))
              (sym (pass_if_runs s limit maximum q b₁ w runs))
              (elim (ended runs) [
                | inl full ↦
                    subst (λ x. AsFarAs limit (ps ++ rs) x)
                      (sym (batch_pass_full s limit maximum q b₁ w full))
                      (later ++ rs, unchanged, fits)
                | inr all ↦
                    let t = batch_pass-Taken s limit maximum q b₁ w rs u in
                    let first : ps ≡ b₁.payloads =
                      sym kept ∙ (ap (λ l. b₁.payloads ++ l) all ∙ append-nil b₁.payloads) in
                    (t.later, ap (λ l. l ++ rs) first ∙ sym t.kept, t.limited fits)
              ])
      ]

  both_passes :
      (s : Segment) (limit maximum : ℕ) (q : Queue) (b : Batch) (w : W) (ps rs : List (List ℕ))
      → SegmentHolds content q w s ps
      → SegmentHolds content q w (other s) rs
      → b.payloads ≡ []
      → let (b₁, w₁) = batch_pass fs s limit maximum q b w in
        AsFarAs limit (ps ++ rs) (pass_if_running fs (other s) limit maximum q b₁ w₁).0
  both_passes s limit maximum q b w ps rs v u empty =
      let t = batch_pass-Taken s limit maximum q b w ps v in
      let same = batch_pass-content s limit maximum q b (segment_path (other s)) w in
      second_pass (other s) limit maximum q _ _ ps rs t.later (t.kept ∙ ap (λ l. l ++ ps) empty)
        (t.limited (rw empty (omega arith))) t.ended (Holds-cast same refl refl refl u)

  -- The two segments in the order of reading, and what they hold together.
  halves :
      (q : Queue) (w : W) (older newer : List (List ℕ))
      → IsQueue content q w older newer
      → (rs : List (List ℕ)) × SegmentHolds content q w (other (oldest_segment q)) rs
        × (first_records content older newer ++ rs ≡ older ++ newer)
  halves q w [] newer v = (
    [],
    subst (λ s. SegmentHolds content q w (other s) [])
        (sym (oldest_segment_active q v.older_held.count_eq)) v.older_held,
    append-nil newer,
  )
  halves q w (p ∷ ps) newer v = (
    newer,
    subst (λ s. SegmentHolds content q w (other s) newer)
        (sym (oldest_segment_inactive q (length ps) v.older_held.count_eq))
        (subst (λ s. SegmentHolds content q w s newer) (sym (other-other q.metadata.active_segment))
          v.newer_held),
    refl,
  )

  -- The payloads that `peekBatch` delivers are the oldest pending ones in their order, without a gap
  -- also across the two segments, and at most eight, whatever reads fall short.
  pub peek_batch_sound :
      (maximum_records maximum_bytes : ℕ) (q : Queue) (w : W) (older newer : List (List ℕ))
      → IsQueue content q w older newer
      → let (_, payloads, _, _) = peek_batch fs maximum_records maximum_bytes q w in
        (later : List (List ℕ)) × (older ++ newer ≡ payloads ++ later)
        × (length payloads ≤ min maximum_records 8)
  unfolding peek_batch
  peek_batch_sound maximum_records maximum_bytes q w older newer v =
      elim (Bool-cases (not q.ready || ((pending_records q == 0) || (maximum_records == 0)))) [
        | inl nothing ↦ rw (nothing, peek_batch) (older ++ newer, refl, omega arith)
        | inr some_pending ↦
            let (rs, second, order) = halves q w older newer v in
            let (left, e, fits) =
              both_passes (oldest_segment q) (min maximum_records 8) maximum_bytes q
                (record { payloads = []; bytes = 0; course = running; last_error = q.last_error }) w
                (first_records content older newer) rs
                (oldest_segment-holds content q w older newer v) second refl in
            rw (some_pending, peek_batch) (left, sym order ∙ e, fits)
      ]
