-- ===== src/StoreForward/Commit.antt =====
-- The committing half of `pop` of logger/firmware/src/StoreForwardQueue.cpp: the head advances, the
-- metadata is saved, and an emptied segment is reclaimed.
use mathlib.Core.List.{append_assoc}
use devices.Prelude.{
  ℕ, ◌+◌, ◌-◌, ◌<◌, ◌≡◌, refl, sym, ap, ◌∙◌, Bool, true, false, List, [], ◌∷◌, ◌++◌, ◌⊎◌, inl, inr,
  arith, length, length-append, Bool-cases, ◌==◌,
}
use devices.Prelude.Words.{u32}
use devices.StoreForward.Fs.{Fs, FilePath, IsFs, Segment, segment_path}
use devices.StoreForward.Format.{at, other, header_bytes}
use devices.StoreForward.Types.{Queue}
use devices.StoreForward.Reading.{encode_record, length-encode_record}
use devices.StoreForward.Contents.{
  encode_records, Holds, Holds-cast, Holds-empty, at-put_self, at-put-other,
}
use devices.StoreForward.Metadata.{save_metadata}
use devices.StoreForward.Segments.{truncate_segment}
use mathlib.Core.Path.{subst}
use devices.StoreForward.Queue.{advance, restore, reclaim, commit_pop}
use devices.StoreForward.Saving.{
  save_metadata-queue, save_metadata-content, truncate_segment-queue, truncate_segment-content,
  truncate_segment-other,
}
use devices.StoreForward.Held.{TwoHold, SameHeld, TwoHold-same, fail-SameHeld}

-- A segment whose head has moved past its first record.
Holds-advance :
    {bytes : List ℕ} {head tail count : ℕ} (p : List ℕ) {ps : List (List ℕ)}
    → Holds bytes head tail count (p ∷ ps)
    → tail < 2147483648
    → Holds bytes (u32 (head + (header_bytes + length p))) tail (count - 1) ps
Holds-advance {bytes} p {ps} v small = record {
  skipped = v.skipped ++ encode_record p;
  bytes_eq = v.bytes_eq ∙ sym (append_assoc v.skipped (encode_record p) (encode_records ps));
  head_eq = omega (
    arith,
    v.head_eq,
    v.tail_eq,
    ap length v.bytes_eq,
    length-append v.skipped (encode_record p ++ encode_records ps),
    length-append v.skipped (encode_record p),
    length-append (encode_record p) (encode_records ps),
    length-encode_record p,
  );
  tail_eq = v.tail_eq;
  count_eq = omega (arith, v.count_eq);
  payloads = v.payloads.1;
}

module _ {W : Type 0} (content : FilePath → W → List ℕ) where
  pub advance-TwoHold :
      (q : Queue) (w : W) (s : Segment) (p : List ℕ) (ps b : List (List ℕ)) (discarded : Bool)
      → TwoHold content q w s (p ∷ ps) b
      → TwoHold content (advance s (length p) discarded q) w s ps b
  advance-TwoHold q w s p ps b discarded v = record {
    first_held =
        Holds-cast refl (at-put_self q.metadata.head s _) refl (at-put_self q.count s _)
          (Holds-advance p v.first_held (omega arith));
    second_held =
        Holds-cast refl (at-put-other q.metadata.head s _) refl (at-put-other q.count s _)
          v.second_held;
    is_ready = v.is_ready;
    bounded = v.bounded;
    first_fits = v.first_fits;
    second_fits = v.second_fits;
  }

module _ {W R : Type 0} (fs : Fs W R) {whole rest : R → List ℕ} {content : FilePath → W → List ℕ}
    (is_fs : IsFs fs whole rest content) where
  save-SameHeld :
      (q : Queue) (w : W) → SameHeld content q (save_metadata fs q w).1 w (save_metadata fs q w).2
  save-SameHeld q w =
      let same = save_metadata-queue fs q w in
      record {
        head_same = ap (λ r. r.metadata.head) same;
        tail_same = ap (λ r. r.tail) same;
        count_same = ap (λ r. r.count) same;
        ready_same = ap (λ r. r.ready) same;
        maximum_same = ap (λ r. r.segment_maximum_bytes) same;
        content_same = λ s. save_metadata-content fs is_fs s q w;
      }

  -- A truncation that fails changes nothing but the error.
  truncate_fails-SameHeld :
      (s : Segment) (q : Queue) (w : W)
      → (truncate_segment fs s q w).0 ≡ false
      → SameHeld content q (truncate_segment fs s q w).1 w (truncate_segment fs s q w).2
  unfolding truncate_segment
  truncate_fails-SameHeld s q w e = record {
    head_same = ground arith;
    tail_same = ground arith;
    count_same = ground arith;
    ready_same = ground arith;
    maximum_same = ground arith;
    content_same = λ t. ground (arith, is_fs.open_write_fails (segment_path s) (segment_path t) w);
  }

  -- A segment with no record left stays so when it is truncated.
  truncate-TwoHold :
      (s : Segment) (q : Queue) (w : W) (b : List (List ℕ))
      → TwoHold content q w s [] b
      → (truncate_segment fs s q w).0 ≡ true
      → TwoHold content (truncate_segment fs s q w).1 (truncate_segment fs s q w).2 s [] b
  truncate-TwoHold s q w b v done = rw (truncate_segment-queue fs s q w done) (record {
    first_held =
        Holds-cast refl (at-put_self q.metadata.head s 0) (at-put_self q.tail s 0)
          (at-put_self q.count s 0) (Holds-empty (truncate_segment-content fs is_fs s q w done));
    second_held =
        Holds-cast (truncate_segment-other fs is_fs s q w) (at-put-other q.metadata.head s 0)
          (at-put-other q.tail s 0) (at-put-other q.count s 0) v.second_held;
    is_ready = v.is_ready;
    bounded = v.bounded;
    first_fits = rw (at-put_self q.tail s) (omega arith);
    second_fits = rw (at-put-other q.tail s) v.second_fits;
  })

  -- Taking back an advance that was not saved.
  restore-TwoHold :
      (q : Queue) (w w' : W) (s : Segment) (n : ℕ) (d : Bool) (a b : List (List ℕ)) (q₁ : Queue)
      → TwoHold content q w s a b
      → SameHeld content (advance s n d q) q₁ w w'
      → TwoHold content (restore s q q₁) w' s a b
  restore-TwoHold q w w' s n d a b q₁ v e = record {
    first_held =
        Holds-cast (e.content_same s) (at-put_self q₁.metadata.head s _)
          (ap (λ t. at t s) e.tail_same) (at-put_self q₁.count s _) v.first_held;
    second_held =
        Holds-cast (e.content_same (other s))
          (at-put-other q₁.metadata.head s _
            ∙ (ap (λ h. at h (other s)) e.head_same ∙ at-put-other q.metadata.head s _))
          (ap (λ t. at t (other s)) e.tail_same)
          (at-put-other q₁.count s _
            ∙ (ap (λ c. at c (other s)) e.count_same ∙ at-put-other q.count s _))
          v.second_held;
    is_ready = e.ready_same ∙ v.is_ready;
    bounded = rw e.maximum_same v.bounded;
    first_fits = rw (e.maximum_same, e.tail_same) v.first_fits;
    second_fits = rw (e.maximum_same, e.tail_same) v.second_fits;
  }

  count_none :
      {q : Queue} {w : W} {s : Segment} (ps : List (List ℕ)) {b : List (List ℕ)}
      → TwoHold content q w s ps b
      → (at q.count s == 0) ≡ true
      → ps ≡ []
  count_none [] v e = refl
  count_none (p ∷ ps) v e = absurd (ground (arith, v.first_held.count_eq))

  reclaim-TwoHold :
      (s : Segment) (ps b : List (List ℕ)) (q : Queue) (w : W)
      → TwoHold content q w s ps b
      → TwoHold content (reclaim fs s q w).1 (reclaim fs s q w).2 s ps b
  unfolding reclaim
  reclaim-TwoHold s ps b q w v =
      let q₁ = (truncate_segment fs s q w).1 in
      let w₁ = (truncate_segment fs s q w).2 in
      let q₂ = (save_metadata fs q₁ w₁).1 in
      let w₂ = (save_metadata fs q₁ w₁).2 in
      elim (Bool-cases (at q.count s == 0)) [
        | inl last ↦ elim (Bool-cases (truncate_segment fs s q w).0) [
          | inl truncated ↦
              let emptied =
                truncate-TwoHold s q w b
                  (subst (λ l. TwoHold content q w s l b) (count_none ps v last) v) truncated in
              let kept =
                subst (λ l. TwoHold content q₂ w₂ s l b) (sym (count_none ps v last))
                  (TwoHold-same content (save-SameHeld q₁ w₁) emptied) in
              elim (Bool-cases (save_metadata fs q₁ w₁).0) [
                | inl saved ↦
                    rw (last, truncated, saved)
                      (TwoHold-same content (fail-SameHeld content q₂ w₂ "") kept)
                | inr unsaved ↦ rw (last, truncated, unsaved) kept
              ]
          | inr failed ↦
              rw (last, failed) (TwoHold-same content (truncate_fails-SameHeld s q w failed) v)
        ]
        | inr more ↦ rw more (TwoHold-same content (fail-SameHeld content q w "") v)
      ]

  -- Reclaiming leaves the active segment and the drop counter alone.
  reclaim-metadata :
      (s : Segment) (q : Queue) (w : W)
      → ((reclaim fs s q w).1.metadata.active_segment ≡ q.metadata.active_segment)
        × ((reclaim fs s q w).1.metadata.dropped_records ≡ q.metadata.dropped_records)
  unfolding reclaim truncate_segment
  reclaim-metadata s q w =
      let q₁ = (truncate_segment fs s q w).1 in
      let w₁ = (truncate_segment fs s q w).2 in
      let same = save_metadata-queue fs q₁ w₁ in
      ground
        (arith, ap (λ r. r.metadata.active_segment) same, ap (λ r. r.metadata.dropped_records) same)

  pub commit_pop-active :
      (s : Segment) (n : ℕ) (d : Bool) (q : Queue) (w : W)
      → (commit_pop fs s n d q w).1.metadata.active_segment ≡ q.metadata.active_segment
  unfolding commit_pop
  commit_pop-active s n d q w =
      let q₁ = (save_metadata fs (advance s n d q) w).1 in
      let w₁ = (save_metadata fs (advance s n d q) w).2 in
      let same = save_metadata-queue fs (advance s n d q) w in
      ground (arith, ap (λ r. r.metadata.active_segment) same, reclaim-metadata s q₁ w₁)

  -- What `commit_pop` leaves of a segment whose first record is `p`: the record is gone, and counted
  -- if it is discarded, or it is still there, nothing is counted, and the call has failed.
  pub commit_pop-TwoHold :
      (s : Segment) (p : List ℕ) (ps b : List (List ℕ)) (discarded : Bool) (q : Queue) (w : W)
      → TwoHold content q w s (p ∷ ps) b
      → let (done, q', w') = commit_pop fs s (length p) discarded q w in
        TwoHold content q' w' s ps b
          × (q'.metadata.dropped_records
              ≡ (advance s (length p) discarded q).metadata.dropped_records)
        ⊎ (done ≡ false)
          × TwoHold content q' w' s (p ∷ ps) b
          × (q'.metadata.dropped_records ≡ q.metadata.dropped_records)
  unfolding commit_pop
  commit_pop-TwoHold s p ps b discarded q w v =
      let advanced = advance s (length p) discarded q in
      let q₁ = (save_metadata fs advanced w).1 in
      let w₁ = (save_metadata fs advanced w).2 in
      let same = save-SameHeld advanced w in
      elim (Bool-cases (save_metadata fs advanced w).0) [
        | inl saved ↦
            let held =
              TwoHold-same content same (advance-TwoHold content q w s p ps b discarded v) in
            let counted =
              (reclaim-metadata s q₁ w₁).1
              ∙ ap (λ r. r.metadata.dropped_records) (save_metadata-queue fs advanced w) in
            rw saved (inl (reclaim-TwoHold s ps b q₁ w₁ held, counted))
        | inr unsaved ↦
            let held = restore-TwoHold q w w₁ s (length p) discarded (p ∷ ps) b q₁ v same in
            rw unsaved (inr (refl, held, refl))
      ]
