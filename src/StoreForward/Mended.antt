-- ===== src/StoreForward/Mended.antt =====
-- The repair of a torn segment by `scanSegment` of logger/firmware/src/StoreForwardQueue.cpp as a whole.

use devices.Prelude.{
  ℕ, ◌≡◌, ◌≢◌, sym, ap, ◌∙◌, Bool, true, false, some, List, ◌++◌, arith, length, Option-cases,
  Bool-cases, inl, inr,
}
use devices.StoreForward.Fs.{
  Fs, FilePath, Segment, IsFs, segment_path, quarantine_path, segment_repair_path,
}
use devices.StoreForward.Types.{Queue}
use devices.StoreForward.Scan.{copy_prefix, copy_corrupt, repair_tail}
use devices.StoreForward.Repaired.{
  copy_prefix-other, copy_prefix-eq, copy_corrupt-other, copy_corrupt-eq,
}

module _ {W R : Type 0} (fs : Fs W R) {whole rest : R → List ℕ} {content : FilePath → W → List ℕ}
    (is_fs : IsFs fs whole rest content) where
  -- What the files are after a repair: if it is done, the segment file holds the valid prefix and
  -- the quarantine file has grown by the rest; if it is not, the segment file is as it was.
  pub record Repaired (s : Segment) (valid torn : List ℕ) (done : Bool) (w w' : W) : Type 0 where
    pub prefix_kept : done ≡ true → content (segment_path s) w' ≡ valid
    pub torn_moved :
        done ≡ true → content (quarantine_path s) w' ≡ content (quarantine_path s) w ++ torn
    pub else_same : done ≡ false → content (segment_path s) w' ≡ content (segment_path s) w
    pub others_same :
        (p : FilePath)
        → segment_path s ≢ p
        → segment_repair_path ≢ p
        → quarantine_path s ≢ p
        → content p w' ≡ content p w

  -- Flushing and closing both files changes neither.
  closed-content :
      (s : Segment) (p : FilePath) (w : W)
      → let q = quarantine_path s in
        let r = segment_repair_path in
        content p (fs.close q (fs.close r (fs.flush q (fs.flush r w)))) ≡ content p w
  closed-content s p w =
      let q = quarantine_path s in
      let r = segment_repair_path in
      let w₁ = fs.flush r w in
      let w₂ = fs.flush q w₁ in
      is_fs.close_keeps q p (fs.close r w₂)
      ∙ (is_fs.close_keeps r p w₂ ∙ (is_fs.flush_keeps q p w₁ ∙ is_fs.flush_keeps r p w))

  -- Before the rename, a file other than the two that are written is as it was.
  prepared-other :
      (s : Segment) (tail corrupt : ℕ) (p : FilePath) (w : W)
      → segment_repair_path ≢ p
      → quarantine_path s ≢ p
      → let q = quarantine_path s in
        let r = segment_repair_path in
        let (prefix, w₁) = copy_prefix fs s tail w in
        let w₂ = (copy_corrupt fs s corrupt prefix w₁).1 in
        content p (fs.close q (fs.close r (fs.flush q (fs.flush r w₂)))) ≡ content p w
  prepared-other s tail corrupt p w ne ne' =
      let prefix = (copy_prefix fs s tail w).0 in
      let w₁ = (copy_prefix fs s tail w).1 in
      closed-content s p (copy_corrupt fs s corrupt prefix w₁).1
      ∙ (copy_corrupt-other fs is_fs s corrupt prefix p w₁ ne'
          ∙ copy_prefix-other fs is_fs s tail p w ne)

  -- Once both copies are done, the two files hold the two parts.
  prepared-eq :
      (s : Segment) (valid torn : List ℕ) (w : W)
      → content (segment_path s) w ≡ valid ++ torn
      → let q = quarantine_path s in
        let r = segment_repair_path in
        let (prefix, w₁) = copy_prefix fs s (length valid) w in
        let (done, w₂) = copy_corrupt fs s (length torn) prefix w₁ in
        let w₃ = fs.close q (fs.close r (fs.flush q (fs.flush r w₂))) in
        done ≡ true → (content r w₃ ≡ valid) × (content q w₃ ≡ content q w ++ torn)
  unfolding copy_corrupt
  prepared-eq s valid torn w e done =
      let n = length valid in
      let q = quarantine_path s in
      let w₁ = (copy_prefix fs s n w).1 in
      elim (Option-cases (copy_prefix fs s n w).0) [
        | inl lost ↦ absurd (ground arith)
        | inr (source, copied) ↦
            let (kept, is_rest) = copy_prefix-eq fs is_fs s valid torn w e copied in
            let done' : (copy_corrupt fs s (length torn) (some source) w₁).0 ≡ true =
              ap (λ x. (copy_corrupt fs s (length torn) x w₁).0) (sym copied) ∙ done in
            let moved = copy_corrupt-eq fs is_fs s torn source w₁ is_rest done' in
            let w₂ = (copy_corrupt fs s (length torn) (copy_prefix fs s n w).0 w₁).1 in
            let at_copied = ap (λ x. content q (copy_corrupt fs s (length torn) x w₁).1) copied in
            (
              closed-content s segment_repair_path w₂
                  ∙ (copy_corrupt-other fs is_fs s (length torn) (copy_prefix fs s n w).0
                        segment_repair_path w₁ (λ c. cc)
                      ∙ kept),
              closed-content s q w₂
                  ∙ (at_copied
                      ∙ (moved
                          ∙ ap (λ l. l ++ torn) (copy_prefix-other fs is_fs s n q w (λ c. cc)))),
            )
      ]

  pub repair_tail-Repaired :
      (s : Segment) (valid torn : List ℕ) (q : Queue) (w : W)
      → content (segment_path s) w ≡ valid ++ torn
      → let (done, _, w') = repair_tail fs s (length valid) (length torn) q w in
        Repaired s valid torn done w w'
  unfolding repair_tail
  repair_tail-Repaired s valid torn q w e =
      let p = segment_path s in
      let t = quarantine_path s in
      let r = segment_repair_path in
      let prefix = (copy_prefix fs s (length valid) w).0 in
      let w₁ = (copy_prefix fs s (length valid) w).1 in
      let w₂ = (copy_corrupt fs s (length torn) prefix w₁).1 in
      let w₄ = fs.close t (fs.close r (fs.flush t (fs.flush r w₂))) in
      let same = λ (f : FilePath) (ne : r ≢ f) (ne' : t ≢ f).
        prepared-other s (length valid) (length torn) f w ne ne' in
      elim (Bool-cases (copy_corrupt fs s (length torn) prefix w₁).0) [
        | inr not_copied ↦
            rw (not_copied, repair_tail)
              (record {
                prefix_kept = λ h. absurd (cc);
                torn_moved = λ h. absurd (cc);
                else_same = λ h. same p (λ c. cc) (λ c. cc);
                others_same = λ f a b c. same f b c;
              })
        | inl copied ↦
            let (kept, moved) = prepared-eq s valid torn w e copied in
            elim (Bool-cases (fs.rename r p w₄).0) [
              | inr not_renamed ↦
                  rw (copied, not_renamed, repair_tail)
                    (record {
                      prefix_kept = λ h. absurd (cc);
                      torn_moved = λ h. absurd (cc);
                      else_same =
                          λ h. is_fs.rename_fails r p p w₄ not_renamed ∙ same p (λ c. cc) (λ c. cc);
                      others_same = λ f a b c. is_fs.rename_fails r p f w₄ not_renamed ∙ same f b c;
                    })
              | inl renamed ↦
                  rw (copied, renamed, repair_tail)
                    (record {
                      prefix_kept = λ h. is_fs.rename_moves r p w₄ renamed ∙ kept;
                      torn_moved = λ h. is_fs.rename_other r p t w₄ (λ c. cc) (λ c. cc) ∙ moved;
                      else_same = λ h. absurd (cc);
                      others_same = λ f a b c. is_fs.rename_other r p f w₄ b a ∙ same f b c;
                    })
            ]
      ]
