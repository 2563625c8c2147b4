-- ===== src/Upload/Untouched.antt =====
-- Acknowledging a record (logger/firmware/src/StoreForwardQueue.cpp) leaves the archive of rejected
-- payloads alone.
use devices.Prelude.{ℕ, ◌≡◌, Bool, List, arith, Option-cases, inl, inr, if◌then◌else◌}
use devices.StoreForward.Fs.{
  Fs, FilePath, IsFs, Segment, segment_path, metadata_path, metadata_temporary_path, rejected_path,
}
use devices.StoreForward.Format.{encode_metadata}
use devices.StoreForward.Types.{Queue, oldest_segment}
use devices.StoreForward.Metadata.{save_metadata}
use devices.StoreForward.Segments.{truncate_segment}
use devices.StoreForward.Queue.{
  open_at_head, read_header, peek, reclaim, commit_pop, advance, pop, pop_if_matches,
}

module _ {W R : Type 0} (fs : Fs W R) {whole rest : R → List ℕ} {content : FilePath → W → List ℕ}
    (is_fs : IsFs fs whole rest content) where
  -- Acknowledging a record does not touch the archive.
  save_metadata-rejected :
      (n : ℕ) (q : Queue) (w : W)
      → content (rejected_path n) (save_metadata fs q w).2 ≡ content (rejected_path n) w
  unfolding save_metadata
  save_metadata-rejected n q w =
      let t = metadata_temporary_path in
      let p = rejected_path n in
      let w₁ = if fs.exists t w then fs.remove t w else w in
      let w₂ = (fs.open_write t w₁).1 in
      let w₃ = (fs.write t (encode_metadata q.metadata) w₂).1 in
      let w₄ = fs.close t (fs.flush t w₃) in
      ground (
        arith,
        is_fs.remove_other t p w (λ e. cc),
        is_fs.open_write_other t p w₁ (λ e. cc),
        is_fs.write_other t p (encode_metadata q.metadata) w₂ (λ e. cc),
        is_fs.flush_keeps t p w₃,
        is_fs.close_keeps t p (fs.flush t w₃),
        is_fs.rename_other t metadata_path p w₄ (λ e. cc) (λ e. cc),
      )

  truncate_segment-rejected :
      (n : ℕ) (s : Segment) (q : Queue) (w : W)
      → content (rejected_path n) (truncate_segment fs s q w).2 ≡ content (rejected_path n) w
  unfolding truncate_segment
  truncate_segment-rejected n s q w =
      let p = segment_path s in
      ground (
        arith,
        is_fs.open_write_other p (rejected_path n) w (λ e. cc),
        is_fs.close_keeps p (rejected_path n) (fs.open_write p w).1,
      )

  reclaim-rejected :
      (n : ℕ) (s : Segment) (q : Queue) (w : W)
      → content (rejected_path n) (reclaim fs s q w).2 ≡ content (rejected_path n) w
  unfolding reclaim
  reclaim-rejected n s q w =
      let x = truncate_segment fs s q w in
      ground (arith, truncate_segment-rejected n s q w, save_metadata-rejected n x.1 x.2)

  commit_pop-rejected :
      (n : ℕ) (s : Segment) (l : ℕ) (d : Bool) (q : Queue) (w : W)
      → content (rejected_path n) (commit_pop fs s l d q w).2 ≡ content (rejected_path n) w
  unfolding commit_pop
  commit_pop-rejected n s l d q w =
      let x = save_metadata fs (advance s l d q) w in
      ground (arith, save_metadata-rejected n (advance s l d q) w, reclaim-rejected n s x.1 x.2)

  open_at_head-rejected :
      (n : ℕ) (s : Segment) (q : Queue) (w : W)
      → content (rejected_path n) (open_at_head fs s q w).1 ≡ content (rejected_path n) w
  open_at_head-rejected n s q w =
      ground (arith, is_fs.open_read_keeps (segment_path s) (rejected_path n) w)

  pop-rejected :
      (n : ℕ) (d : Bool) (q : Queue) (w : W)
      → content (rejected_path n) (pop fs d q w).2 ≡ content (rejected_path n) w
  unfolding pop
  pop-rejected n d q w =
      let s = oldest_segment q in
      let w₁ = (open_at_head fs s q w).1 in
      let opened = open_at_head-rejected n s q w in
      elim (Option-cases (open_at_head fs s q w).0) [
        | inl lost ↦ ground (arith, opened)
        | inr (file, found) ↦ elim (Option-cases (read_header fs file).0) [
          | inl bad ↦ ground (arith, opened)
          | inr (h, read) ↦ ground (arith, opened, commit_pop-rejected n s h.length d q w₁)
        ]
      ]

  peek-rejected :
      (n : ℕ) (q : Queue) (w : W)
      → content (rejected_path n) (peek fs q w).2 ≡ content (rejected_path n) w
  unfolding peek
  peek-rejected n q w = ground (arith, open_at_head-rejected n (oldest_segment q) q w)

  pub pop_if_matches-rejected :
      (n : ℕ) (submitted : List ℕ) (d : Bool) (q : Queue) (w : W)
      → content (rejected_path n) (pop_if_matches fs submitted d q w).2
        ≡ content (rejected_path n) w
  unfolding pop_if_matches
  pop_if_matches-rejected n submitted d q w =
      let x = peek fs q w in ground (arith, peek-rejected n q w, pop-rejected n d x.1 x.2)
