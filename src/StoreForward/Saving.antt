-- ===== src/StoreForward/Saving.antt =====
-- What `saveMetadata` and `truncateSegment` of logger/firmware/src/StoreForwardQueue.cpp leave alone.

use devices.Prelude.{ℕ, ◌≡◌, ◌≢◌, true, List, [], arith, if◌then◌else◌}
use devices.StoreForward.Fs.{
  Fs, FilePath, IsFs, Segment, segment_path, metadata_path, metadata_temporary_path,
}
use devices.StoreForward.Format.{encode_metadata, put, other}
use devices.StoreForward.Types.{Queue}
use devices.StoreForward.Metadata.{save_metadata}
use devices.StoreForward.Segments.{truncate_segment}

module _ {W R : Type 0} (fs : Fs W R) where
  -- The members other than `lastError_` are as they were.
  pub save_metadata-queue :
      (q : Queue) (w : W)
      → (save_metadata fs q w).1 ≡ record q { last_error = (save_metadata fs q w).1.last_error }
  unfolding save_metadata
  save_metadata-queue q w = ground arith

  pub truncate_segment-queue :
      (s : Segment) (q : Queue) (w : W)
      → (truncate_segment fs s q w).0 ≡ true
      → (truncate_segment fs s q w).1 ≡ record q {
        metadata = record (q.metadata) { head = put q.metadata.head s 0 };
        tail = put q.tail s 0;
        count = put q.count s 0;
      }
  unfolding truncate_segment
  truncate_segment-queue s q w h = ground arith

module _ {W R : Type 0} (fs : Fs W R) {whole rest : R → List ℕ} {content : FilePath → W → List ℕ}
    (is_fs : IsFs fs whole rest content) where
  -- Saving the metadata touches no segment file.
  pub save_metadata-content :
      (s : Segment) (q : Queue) (w : W)
      → content (segment_path s) (save_metadata fs q w).2 ≡ content (segment_path s) w
  unfolding save_metadata
  save_metadata-content s q w =
      let t = metadata_temporary_path in
      let p = segment_path s in
      let w₁ = if fs.exists t w then fs.remove t w else w in
      let w₂ = (fs.open_write t w₁).1 in
      let w₃ = (fs.write t (encode_metadata q.metadata) w₂).1 in
      let w₄ = fs.close t (fs.flush t w₃) in
      ground (
        arith,
        is_fs.remove_other t p w (λ e. cc),
        is_fs.open_write_other t p w₁ (λ e. cc),
        is_fs.write_other t p (encode_metadata q.metadata) w₂ (λ e. cc),
        is_fs.flush_keeps t p w₃,
        is_fs.close_keeps t p (fs.flush t w₃),
        is_fs.rename_other t metadata_path p w₄ (λ e. cc) (λ e. cc),
      )

  pub truncate_segment-content :
      (s : Segment) (q : Queue) (w : W)
      → (truncate_segment fs s q w).0 ≡ true
      → content (segment_path s) (truncate_segment fs s q w).2 ≡ []
  unfolding truncate_segment
  truncate_segment-content s q w h = ground (
    arith,
    is_fs.open_write_truncates (segment_path s) w,
    is_fs.close_keeps (segment_path s) (segment_path s) (fs.open_write (segment_path s) w).1,
  )

  other_ne : (s : Segment) → segment_path s ≢ segment_path (other s)
  other_ne s e = ground arith

  pub truncate_segment-other :
      (s : Segment) (q : Queue) (w : W)
      → content (segment_path (other s)) (truncate_segment fs s q w).2
        ≡ content (segment_path (other s)) w
  unfolding truncate_segment
  truncate_segment-other s q w = ground (
    arith,
    is_fs.open_write_other (segment_path s) (segment_path (other s)) w (other_ne s),
    is_fs.close_keeps (segment_path s) (segment_path (other s))
        (fs.open_write (segment_path s) w).1,
  )
