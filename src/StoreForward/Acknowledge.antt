-- ===== src/StoreForward/Acknowledge.antt =====
-- `popIfMatches` of logger/firmware/src/StoreForwardQueue.cpp: acknowledging what was submitted.

use devices.Prelude.{
  ℕ, ◌≡◌, ap, ◌∙◌, Bool, List, ◌∷◌, ◌++◌, ◌⊎◌, inl, inr, arith, Option-cases, Bool-cases, bytes_eq,
  bytes_eq→eq, if◌then◌else◌,
}
use devices.StoreForward.Fs.{Fs, FilePath, IsFs, Segment, segment_path}
use devices.StoreForward.Types.{Queue, saturating_add, oldest_segment}
use devices.StoreForward.Contents.{IsQueue}
use devices.StoreForward.Queue.{peek, peek_file, pop_if_matches}
use devices.StoreForward.Peek.{peek_sound}
use devices.StoreForward.Held.{
  SameHeld, TwoHold-same, IsQueue-TwoHold_active, TwoHold-active-IsQueue,
}
use devices.StoreForward.Pop.{Popped, Unpopped, pop_refines}

module _ {W R : Type 0} (fs : Fs W R) {whole rest : R → List ℕ} {content : FilePath → W → List ℕ}
    (is_fs : IsFs fs whole rest content) where
  -- `peek` changes no member but the error, and no file.
  peek-queue :
      (q : Queue) (w : W) → (peek fs q w).1 ≡ record q { last_error = (peek fs q w).1.last_error }
  unfolding peek peek_file
  peek-queue q w = ground arith

  peek-content :
      (s : Segment) (q : Queue) (w : W)
      → content (segment_path s) (peek fs q w).2 ≡ content (segment_path s) w
  unfolding peek
  peek-content s q w =
      ground (arith, is_fs.open_read_keeps (segment_path (oldest_segment q)) (segment_path s) w)

  peek-SameHeld : (q : Queue) (w : W) → SameHeld content q (peek fs q w).1 w (peek fs q w).2
  peek-SameHeld q w =
      let same = peek-queue q w in
      record {
        head_same = ap (λ r. r.metadata.head) same;
        tail_same = ap (λ r. r.tail) same;
        count_same = ap (λ r. r.count) same;
        ready_same = ap (λ r. r.ready) same;
        maximum_same = ap (λ r. r.segment_maximum_bytes) same;
        content_same = λ s. peek-content s q w;
      }

  -- `peek` leaves the same records pending.
  pub peek-IsQueue :
      (q : Queue) (w : W) (older newer : List (List ℕ))
      → IsQueue content q w older newer
      → IsQueue content (peek fs q w).1 (peek fs q w).2 older newer
  peek-IsQueue q w older newer v =
      TwoHold-active-IsQueue content (ap (λ r. r.metadata.active_segment) (peek-queue q w))
        (TwoHold-same content (peek-SameHeld q w) (IsQueue-TwoHold_active content v))

  -- An acknowledgement never takes off a record other than the one that was submitted: either the
  -- submitted payload was the oldest pending record and is gone, or all records are still pending.
  pub pop_if_matches_refines :
      (submitted : List ℕ) (discarded : Bool) (q : Queue) (w : W) (older newer : List (List ℕ))
      → IsQueue content q w older newer
      → let (done, q', w') = pop_if_matches fs submitted discarded q w in
        Popped fs is_fs discarded q (q', w') older newer submitted
        ⊎ Unpopped fs is_fs q (q', w') older newer
  unfolding pop_if_matches
  pop_if_matches_refines submitted d q w older newer v =
      let q₁ = (peek fs q w).1 in
      let w₁ = (peek fs q w).2 in
      let v₁ = peek-IsQueue q w older newer v in
      let dropped = ap (λ r. r.metadata.dropped_records) (peek-queue q w) in
      elim (Option-cases (peek fs q w).0) [
        | inl nothing ↦ rw (nothing, pop_if_matches) (inr (v₁, dropped))
        | inr (payload, peeked) ↦ elim (Bool-cases (bytes_eq payload submitted)) [
          | inl same ↦
              let (later, first) = peek_sound fs is_fs q w older newer v peeked in
              let is_submitted = bytes_eq→eq payload submitted same in
              elim (pop_refines fs is_fs d q₁ w₁ older newer v₁) [
                | inl (p, (older', newer', held, rest_eq, counted)) ↦
                    rw (peeked, same, pop_if_matches)
                      (inl (
                        older',
                        newer',
                        held,
                        rest_eq
                            ∙ ap (λ x. x ∷ (older' ++ newer')) (cc (first, rest_eq, is_submitted)),
                        counted ∙ ap (λ n. if d then saturating_add n 1 else n) dropped,
                      ))
                | inr (_, (held, counted)) ↦
                    rw (peeked, same, pop_if_matches) (inr (held, counted ∙ dropped))
              ]
          | inr differs ↦ rw (peeked, differs, pop_if_matches) (inr (v₁, dropped))
        ]
      ]
