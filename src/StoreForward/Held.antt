-- ===== src/StoreForward/Held.antt =====
-- The two segments of a queue of logger/firmware/src/StoreForwardQueue.cpp seen from either one, and
-- members and files that are the same for both.

use devices.Prelude.{ℕ, ◌≤◌, ◌<◌, ◌≡◌, refl, sym, ap, ◌∙◌, true, List}
use devices.StoreForward.Fs.{FilePath, Segment, segment_path}
use devices.StoreForward.Format.{at, other}
use devices.StoreForward.Types.{Queue}
use devices.StoreForward.Contents.{IsQueue, other-other, SegmentHolds, Holds-cast}
use Prim.Native.String.{String}
use devices.StoreForward.Queue.{fail}

module _ {W : Type 0} (content : FilePath → W → List ℕ) where
  -- The two segments of a queue, `s` with the records `a`, and the other with `b`.
  pub record TwoHold (q : Queue) (w : W) (s : Segment) (a b : List (List ℕ)) : Type 0 where
    pub first_held : SegmentHolds content q w s a
    pub second_held : SegmentHolds content q w (other s) b
    pub is_ready : q.ready ≡ true
    pub bounded : q.segment_maximum_bytes < 2147483648
    pub first_fits : at q.tail s ≤ q.segment_maximum_bytes
    pub second_fits : at q.tail (other s) ≤ q.segment_maximum_bytes

  -- Members that are equal, and files that hold the same.
  pub record SameHeld (q q' : Queue) (w w' : W) : Type 0 where
    pub head_same : q'.metadata.head ≡ q.metadata.head
    pub tail_same : q'.tail ≡ q.tail
    pub count_same : q'.count ≡ q.count
    pub ready_same : q'.ready ≡ q.ready
    pub maximum_same : q'.segment_maximum_bytes ≡ q.segment_maximum_bytes
    pub content_same : (s : Segment) → content (segment_path s) w' ≡ content (segment_path s) w

  pub TwoHold-same :
      {q q' : Queue} {w w' : W} {s : Segment} {a b : List (List ℕ)}
      → SameHeld q q' w w'
      → TwoHold q w s a b
      → TwoHold q' w' s a b
  TwoHold-same {s = s} e v = record {
    first_held =
        Holds-cast (e.content_same s) (ap (λ p. at p s) e.head_same) (ap (λ p. at p s) e.tail_same)
          (ap (λ p. at p s) e.count_same) v.first_held;
    second_held =
        Holds-cast (e.content_same (other s)) (ap (λ p. at p (other s)) e.head_same)
          (ap (λ p. at p (other s)) e.tail_same) (ap (λ p. at p (other s)) e.count_same)
          v.second_held;
    is_ready = e.ready_same ∙ v.is_ready;
    bounded = rw e.maximum_same v.bounded;
    first_fits = rw (e.maximum_same, e.tail_same) v.first_fits;
    second_fits = rw (e.maximum_same, e.tail_same) v.second_fits;
  }

  pub fail-SameHeld : (q : Queue) (w : W) (e : String) → SameHeld q (fail q e) w w
  fail-SameHeld q w e = record {
    head_same = refl;
    tail_same = refl;
    count_same = refl;
    ready_same = refl;
    maximum_same = refl;
    content_same = λ s. refl;
  }

  pub same_queue : (q : Queue) (w : W) → SameHeld q q w w
  same_queue q w = record {
    head_same = refl;
    tail_same = refl;
    count_same = refl;
    ready_same = refl;
    maximum_same = refl;
    content_same = λ s. refl;
  }

  pub IsQueue-TwoHold_active :
      {q : Queue} {w : W} {older newer : List (List ℕ)}
      → IsQueue content q w older newer
      → TwoHold q w q.metadata.active_segment newer older
  IsQueue-TwoHold_active v = record {
    first_held = v.newer_held;
    second_held = v.older_held;
    is_ready = v.is_ready;
    bounded = v.bounded;
    first_fits = v.newer_fits;
    second_fits = v.older_fits;
  }

  pub IsQueue-TwoHold-other :
      {q : Queue} {w : W} {older newer : List (List ℕ)}
      → IsQueue content q w older newer
      → TwoHold q w (other q.metadata.active_segment) older newer
  IsQueue-TwoHold-other {q} v = record {
    first_held = v.older_held;
    second_held = rw (other-other q.metadata.active_segment) v.newer_held;
    is_ready = v.is_ready;
    bounded = v.bounded;
    first_fits = v.older_fits;
    second_fits = rw (other-other q.metadata.active_segment) v.newer_fits;
  }

  pub TwoHold-active-IsQueue :
      {q : Queue} {w : W} {s : Segment} {older newer : List (List ℕ)}
      → q.metadata.active_segment ≡ s
      → TwoHold q w s newer older
      → IsQueue content q w older newer
  TwoHold-active-IsQueue e v = record {
    older_held = rw e v.second_held;
    newer_held = rw e v.first_held;
    is_ready = v.is_ready;
    bounded = v.bounded;
    older_fits = rw e v.second_fits;
    newer_fits = rw e v.first_fits;
  }

  pub TwoHold-other-IsQueue :
      {q : Queue} {w : W} {s : Segment} {older newer : List (List ℕ)}
      → q.metadata.active_segment ≡ s
      → TwoHold q w (other s) older newer
      → IsQueue content q w older newer
  TwoHold-other-IsQueue {s = s} e v = record {
    older_held = rw e v.first_held;
    newer_held = rw (e ∙ sym (other-other s)) v.second_held;
    is_ready = v.is_ready;
    bounded = v.bounded;
    older_fits = rw e v.first_fits;
    newer_fits = rw (e ∙ sym (other-other s)) v.second_fits;
  }
