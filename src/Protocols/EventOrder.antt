-- ===== src/Protocols/EventOrder.antt =====
-- That the ring `Queue<N>` of shared/protocols/SystemEvents.h is a bounded first-in, first-out queue.
use native.Mathlib.Nat.{mod-add-mod, mod-eq_of_lt, mod-eq-sub-mod}
use devices.Prelude.{
  ℕ, zero, suc, ◌+◌, ◌-◌, ◌*◌, ◌%◌, ◌^◌, ◌<◌, ◌≤◌, ◌≡◌, refl, sym, ap, ◌∙◌, arith, true, false,
  Option, some, none, List, [], ◌∷◌, ◌++◌, ◌⊎◌, inl, inr, length, length-set, get_elem?, set, drop,
  ltb, if◌then◌else◌, Bool-cases,
}
use devices.Protocols.EventQueue.{Queue, slot, push, front, pop, held_from, contents, IsQueue}

slot_wrap : (n i : ℕ) → n ≤ i → i < 2 * n → slot n i ≡ i - n
slot_wrap n i h k = mod-eq-sub-mod h ∙ mod-eq_of_lt (omega arith)

slot_next : (n h k : ℕ) → slot n (slot n (h + 1) + k) ≡ slot n (h + suc k)
slot_next n h k = mod-add-mod (h + 1) n k ∙ ap (λ i. slot n i) (omega arith)

slot_in : (n i : ℕ) → 0 < n → slot n i < n
slot_in n i h = omega arith

slot_away : (n h k : ℕ) → h < n → suc k < n → slot n (h + suc k) ≡ h → ⊥
slot_away n h k hs ks e = elim (leb_or n (h + suc k)) [
  | inl below ↦ omega (arith, mod-eq_of_lt below)
  | inr above ↦ omega (arith, slot_wrap n (h + suc k) above (omega arith))
]
  where
    leb_or : (n i : ℕ) → (i < n) ⊎ (n ≤ i)
    leb_or n i = ground arith

module _ {ℓ} {A : Type ℓ} where
  get-set_away :
      (xs : List A) (i j : ℕ) (e : A) → (i ≡ j → ⊥) → get_elem? (set xs i e) j ≡ get_elem? xs j
  get-set_away [] i j e h = refl
  get-set_away (x ∷ xs) zero zero e h = absurd (h refl)
  get-set_away (x ∷ xs) zero (suc j) e h = refl
  get-set_away (x ∷ xs) (suc i) zero e h = refl
  get-set_away (x ∷ xs) (suc i) (suc j) e h = get-set_away xs i j e (λ q. h (ap suc q))

  get-set_here : (xs : List A) (i : ℕ) (e : A) → i < length xs → get_elem? (set xs i e) i ≡ some e
  get-set_here [] i e h = absurd (omega arith)
  get-set_here (x ∷ xs) zero e h = refl
  get-set_here (x ∷ xs) (suc i) e h = get-set_here xs i e (omega arith)

  get_in : (xs : List A) (i : ℕ) → i < length xs → (x : A) × (get_elem? xs i ≡ some x)
  get_in [] i h = absurd (omega arith)
  get_in (x ∷ xs) zero h = (x, refl)
  get_in (x ∷ xs) (suc i) h = get_in xs i (omega arith)

  held_from_cons :
      (xs : List A) (x : A) (count head : ℕ)
      → get_elem? xs head ≡ some x
      → held_from xs head (suc count) ≡ x ∷ held_from xs (slot (length xs) (head + 1)) count
  held_from_cons xs x count head found = rw (found, held_from) refl

  -- A write to the slot after the held ones appends to them.
  held_from-set :
      (xs : List A) (e : A) (count head i : ℕ)
      → head < length xs
      → count < length xs
      → i ≡ slot (length xs) (head + count)
      → held_from (set xs i e) head (suc count) ≡ held_from xs head count ++ e ∷ []
  held_from-set xs e zero head i hs cs at =
      let here : i ≡ head = at ∙ mod-eq_of_lt (omega arith) ∙ omega arith in
      held_from_cons (set xs i e) e 0 head
        (ap (λ j. get_elem? (set xs i e) j) (sym here) ∙ get-set_here xs i e (omega arith))
  held_from-set xs e (suc count) head i hs cs at =
      let (x, found) = get_in xs head hs in
      let n = length xs in
      let away : (i ≡ head → ⊥) = λ q. slot_away n head count hs cs (sym at ∙ q) in
      let next : ℕ = slot n (head + 1) in
      held_from_cons (set xs i e) x (suc count) head (get-set_away xs i head e away ∙ found)
      ∙ ap (λ l. x ∷ l)
          (ap (λ m. held_from (set xs i e) (slot m (head + 1)) (suc count)) (length-set xs i e)
            ∙ held_from-set xs e count next i (slot_in n (head + 1) (omega arith)) (omega arith)
                (at ∙ sym (slot_next n head count)))
      ∙ sym (ap (λ l. l ++ e ∷ []) (held_from_cons xs x count head found))

  length-held_from :
      (xs : List A) (count head : ℕ) → head < length xs → length (held_from xs head count) ≡ count
  length-held_from xs zero head hs = refl
  length-held_from xs (suc count) head hs =
      let (x, found) = get_in xs head hs in
      ap length (held_from_cons xs x count head found)
      ∙ ap suc (
          length-held_from xs count (slot (length xs) (head + 1))
            (slot_in (length xs) (head + 1) (omega arith)))

  push-full :
      (e : A) (q : Queue A)
      → q.count ≡ length q.entries
      → push e q ≡ (false, record q { dropped = (q.dropped + 1) % 2 ^ 32 })
  unfolding push
  push-full e q full = ground arith

  push-room :
      (e : A) (q : Queue A)
      → q.count < length q.entries
      → push e q ≡ (
        true,
        record q {
          entries = set q.entries (slot (length q.entries) (q.head + q.count)) e;
          count = q.count + 1;
        },
      )
  unfolding push
  push-room e q room = ground arith

  pub push_appends :
      (e : A) (q : Queue A)
      → IsQueue q
      → q.count < length q.entries
      → (push e q).0 ≡ true
        × IsQueue (push e q).1
        × (contents (push e q).1 ≡ contents q ++ e ∷ [])
        × ((push e q).1.dropped ≡ q.dropped)
        × (length (push e q).1.entries ≡ length q.entries)
  push_appends e q is room =
      let n = length q.entries in
      let i = slot n (q.head + q.count) in
      let same = length-set q.entries i e in
      rw (push-room e q room) (
        refl,
        record { head_in = omega (arith, is.head_in, same); count_in = omega (arith, same) },
        ap (λ c. held_from (set q.entries i e) q.head c) {y = suc q.count} (omega arith)
            ∙ held_from-set q.entries e q.count q.head i is.head_in room refl,
        refl,
        same,
      )

  pop_keeps : (q : Queue A) → IsQueue q → IsQueue (pop q)
  unfolding pop
  pop_keeps q is = ground (arith, slot_in (length q.entries) (q.head + 1))

  pop_entries :
      (q : Queue A) → (length (pop q).entries ≡ length q.entries) × ((pop q).dropped ≡ q.dropped)
  unfolding pop
  pop_entries q = ground arith

  pop-suc :
      (q : Queue A) (k : ℕ)
      → q.count ≡ suc k
      → (pop q ≡ record q { head = slot (length q.entries) (q.head + 1); count = k })
        × (front q ≡ get_elem? q.entries q.head)
  unfolding pop front
  pop-suc q k e = ground arith

  pop_empty : (q : Queue A) → q.count ≡ 0 → (pop q ≡ q) × (front q ≡ none)
  unfolding pop front
  pop_empty q e = ground arith

  pop_at :
      (xs : List A) (head count dropped : ℕ)
      → head < length xs
      → let q : Queue A = record { entries = xs; head = head; count = count; dropped = dropped } in
        (contents (pop q) ≡ drop 1 (contents q)) × (front q ≡ get_elem? (contents q) 0)
  pop_at xs head zero dropped h =
      let q : Queue A = record { entries = xs; head = head; count = 0; dropped = dropped } in
      let (same, nothing) = pop_empty q refl in (ap contents same, nothing)
  pop_at xs head (suc count) dropped h =
      let q : Queue A = record {
        entries = xs;
        head = head;
        count = suc count;
        dropped = dropped;
      } in
      let (moved, first) = pop-suc q count refl in
      let (x, found) = get_in xs head h in
      let cons = held_from_cons xs x count head found in
      (
        ap contents moved ∙ sym (ap (λ l. drop 1 l) cons),
        first ∙ found ∙ sym (ap (λ l. get_elem? l 0) cons),
      )

  pub pop_takes :
      (q : Queue A)
      → IsQueue q
      → (contents (pop q) ≡ drop 1 (contents q)) × (front q ≡ get_elem? (contents q) 0)
  pop_takes q is = pop_at q.entries q.head q.count q.dropped is.head_in

pub data Op {ℓ} (A : Type ℓ) : Type ℓ where
  push_op : A → Op A
  pop_op : Op A

module _ {ℓ} {A : Type ℓ} where
  -- The fronts that pops met, and the queue after the operations.
  abbrev pub run : List (Op A) → Queue A → List (Option A) × Queue A
  run [] q = ([], q)
  run (push_op e ∷ ops) q = run ops (push e q).1
  run (pop_op ∷ ops) q = let (fronts, q') = run ops (pop q) in (front q ∷ fronts, q')

  -- The same on a list of at most `n` events and a count of those that found no room.
  abbrev pub run_list : ℕ → List (Op A) → List A → ℕ → List (Option A) × List A × ℕ
  run_list n [] events lost = ([], events, lost)
  run_list n (push_op e ∷ ops) events lost =
      if ltb (length events) n
      then run_list n ops (events ++ e ∷ []) lost
      else run_list n ops events ((lost + 1) % 2 ^ 32)
  run_list n (pop_op ∷ ops) events lost =
      let (fronts, left, lost') = run_list n ops (drop 1 events) lost in
      (get_elem? events 0 ∷ fronts, left, lost')

  -- A run of the list from what a queue is known to hold.
  list_run_from :
      {r : List (Option A) × List A × ℕ} (ops : List (Op A)) (q : Queue A) (n : ℕ) (events : List A)
      (lost : ℕ)
      → length q.entries ≡ n
      → contents q ≡ events
      → q.dropped ≡ lost
      → run_list (length q.entries) ops (contents q) q.dropped ≡ r
      → run_list n ops events lost ≡ r
  list_run_from ops q n events lost same held drops h =
      ap (λ m. run_list m ops events lost) (sym same)
      ∙ ap (λ l. run_list (length q.entries) ops l lost) (sym held)
      ∙ ap (λ d. run_list (length q.entries) ops (contents q) d) (sym drops)
      ∙ h

  -- However pushes and pops are mixed, the ring of `N` slots gives out the events in the order in
  -- which they came, refuses and counts exactly those that find `N` events held, and is left with
  -- the events that a list of at most `N` is left with.
  pub event_queue_refines :
      (ops : List (Op A)) (q : Queue A)
      → IsQueue q
      → let (fronts, q') = run ops q in
        run_list (length q.entries) ops (contents q) q.dropped ≡ (fronts, contents q', q'.dropped)
  event_queue_refines [] q is = refl
  event_queue_refines (push_op e ∷ ops) q is =
      let n = length q.entries in
      let size = length-held_from q.entries q.count q.head is.head_in in
      elim (Bool-cases (ltb (length (contents q)) n)) [
        | inl less ↦
            let (_, is', held, drops, same) = push_appends e q is (ground (arith, less, size)) in
            let q' = (push e q).1 in
            rw less (
              list_run_from ops q' n (contents q ++ e ∷ []) q.dropped same held drops
                (event_queue_refines ops q' is'))
        | inr full ↦
            let lost : Queue A = record q { dropped = (q.dropped + 1) % 2 ^ 32 } in
            rw (full, run, push-full e q (ground (arith, full, size, is.count_in)))
              (event_queue_refines ops lost
                (record { head_in = is.head_in; count_in = is.count_in }))
      ]
  event_queue_refines (pop_op ∷ ops) q is =
      let (held, first) = pop_takes q is in
      let (same, drops) = pop_entries q in
      let rest =
        list_run_from ops (pop q) (length q.entries) (drop 1 (contents q)) q.dropped same held drops
          (event_queue_refines ops (pop q) (pop_keeps q is)) in
      rw (rest, first) refl
