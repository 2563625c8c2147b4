-- ===== src/Protocols/EventQueue.antt =====
-- The ring `Queue<N>` of shared/protocols/SystemEvents.h. The slots are a list of length N.
use devices.Prelude.{
  ℕ, zero, suc, ◌+◌, ◌-◌, ◌%◌, ◌^◌, ◌<◌, ◌≤◌, Bool, true, false, Option, some, none, List, [], ◌∷◌,
  length, get_elem?, set, ◌==◌, if◌then◌else◌,
}

pub record Queue {ℓ} (A : Type ℓ) : Type ℓ where
  pub entries : List A
  pub head : ℕ
  pub count : ℕ
  pub dropped : ℕ

-- Indexes below `2 N` taken round a ring of `n` slots.
abbrev pub slot : ℕ → ℕ → ℕ
slot n i = i % n

module _ {ℓ} {A : Type ℓ} where
  unfoldable pub push : A → Queue A → Bool × Queue A
  push e q =
      let n = length q.entries in
      if q.count == n then (false, record q { dropped = (q.dropped + 1) % 2 ^ 32 }) else (
        true,
        record q { entries = set q.entries (slot n (q.head + q.count)) e; count = q.count + 1 },
      )

  unfoldable pub front : Queue A → Option A
  front q = if q.count == 0 then none else get_elem? q.entries q.head

  unfoldable pub pop : Queue A → Queue A
  pop q =
      if q.count == 0
      then q
      else record q { head = slot (length q.entries) (q.head + 1); count = q.count - 1 }

  -- The entries from a slot on, round the ring.
  abbrev pub held_from : List A → ℕ → ℕ → List A
  held_from entries head zero = []
  held_from entries head (suc count) = elim (get_elem? entries head) [
    | some e ↦ e ∷ held_from entries (slot (length entries) (head + 1)) count
    | none ↦ []
  ]

  -- What the queue holds, the oldest first.
  abbrev pub contents : Queue A → List A
  contents q = held_from q.entries q.head q.count

  pub record IsQueue (q : Queue A) : Type ℓ where
    pub head_in : q.head < length q.entries
    pub count_in : q.count ≤ length q.entries
