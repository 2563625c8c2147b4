-- ===== src/Https/Arbiter.antt =====
-- logger/firmware/include/HttpsArbiter.h: who may use the HTTP worker next. The waiting owners are
-- the bits of a byte.
use Prim.Native.Nat.{bit_and, bit_or}
use devices.Prelude.{
  ℕ, ◌-◌, ◌+◌, ◌^◌, ◌≡◌, refl, Bool, true, false, List, [], ◌∷◌, arith, ◌&&◌, not, ◌==◌, ltb,
  if◌then◌else◌,
}
use devices.Prelude.Words.{u8}

pub data Owner : Type 0 where
  no_owner authorization logs telemetry : Owner

abbrev pub bit : Owner → ℕ
bit no_owner = 0
bit authorization = 1
bit logs = 2
bit telemetry = 4

-- The result and the byte after it.
unfoldable pub request : Owner → Bool → ℕ → Bool × ℕ
request owner idle pending =
    let pending' = bit_or pending (bit owner) in
    if bit owner == 0
    then (false, pending)
    else (idle && (bit_and pending' (u8 (2 ^ 32 - pending')) == bit owner), pending')

unfoldable pub cancel : Owner → ℕ → ℕ
cancel owner pending = bit_and pending (255 - bit owner)

-- Who is waiting.
pub record Waiting : Type 0 where
  pub for_authorization : Bool
  pub for_logs : Bool
  pub for_telemetry : Bool

abbrev weight : Bool → ℕ → ℕ
weight b n = if b then n else 0

abbrev pub byte : Waiting → ℕ
byte w = weight w.for_authorization 1 + (weight w.for_logs 2 + weight w.for_telemetry 4)

abbrev pub joined : Owner → Waiting → Waiting
joined no_owner w = w
joined authorization w = record w { for_authorization = true }
joined logs w = record w { for_logs = true }
joined telemetry w = record w { for_telemetry = true }

abbrev pub left : Owner → Waiting → Waiting
left no_owner w = w
left authorization w = record w { for_authorization = false }
left logs w = record w { for_logs = false }
left telemetry w = record w { for_telemetry = false }

-- No more urgent owner is waiting.
abbrev pub may_go : Owner → Waiting → Bool
may_go no_owner w = false
may_go authorization w = true
may_go logs w = not w.for_authorization
may_go telemetry w = not w.for_authorization && not w.for_logs

request_at :
    (owner : Owner) (idle a b c : Bool)
    → let w : Waiting = record { for_authorization = a; for_logs = b; for_telemetry = c } in
      request owner idle (byte w) ≡ (idle && may_go owner (joined owner w), byte (joined owner w))
unfolding request
request_at owner idle a b c = ground arith

cancel_at :
    (owner : Owner) (a b c : Bool)
    → let w : Waiting = record { for_authorization = a; for_logs = b; for_telemetry = c } in
      cancel owner (byte w) ≡ byte (left owner w)
unfolding cancel
cancel_at owner a b c = ground arith

-- On the byte of a set of waiting owners, a request adds the owner to the set, and grants it the
-- worker exactly if that is idle and no more urgent owner waits; a cancellation takes it out.
pub arbiter_is_priority :
    (owner : Owner) (idle : Bool) (w : Waiting)
    → (request owner idle (byte w) ≡ (idle && may_go owner (joined owner w), byte (joined owner w)))
      × (cancel owner (byte w) ≡ byte (left owner w))
arbiter_is_priority owner idle w = (
  request_at owner idle w.for_authorization w.for_logs w.for_telemetry,
  cancel_at owner w.for_authorization w.for_logs w.for_telemetry,
)

-- The attempts to get the worker, with what each was told, and the byte after them.
abbrev pub attempts : List (Owner × Bool) → ℕ → List Bool × ℕ
attempts [] pending = ([], pending)
attempts ((owner, idle) ∷ rest) pending =
    let (granted, p) = request owner idle pending in
    let (more, p') = attempts rest p in (granted ∷ more, p')

abbrev pub none_of : List Bool → Bool
none_of [] = true
none_of (b ∷ bs) = not b && none_of bs

-- Everyone here is less urgent than the owner.
abbrev pub less_urgent : Owner → List (Owner × Bool) → Bool
less_urgent owner [] = true
less_urgent owner ((other, idle) ∷ rest) = ltb (bit owner) (bit other) && less_urgent owner rest

waits : Owner → Waiting → Bool
waits no_owner w = false
waits authorization w = w.for_authorization
waits logs w = w.for_logs
waits telemetry w = w.for_telemetry

refused_once :
    (owner other : Owner) (w : Waiting)
    → ltb (bit owner) (bit other) ≡ true
    → waits owner w ≡ true
    → may_go other (joined other w) ≡ false
unfolding waits
refused_once owner other w later waiting = ground arith

waits_on :
    (owner other : Owner) (w : Waiting) → waits owner w ≡ true → waits owner (joined other w) ≡ true
unfolding waits
waits_on owner other w waiting = ground arith

and_both : (a b : Bool) → a && b ≡ true → (a ≡ true) × (b ≡ true)
and_both a b h = ground arith

refuse : (idle : Bool) {more : Bool} → more ≡ true → not (idle && false) && more ≡ true
refuse idle h = ground arith

waits-joined :
    (owner : Owner) (w : Waiting) → ltb 0 (bit owner) ≡ true → waits owner (joined owner w) ≡ true
unfolding waits
waits-joined owner w h = ground arith

attempts-refused :
    (owner : Owner) (tries : List (Owner × Bool)) (w : Waiting)
    → less_urgent owner tries ≡ true
    → waits owner w ≡ true
    → none_of (attempts tries (byte w)).0 ≡ true
attempts-refused owner [] w later waiting = refl
attempts-refused owner ((other, idle) ∷ rest) w later waiting =
    let told = (arbiter_is_priority other idle w).0 in
    let less = and_both (ltb (bit owner) (bit other)) (less_urgent owner rest) later in
    rw (told, refused_once owner other w (less.0) waiting)
      (refuse idle
        (attempts-refused owner rest (joined other w) (less.1) (waits_on owner other w waiting)))

-- Once an owner asked for the worker, the less urgent ones are all refused, however often they ask.
waiting_is_served_first :
    (owner : Owner) (idle : Bool) (tries : List (Owner × Bool)) (w : Waiting)
    → ltb 0 (bit owner) ≡ true
    → less_urgent owner tries ≡ true
    → none_of (attempts tries (request owner idle (byte w)).1).0 ≡ true
waiting_is_served_first owner idle tries w real later =
    rw (arbiter_is_priority owner idle w).0
      (attempts-refused owner tries (joined owner w) later (waits-joined owner w real))
