-- ===== src/Https/Evidence.antt =====
-- logger/firmware/include/UploadEvidence.h: what the logger may claim about the delivery of its
-- snapshots, and logger/firmware/include/HttpsPacing.h: what the worker does next.
use devices.Prelude.{
  ℕ, Bool, true, false, List, [], ◌∷◌, ◌≡◌, refl, arith, ◌&&◌, ◌||◌, not, ltb, leb, ◌==◌,
  if◌then◌else◌, Option, some, none,
}
use devices.Prelude.Words.{since, u32_max}

pub data State : Type 0 where
  unknown disabled failed server_accepted transport_sent : State

-- The values of the enumeration.
abbrev pub state_byte : State → ℕ
state_byte unknown = 0
state_byte disabled = 1
state_byte failed = 2
state_byte server_accepted = 3
state_byte transport_sent = 4

pub record Status : Type 0 where
  pub state : State
  pub transport : ℕ
  pub age_ms : ℕ
  pub interval_ms : ℕ

pub record Tracker : Type 0 where
  pub attempted : Bool
  pub has_failed : Bool
  pub succeeded : Bool
  pub success_ms : ℕ

abbrev pub fresh : Tracker
fresh = record { attempted = false; has_failed = false; succeeded = false; success_ms = 0 }

abbrev pub recorded : Bool → ℕ → Tracker → Tracker
recorded success now t =
    if success
    then record t { attempted = true; has_failed = false; succeeded = true; success_ms = now }
    else record t { attempted = true; has_failed = true }

unfoldable pub status : Bool → Bool → Bool → ℕ → ℕ → Tracker → Status
status enabled available https now interval t = record {
  transport = if https then 1 else 2;
  interval_ms = interval;
  age_ms = if t.succeeded then since now t.success_ms else u32_max;
  state =
      if not enabled
      then disabled
      else if not available || t.has_failed
      then failed
      else if not t.attempted
      then unknown
      else if https
      then server_accepted
      else transport_sent;
}

pub data Work : Type 0 where
  wait send_status send_snapshot : Work

-- `HttpsPacing`
pub record HttpsPacing : Type 0 where
  pub attempted : Bool
  pub last_status_attempt : ℕ

unfoldable pub next : ℕ → Bool → Bool → Bool → ℕ → ℕ → Bool → Bool → HttpsPacing → Work
next now busy connected backoff last_completion retry_ms status_requested has_snapshot p =
    if busy || (not connected || (backoff && ltb (since now last_completion) retry_ms))
    then wait
    else if status_requested || (not p.attempted || leb 30000 (since now p.last_status_attempt))
    then send_status
    else if has_snapshot
    then send_snapshot
    else wait

abbrev pub status_completed : ℕ → HttpsPacing → HttpsPacing
status_completed now p = record p { attempted = true; last_status_attempt = now }

-- Attempts and their times, the newest first.
abbrev pub after : List (Bool × ℕ) → Tracker
after [] = fresh
after ((success, now) ∷ past) = recorded success now (after past)

abbrev pub last_success : List (Bool × ℕ) → Option ℕ
last_success [] = none
last_success ((success, now) ∷ past) = if success then some now else last_success past

abbrev pub newest_succeeded : List (Bool × ℕ) → Bool
newest_succeeded [] = false
newest_succeeded ((success, _) ∷ past) = success

after-last_success :
    (past : List (Bool × ℕ))
    → last_success past ≡ (if (after past).succeeded then some (after past).success_ms else none)
after-last_success [] = refl
after-last_success ((success, now) ∷ past) = ground (arith, after-last_success past)

after-newest :
    (past : List (Bool × ℕ))
    → newest_succeeded past ≡ ((after past).attempted && not (after past).has_failed)
after-newest [] = refl
after-newest ((success, now) ∷ past) = ground (arith, after-newest past)

-- What the evidence shows: whether uploads run, what the attempts were, and over what they went.
abbrev pub shown : Bool → Bool → Bool → List (Bool × ℕ) → State
shown false available https past = disabled
shown true false https past = failed
shown true true https [] = unknown
shown true true https ((false, _) ∷ past) = failed
shown true true true ((true, _) ∷ past) = server_accepted
shown true true false ((true, _) ∷ past) = transport_sent

after-shown :
    (past : List (Bool × ℕ)) (enabled available https : Bool) (now interval : ℕ)
    → (status enabled available https now interval (after past)).state
      ≡ shown enabled available https past
unfolding status
after-shown past false available https now interval = refl
after-shown past true false https now interval = refl
after-shown [] true true https now interval = refl
after-shown ((false, _) ∷ past) true true https now interval = refl
after-shown ((true, _) ∷ past) true true true now interval = refl
after-shown ((true, _) ∷ past) true true false now interval = refl

-- After any attempts: the server's acceptance is claimed exactly if uploads are enabled and available,
-- the newest attempt succeeded, and it went over HTTPS, and otherwise the state is what the newest
-- attempt shows: only sent if it succeeded over another transport, failed if it failed or uploads are
-- not available, unknown if there was none, disabled if uploads are. The age is the time since the
-- last success, and the largest word if there was none.
pub evidence_is_honest :
    (past : List (Bool × ℕ)) (enabled available https : Bool) (now interval : ℕ)
    → let s = status enabled available https now interval (after past) in
      (s.state ≡ shown enabled available https past)
      × ((state_byte s.state == state_byte server_accepted)
          ≡ (enabled && (available && (newest_succeeded past && https))))
      × (s.age_ms ≡ elim (last_success past) [ some t ↦ since now t | none ↦ u32_max ])
unfolding status
evidence_is_honest past enabled available https now interval = (
  after-shown past enabled available https now interval,
  ground (arith, after-newest past),
  ground (arith, after-last_success past),
)
