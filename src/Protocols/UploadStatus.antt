-- ===== src/Protocols/UploadStatus.antt =====
-- shared/protocols/DashUploadStatus.h: what the logger says of its uploads in one frame of 20 bytes,
-- and what the dash shows of it as time passes.
use devices.Prelude.{
  ℕ, zero, suc, ◌+◌, ◌-◌, ◌*◌, ◌^◌, ◌<◌, ◌≡◌, refl, arith, Bool, true, false, Option, some, none,
  List, [], ◌∷◌, ◌++◌, replicate, drop, get_or, ◌&&◌, ◌||◌, not, ltb, leb, ◌==◌, if◌then◌else◌,
  Option-cases, inl, inr,
}
use devices.Prelude.Words.{put32, word32, word32_bytes, since, u32_max}

pub data State : Type 0 where
  unknown disabled failed server_accepted transport_sent : State

pub data Transport : Type 0 where
  no_transport https mqtt : Transport

pub record Status : Type 0 where
  pub state : State
  pub transport : Transport
  pub success_age_ms : ℕ
  pub expected_interval_ms : ℕ

abbrev pub state_byte : State → ℕ
state_byte unknown = 0
state_byte disabled = 1
state_byte failed = 2
state_byte server_accepted = 3
state_byte transport_sent = 4

abbrev pub state_of : ℕ → Option State
state_of zero = some unknown
state_of (suc zero) = some disabled
state_of (suc (suc zero)) = some failed
state_of (suc (suc (suc zero))) = some server_accepted
state_of (suc (suc (suc (suc zero)))) = some transport_sent
state_of _ = none

abbrev pub transport_byte : Transport → ℕ
transport_byte no_transport = 0
transport_byte https = 1
transport_byte mqtt = 2

abbrev pub transport_of : ℕ → Option Transport
transport_of zero = some no_transport
transport_of (suc zero) = some https
transport_of (suc (suc zero)) = some mqtt
transport_of _ = none

-- The encoder takes the bytes of any state and transport.
unfoldable pub encode : ℕ → ℕ → ℕ → ℕ → List ℕ
encode state transport age interval =
    1 ∷ state ∷ transport ∷ 0 ∷ (put32 age ++ (put32 interval ++ replicate 8 0))

abbrev pub encode_status : Status → List ℕ
encode_status s =
    encode (state_byte s.state) (transport_byte s.transport) s.success_age_ms s.expected_interval_ms

abbrev pub word_from : ℕ → List ℕ → ℕ
word_from i f = word32 (get_or f i 0) (get_or f (i + 1) 0) (get_or f (i + 2) 0) (get_or f (i + 3) 0)

abbrev pub all_zero : List ℕ → Bool
all_zero [] = true
all_zero (b ∷ bs) = (b == 0) && all_zero bs

abbrev pub claims : State → Bool
claims server_accepted = true
claims transport_sent = true
claims _ = false

-- The transport that a claim of delivery must name.
abbrev pub claim_fits : State → Transport → Bool
claim_fits server_accepted https = true
claim_fits server_accepted _ = false
claim_fits transport_sent mqtt = true
claim_fits transport_sent _ = false
claim_fits _ _ = true

-- The checks that `decode` makes on the fields it read.
unfoldable pub acceptable : Status → Bool
acceptable s =
    not (s.expected_interval_ms == 0)
    && (claim_fits s.state s.transport && not (claims s.state && (s.success_age_ms == u32_max)))

-- A frame is an array of 20 bytes.
unfoldable pub decode : List ℕ → Option Status
decode f =
    if (get_or f 0 0 == 1) && ((get_or f 3 0 == 0) && all_zero (drop 12 f))
    then elim (state_of (get_or f 1 0)) [
      | some state ↦ elim (transport_of (get_or f 2 0)) [
        | some transport ↦
            let s : Status = record {
              state = state;
              transport = transport;
              success_age_ms = word_from 4 f;
              expected_interval_ms = word_from 8 f;
            } in
            if acceptable s then some s else none
        | none ↦ none
      ]
      | none ↦ none
    ]
    else none

abbrev pub window : ℕ → ℕ
window interval =
    if ltb (interval * 3) 5000
    then 5000
    else if leb u32_max (interval * 3)
    then u32_max - 1
    else interval * 3

pub data View : Type 0 where
  view_unknown view_disabled view_failed view_accepted view_unconfirmed view_stale : View

pub record Model : Type 0 where
  pub status : Status
  pub received_ms : ℕ
  pub received : Bool

unfoldable pub accept : List ℕ → ℕ → Model → Bool × Model
accept f now m = elim (decode f) [
  | some next ↦ (true, record { status = next; received_ms = now; received = true })
  | none ↦ (false, m)
]

abbrev pub age : ℕ → Model → ℕ
age now m =
    let v = m.status.success_age_ms + since now m.received_ms in
    if not m.received || (m.status.success_age_ms == u32_max)
    then u32_max
    else if leb u32_max v
    then u32_max - 1
    else v

unfoldable pub view : Bool → ℕ → Model → View
view connected now m =
    if not connected || not m.received
    then view_unknown
    else if leb 5000 (since now m.received_ms)
    then view_stale
    else elim m.status.state [
      | disabled ↦ view_disabled
      | failed ↦ view_failed
      | unknown ↦ view_unknown
      | server_accepted ↦
          if leb (window m.status.expected_interval_ms) (age now m)
          then view_stale
          else view_accepted
      | transport_sent ↦
          if leb (window m.status.expected_interval_ms) (age now m)
          then view_stale
          else view_unconfirmed
    ]

state_of-byte : (s : State) → state_of (state_byte s) ≡ some s
state_of-byte unknown = refl
state_of-byte disabled = refl
state_of-byte failed = refl
state_of-byte server_accepted = refl
state_of-byte transport_sent = refl

transport_of-byte : (t : Transport) → transport_of (transport_byte t) ≡ some t
transport_of-byte no_transport = refl
transport_of-byte https = refl
transport_of-byte mqtt = refl

-- A frame that the encoder makes of an acceptable status is decoded to that status.
pub decode-encode_status :
    (s : Status)
    → acceptable s ≡ true
    → s.success_age_ms < 2 ^ 32
    → s.expected_interval_ms < 2 ^ 32
    → decode (encode_status s) ≡ some s
unfolding decode encode
decode-encode_status s ok a i =
    rw
      (
        state_of-byte s.state,
        transport_of-byte s.transport,
        word32_bytes s.success_age_ms a,
        word32_bytes s.expected_interval_ms i,
        ok,
      )
      refl

decode-acceptable : (f : List ℕ) (s : Status) → decode f ≡ some s → acceptable s ≡ true
unfolding decode
decode-acceptable f s h = ground arith

shown_facts :
    (s : Status) (connected : Bool) (received now : ℕ)
    → acceptable s ≡ true
    → view connected now (record { status = s; received_ms = received; received = true })
      ≡ view_accepted
    → (connected ≡ true)
      × (s.state ≡ server_accepted)
      × (s.transport ≡ https)
      × (since now received < 5000)
      × (s.success_age_ms + since now received < window s.expected_interval_ms)
unfolding view acceptable
shown_facts s connected received now ok shown = ground arith

accept-some :
    (f : List ℕ) (now : ℕ) (m : Model) (s : Status)
    → decode f ≡ some s
    → accept f now m ≡ (true, record { status = s; received_ms = now; received = true })
unfolding accept
accept-some f now m s e = rw (e, accept) refl

accept-none : (f : List ℕ) (now : ℕ) (m : Model) → decode f ≡ none → accept f now m ≡ (false, m)
unfolding accept
accept-none f now m e = rw (e, accept) refl

-- Whatever frames came before, the dash shows an accepted upload only while it is connected, the
-- last frame it accepted is younger than five seconds and claims acceptance by a server over HTTPS,
-- and the age of that success is within the window of its interval.
pub accepted_view_is_fresh :
    (f : List ℕ) (m : Model) (connected : Bool) (received now : ℕ)
    → (accept f received m).0 ≡ true
    → view connected now (accept f received m).1 ≡ view_accepted
    → let s = (accept f received m).1.status in
      (connected ≡ true)
      × (decode f ≡ some s)
      × (s.state ≡ server_accepted)
      × (s.transport ≡ https)
      × (since now received < 5000)
      × (s.success_age_ms + since now received < window s.expected_interval_ms)
accepted_view_is_fresh f m connected received now taken shown = elim (Option-cases (decode f)) [
  | inl e ↦ absurd (cc (accept-none f received m e))
  | inr (s, e) ↦
      let eq = accept-some f received m s e in
      ground (arith, e, eq, decode-acceptable f s e, shown_facts s connected received now)
]
