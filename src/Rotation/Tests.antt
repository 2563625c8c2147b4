-- ===== src/Rotation/Tests.antt =====
-- Rotations over a store in memory whose power goes after a given number of writes.
use devices.Prelude.{
  ℕ, zero, suc, Bool, true, false, some, List, [], ◌∷◌, ◌≡◌, ◌⊎◌, refl, arith, replicate,
}
use devices.Rotation.Preferences.{Held, Edit, edited, Preferences, IsPreferences}
use devices.Rotation.Bearer.{
  AppBearerRotation, no_phase, acknowledged, begin, stage, mark_acknowledged, promote_candidate,
  edit_all, edit_each, has_candidate, valid_record, persist_candidate, clear_candidate_persistent,
}
use devices.Rotation.Durable.{IsDurable, copy}
use devices.Rotation.Boot.{Call, call_stage, call_mark, run, reboot_restores_candidate}
use devices.Rotation.Promotion.{promotion_survives_cuts}

-- The keys, and how many more writes there is power for.
record World : Type 0 where
  keys : Held
  writes : ℕ

abbrev write : Edit → Held → ℕ → Bool × World
write e v zero = (false, record { keys = v; writes = 0 })
write e v (suc n) = (true, record { keys = edited e v; writes = n })

abbrev no_keys : Held
no_keys = record {
  active = [];
  applied_ver = 0;
  applied_nonce = [];
  cand_ready = false;
  cand_ver = 0;
  cand_nonce = [];
  candidate = [];
  overlap_at = [];
  phase = 0;
}

abbrev memory : Preferences World
memory = record {
  open_store = λ b w. (true, w);
  held = λ w. w.keys;
  edit = λ e w. write e w.keys w.writes;
  clear = λ w. (true, record w { keys = no_keys });
  close_store = λ w. w;
}

write_done :
    (e : Edit) (v : Held) (n : ℕ) → (write e v n).0 ≡ true → (write e v n).1.keys ≡ edited e v
write_done e v zero h = absurd (ground arith)
write_done e v (suc n) h = refl

write_refused : (e : Edit) (v : Held) (n : ℕ) → (write e v n).0 ≡ false → (write e v n).1.keys ≡ v
write_refused e v zero h = refl
write_refused e v (suc n) h = absurd (ground arith)

memory-IsPreferences : IsPreferences memory
memory-IsPreferences = record {
  open_keeps = λ b w. refl;
  close_keeps = λ w. refl;
  edit_done = λ e w h. write_done e w.keys w.writes h;
  edit_refused = λ e w h. write_refused e w.keys w.writes h;
}

abbrev world : ℕ → World
world n = record { keys = no_keys; writes = n }

abbrev provisioned : List ℕ
provisioned = replicate 16 65

abbrev nonce : List ℕ
nonce = replicate 8 66

abbrev token : List ℕ
token = replicate 16 67

abbrev overlap : List ℕ
overlap = replicate 20 68

abbrev blank : AppBearerRotation
blank = record {
  active_bearer = [];
  candidate_bearer = [];
  nonce = [];
  overlap_expires_at = [];
  applied_nonce = [];
  last_error = "";
  version = 0;
  applied_version = 0;
  phase = no_phase;
}

abbrev rotation : List Call
rotation = call_stage 1 nonce token overlap ∷ call_mark ∷ []

-- The power goes right after the acknowledgement is written.
reboot_restores_candidate_example :
    let (_, r₁, w₁) = begin memory (some provisioned) blank (world 8) in
    let (r', w') = run memory rotation r₁ w₁ in
    let r'' = (begin memory (some provisioned) blank w').1 in
    (has_candidate r'' ≡ true) × (copy r'' ≡ copy r')
unfolding begin stage mark_acknowledged edit_all valid_record persist_candidate
    clear_candidate_persistent edit_each
reboot_restores_candidate_example =
    reboot_restores_candidate memory memory-IsPreferences rotation (some provisioned)
      (some provisioned) blank blank (world 8) refl refl

abbrev pending : AppBearerRotation
pending = record blank {
  active_bearer = provisioned;
  candidate_bearer = token;
  nonce = nonce;
  overlap_expires_at = overlap;
  version = 1;
  phase = acknowledged;
}

abbrev pending_keys : Held
pending_keys = record no_keys {
  cand_ready = true;
  cand_ver = 1;
  cand_nonce = nonce;
  candidate = token;
  overlap_at = overlap;
  phase = 2;
}

abbrev cut : World
cut = record { keys = pending_keys; writes = 2 }

pending-IsDurable : IsDurable pending pending_keys
unfolding valid_record
pending-IsDurable = record { complete = λ h. refl; sound = λ h. refl }

-- The power goes when the token and the version are written, but not the nonce.
promotion_survives_cuts_example :
    let (done, r', w') = promote_candidate memory pending cut in
    let r'' = (begin memory (some provisioned) blank w').1 in
    ((done ≡ true)
      × (has_candidate r'' ≡ false)
      × (r''.active_bearer ≡ token)
      × (r''.applied_version ≡ 1)
      × (r''.applied_nonce ≡ nonce))
    ⊎ ((done ≡ false)
        × (has_candidate r'' ≡ true)
        × (copy r'' ≡ copy pending)
        × ((w'.keys.active ≡ []) ⊎ (w'.keys.active ≡ token)))
promotion_survives_cuts_example =
    promotion_survives_cuts memory memory-IsPreferences (some provisioned) pending blank cut
      pending-IsDurable refl refl

-- A store that refuses the first write leaves no candidate in memory.
storage_fault : has_candidate (stage memory 1 nonce token overlap blank (world 0)).1 ≡ false
unfolding stage persist_candidate edit_all
storage_fault = refl

early_token : (promote_candidate memory pending cut).2.keys.active ≡ token
unfolding promote_candidate edit_all
early_token = refl
