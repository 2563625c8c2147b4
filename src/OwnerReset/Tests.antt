-- ===== src/OwnerReset/Tests.antt =====
-- Runs of the owner-reset coordinator over a small store.
use devices.Prelude.{
  ℕ, zero, suc, Bool, true, false, Option, some, none, List, [], ◌∷◌, ◌≡◌, refl, arith, ◌⊎◌,
}
use devices.OwnerReset.{
  Store, Clear, completed, no_reset_needed, fresh, network_allowed, clear_all, finish, request,
  resume,
}
use devices.OwnerReset.Clears.{each_succeeds}
use devices.OwnerReset.Boot.{call_resume, call_request, Cleared, run_allowed-Cleared}
use devices.OwnerReset.Latch.{IsLatch, IsResponsive, Spare, boots, boots_latched, resume_completes}
use devices.OwnerReset.Nvs.{
  Nvs, IsNvs, esp_ok, esp_err_nvs_not_found, store, latch_of, get_pending, mark_pending,
  store_is_durable,
}

-- A latch, and how often a credential store still fails to clear.
record World : Type 0 where
  latch : Bool
  faults : ℕ

abbrev ram : Store World
ram = record {
  get_pending = λ w. (some w.latch, w);
  mark_pending = λ b w. (true, record w { latch = b });
}

abbrev wear : ℕ → Bool × ℕ
wear zero = (true, 0)
wear (suc n) = (false, n)

abbrev stubborn : Clear World
stubborn w = let (done, n) = wear w.faults in (done, record w { faults = n })

abbrev callbacks : List (Clear World)
callbacks = stubborn ∷ []

abbrev world : Bool → ℕ → World
world b n = record { latch = b; faults = n }

ram-IsLatch : IsLatch ram (λ w. w.latch)
ram-IsLatch = record { reads = λ w b h. cc; read_keeps = λ w. refl; marks = λ b w h. refl }

ram-IsResponsive : IsResponsive ram (λ w. w.latch)
ram-IsResponsive = record { answers = λ w. refl; accepts = λ b w. refl }

ram-Spare : Spare (λ w. w.latch) callbacks
ram-Spare = ((λ w. refl), tt)

nothing_to_do : (resume ram callbacks fresh (world false 0)).0.result ≡ no_reset_needed
unfolding resume
nothing_to_do = refl

-- The first two attempts meet a fault, the third completes.
run_allowed-Cleared_example :
    Cleared ram callbacks (call_request ∷ call_resume ∷ call_resume ∷ []) fresh (world false 2)
unfolding request resume finish clear_all
run_allowed-Cleared_example =
    run_allowed-Cleared ram callbacks (call_resume ∷ call_resume ∷ []) fresh (world false 2) refl

boots_latched_example :
    let w = boots ram callbacks 2 (world true 3) in
    (w.latch ≡ true)
    × ((network_allowed (resume ram callbacks fresh w).0 ≡ false)
        ⊎ (each_succeeds callbacks w ≡ true))
unfolding resume finish clear_all
boots_latched_example =
    boots_latched ram (λ w. w.latch) callbacks ram-IsLatch ram-Spare 2 (world true 3) refl
      (refl, (refl, tt))

resume_completes_example :
    ((resume ram callbacks fresh (world true 0)).0
      ≡ record { result = completed; requested = false })
    × ((resume ram callbacks fresh (world true 0)).1.latch ≡ false)
resume_completes_example =
    resume_completes ram (λ w. w.latch) callbacks ram-IsLatch ram-Spare fresh (world true 0)
      ram-IsResponsive refl refl

-- Storage in memory: what is staged, and what is committed.
abbrev Flash : Type 0
Flash = Option ℕ × Option ℕ

abbrev memory : Nvs Flash
memory = record {
  nvs_open = λ mode w. (esp_ok, w);
  nvs_get_u8 = λ w. elim w.1 [ some v ↦ (esp_ok, v, w) | none ↦ (esp_err_nvs_not_found, 255, w) ];
  nvs_set_u8 = λ v w. (esp_ok, (some v, w.1));
  nvs_commit = λ w. (esp_ok, (w.0, w.0));
  nvs_close = λ w. w;
}

memory-IsNvs : IsNvs memory (λ w. w.1)
memory-IsNvs = record {
  open_keeps = λ mode w. refl;
  open_missing = λ w h. cc;
  get_keeps = λ w. ground arith;
  get_found = λ w h. ground arith;
  get_missing = λ w h. ground arith;
  commit_set = λ v w h k. refl;
  close_keeps = λ w. refl;
}

-- The cell holds a value that is neither 0 nor 1.
store_is_durable_example :
    (((get_pending memory (none, some 7)).0 ≡ none)
      ⊎ ((get_pending memory (none, some 7)).0 ≡ none))
    × (((mark_pending memory true (none, some 7)).0 ≡ false)
        ⊎ ((mark_pending memory true (none, some 7)).1.1 ≡ some 1))
    × IsLatch (store memory) (latch_of (λ (w : Flash). w.1))
store_is_durable_example = store_is_durable memory (λ w. w.1) memory-IsNvs true (none, some 7)

-- A value that is neither 0 nor 1 is a read error, never an absent latch.
bad_value : (get_pending memory (none, some 7)).0 ≡ none
unfolding get_pending
bad_value = refl

marked : (mark_pending memory true (none, none)).0 ≡ true
unfolding mark_pending
marked = refl
