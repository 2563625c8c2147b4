-- ===== src/Rotation/Chains.antt =====
-- What a chain of calls on the credential store leaves there, wherever it stops.
use devices.Prelude.{true, false, List, [], ◌∷◌, ◌++◌, ◌≡◌, refl, ◌∙◌, arith, Bool-cases, inl, inr}
use devices.Rotation.Preferences.{Held, Edit, edited, Preferences, IsPreferences}
use devices.Rotation.Bearer.{edit_all, edit_each}

abbrev pub all_edited : List Edit → Held → Held
all_edited [] v = v
all_edited (e ∷ es) v = all_edited es (edited e v)

-- None of the calls touches what `f` reads.
abbrev pub Leaves : {A : Type 0} → (Held → A) → List Edit → Type 0
Leaves f [] = Unit
Leaves f (e ∷ es) = ((v : Held) → f (edited e v) ≡ f v) × Leaves f es

module _ {W : Type 0} (nvs : Preferences W) (is : IsPreferences nvs) where
  open nvs use {held}

  pub edit_all-done :
      (es : List Edit) (w : W)
      → (edit_all nvs es w).0 ≡ true
      → held (edit_all nvs es w).1 ≡ all_edited es (held w)
  unfolding edit_all
  edit_all-done [] w h = refl
  edit_all-done (e ∷ es) w h = elim (Bool-cases (nvs.edit e w).0) [
    | inl done ↦ ground (arith, edit_all-done es (nvs.edit e w).1, is.edit_done e w done)
    | inr refused ↦ ground arith
  ]

  pub edit-leaves :
      {A : Type 0}
      → (f : Held → A) (e : Edit) (w : W) → ((v : Held) → f (edited e v) ≡ f v)
      → f (held (nvs.edit e w).1) ≡ f (held w)
  edit-leaves f e w same = elim (Bool-cases (nvs.edit e w).0) [
    | inl done ↦ rw (is.edit_done e w done) (same (held w))
    | inr refused ↦ rw (is.edit_refused e w refused) refl
  ]

  pub edit_all-Leaves :
      {A : Type 0}
      → (f : Held → A) (es : List Edit) (w : W) → Leaves f es
      → f (held (edit_all nvs es w).1) ≡ f (held w)
  unfolding edit_all
  edit_all-Leaves f [] w h = refl
  edit_all-Leaves f (e ∷ es) w h = elim (Bool-cases (nvs.edit e w).0) [
    | inl done ↦ rw done (edit_all-Leaves f es (nvs.edit e w).1 h.1 ∙ edit-leaves f e w h.0)
    | inr refused ↦ rw refused (edit-leaves f e w h.0)
  ]

  pub edit_each-Leaves :
      {A : Type 0}
      → (f : Held → A) (es : List Edit) (w : W) → Leaves f es
      → f (held (edit_each nvs es w)) ≡ f (held w)
  unfolding edit_each
  edit_each-Leaves f [] w h = refl
  edit_each-Leaves f (e ∷ es) w h =
      edit_each-Leaves f es (nvs.edit e w).1 h.1 ∙ edit-leaves f e w h.0

  -- A chain that failed has not made its last change.
  pub edit_all-failed :
      {A : Type 0}
      → (f : Held → A) (es : List Edit) (last : Edit) (w : W) → Leaves f es
      → (edit_all nvs (es ++ last ∷ []) w).0 ≡ false
      → f (held (edit_all nvs (es ++ last ∷ []) w).1) ≡ f (held w)
  unfolding edit_all
  edit_all-failed f [] last w h failed = elim (Bool-cases (nvs.edit last w).0) [
    | inl done ↦ absurd (cc)
    | inr refused ↦ rw refused (rw (is.edit_refused last w refused) refl)
  ]
  edit_all-failed f (e ∷ es) last w h failed = elim (Bool-cases (nvs.edit e w).0) [
    | inl done ↦
        rw done
          (edit_all-failed f es last (nvs.edit e w).1 h.1 (ground arith) ∙ edit-leaves f e w h.0)
    | inr refused ↦ rw refused (edit-leaves f e w h.0)
  ]
