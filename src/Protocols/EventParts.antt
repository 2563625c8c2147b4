-- ===== src/Protocols/EventParts.antt =====
-- That the receiver of shared/protocols/SystemEvents.h puts an event's four parts together.
use mathlib.Core.List.{append_assoc}
use devices.Prelude.{
  ℕ, zero, suc, ◌+◌, ◌-◌, ◌*◌, ◌≤◌, ◌≡◌, refl, sym, ap, ◌∙◌, arith, List, [], ◌∷◌, ◌++◌, ◌⊎◌, inl,
  inr, length, length-append, length-take, length-drop, take, drop, take-append, replicate,
}
use devices.Protocols.EventFrames.{piece, overwrite}

pub take_length : (n : ℕ) (xs ys : List ℕ) → n ≡ length xs → take n (xs ++ ys) ≡ xs
take_length n xs ys e = ap (λ k. take k (xs ++ ys)) e ∙ take-append xs ys

pub take_whole : (n : ℕ) (xs : List ℕ) → length xs ≤ n → take n xs ≡ xs
take_whole zero [] h = refl
take_whole zero (x ∷ xs) h = absurd (omega arith)
take_whole (suc n) [] h = refl
take_whole (suc n) (x ∷ xs) h = ap (λ l. x ∷ l) (take_whole n xs (omega arith))

take_add : (n m : ℕ) (xs : List ℕ) → take (n + m) xs ≡ take n xs ++ take m (drop n xs)
take_add zero m xs = ap (λ k. take k xs) (omega arith)
take_add (suc n) zero [] = take_whole (suc n + 0) [] (omega arith)
take_add (suc n) (suc m) [] = take_whole (suc n + suc m) [] (omega arith)
take_add (suc n) m (x ∷ xs) =
    ap (λ k. take k (x ∷ xs)) {y = suc (n + m)} (omega arith) ∙ ap (λ l. x ∷ l) (take_add n m xs)

pub length-overwrite :
    (offset n : ℕ) (source buffer : List ℕ)
    → n ≤ length source
    → offset + n ≤ length buffer
    → length (overwrite offset n source buffer) ≡ length buffer
length-overwrite offset n source buffer h k = omega (
  arith,
  length-append (take offset buffer) (take n source ++ drop (offset + n) buffer),
  length-append (take n source) (drop (offset + n) buffer),
  length-take offset buffer,
  length-take n source,
  length-drop (offset + n) buffer,
)

-- A copy of the next piece of `b` behind a prefix of `b` gives a longer prefix.
pub overwrite_prefix :
    (offset n : ℕ) (source buffer b : List ℕ)
    → take offset buffer ≡ take offset b
    → take n source ≡ take n (drop offset b)
    → offset + n ≤ length b
    → take (offset + n) (overwrite offset n source buffer) ≡ take (offset + n) b
overwrite_prefix offset n source buffer b p s h =
    let rest = drop (offset + n) buffer in
    let joined : take offset buffer ++ take n source ≡ take (offset + n) b =
      ap (λ l. l ++ take n source) p ∙ ap (λ l. take offset b ++ l) s ∙ sym (take_add offset n b) in
    ap (take (offset + n))
      (sym (append_assoc (take offset buffer) (take n source) rest) ∙ ap (λ l. l ++ rest) joined)
    ∙ take_length (offset + n) (take (offset + n) b) rest
        (omega (arith, length-take (offset + n) b))

pub piece-own :
    (b : List ℕ) (part n : ℕ)
    → part * 17 + n ≤ length b
    → (n ≡ 17) ⊎ ((part * 17 + n ≡ length b) × (n ≤ 17))
    → take n (piece b part) ≡ take n (drop (part * 17) b)
piece-own b part n k w =
    let d = drop (part * 17) b in
    let own = take 17 d in
    let same : own ≡ take n d = elim w [
      | inl full ↦ ap (λ m. take m d) (sym full)
      | inr last ↦
          take_whole 17 d (omega (arith, length-drop (part * 17) b, last.0, last.1))
          ∙ sym (take_whole n d (omega (arith, length-drop (part * 17) b, last.0, last.1)))
    ] in
    take_length n own (replicate (17 - length own) 0)
      (omega (arith, ap length same, length-take n d, length-drop (part * 17) b))
    ∙ same
