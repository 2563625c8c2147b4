-- ===== src/StoreForward/Blank.antt =====
-- logger/firmware/include/BlankPartition.h: the test that every byte of a partition is erased.
use Prim.Native.Nat.{min}
use devices.Prelude.{
  ℕ, zero, suc, ◌+◌, ◌-◌, ◌≤◌, ◌<◌, ◌≡◌, ◌⊎◌, refl, sym, ap, ◌∙◌, Bool, true, false, Option, some,
  none, List, [], ◌∷◌, ◌++◌, ◌&&◌, arith, length, take, drop, replicate, take-append-drop, leb, ltb,
  ◌==◌, if◌then◌else◌, Bool-cases, inl, inr,
}

-- The loop over the bytes of a chunk.
unfoldable pub each_erased : List ℕ → Bool
each_erased [] = true
each_erased (byte ∷ bytes) = (byte == 255) && each_erased bytes

-- The loop over the chunks, from an offset. `read offset length` is `none` where the callback returns
-- false. On fuel: each round moves the offset, and the size is enough.
unfoldable pub verify_from : (ℕ → ℕ → Option (List ℕ)) → ℕ → ℕ → ℕ → Bool
verify_from read size zero offset = leb size offset
verify_from read size (suc fuel) offset =
    let chunk = min (size - offset) 256 in
    let later = verify_from read size fuel (offset + chunk) in
    if ltb offset size
    then elim (read offset chunk) [
      | none ↦ false
      | some bytes ↦ if each_erased bytes then later else false
    ]
    else true

unfoldable pub verify : ℕ → (ℕ → ℕ → Option (List ℕ)) → Bool
verify size read = if size == 0 then false else verify_from read size size 0

each_erased_append : (xs ys : List ℕ) → each_erased (xs ++ ys) ≡ (each_erased xs && each_erased ys)
unfolding each_erased
each_erased_append [] ys = refl
each_erased_append (x ∷ xs) ys = ground (arith, each_erased_append xs ys)

-- What the callback gives: the bytes of the partition, or nothing.
abbrev pub ReadsPartition : (ℕ → ℕ → Option (List ℕ)) → List ℕ → Type 0
ReadsPartition read bytes =
    (offset n : ℕ) → (read offset n ≡ none) ⊎ (read offset n ≡ some (take n (drop offset bytes)))

drop_nil : (n : ℕ) → drop {A = ℕ} n [] ≡ []
drop_nil zero = refl
drop_nil (suc n) = refl

drop-drop : (offset n : ℕ) (xs : List ℕ) → drop n (drop offset xs) ≡ drop (offset + n) xs
drop-drop zero n xs = ap (λ k. drop k xs) (omega arith)
drop-drop (suc offset) n [] = drop_nil n ∙ sym (drop_nil (suc offset + n))
drop-drop (suc offset) n (x ∷ xs) =
    drop-drop offset n xs
    ∙ (let e : suc (offset + n) ≡ suc offset + n = omega arith in ap (λ k. drop k (x ∷ xs)) e)

-- The bytes from an offset: a chunk, and those behind it.
erased_chunk :
    (offset n : ℕ) (xs : List ℕ)
    → each_erased (drop offset xs)
      ≡ (each_erased (take n (drop offset xs)) && each_erased (drop (offset + n) xs))
erased_chunk offset n xs =
    ap each_erased (take-append-drop n (drop offset xs))
    ∙ (each_erased_append (take n (drop offset xs)) (drop n (drop offset xs))
        ∙ ap (λ l. each_erased (take n (drop offset xs)) && each_erased l) (drop-drop offset n xs))

erased_past : (offset : ℕ) (xs : List ℕ) → length xs ≤ offset → each_erased (drop offset xs) ≡ true
unfolding each_erased
erased_past zero [] le = refl
erased_past zero (x ∷ xs) le = absurd (omega arith)
erased_past (suc offset) [] le = refl
erased_past (suc offset) (x ∷ xs) le = erased_past offset xs (omega arith)

verify_from_sound :
    (read : ℕ → ℕ → Option (List ℕ)) (bytes : List ℕ) (fuel offset : ℕ)
    → ReadsPartition read bytes
    → verify_from read (length bytes) fuel offset ≡ true
    → each_erased (drop offset bytes) ≡ true
unfolding verify_from
verify_from_sound read bytes zero offset reads h = erased_past offset bytes (ground arith)
verify_from_sound read bytes (suc fuel) offset reads h =
    let chunk = min (length bytes - offset) 256 in
    elim (Bool-cases (ltb offset (length bytes))) [
      | inr over ↦ erased_past offset bytes (ground arith)
      | inl under ↦ elim (reads offset chunk) [
        | inl unread ↦ absurd (ground arith)
        | inr found ↦
            let later : verify_from read (length bytes) fuel (offset + chunk) ≡ true =
              ground arith in
            let ih = verify_from_sound read bytes fuel (offset + chunk) reads later in
            ground (arith, ih, erased_chunk offset chunk bytes)
      ]
    ]

verify_from_complete :
    (bytes : List ℕ) (fuel offset : ℕ)
    → length bytes ≤ offset + fuel
    → verify_from (λ o n. some (take n (drop o bytes))) (length bytes) fuel offset
      ≡ each_erased (drop offset bytes)
unfolding verify_from
verify_from_complete bytes zero offset enough = ground (arith, erased_past offset bytes)
verify_from_complete bytes (suc fuel) offset enough =
    let chunk = min (length bytes - offset) 256 in
    elim (Bool-cases (ltb offset (length bytes))) [
      | inr over ↦ ground (arith, erased_past offset bytes)
      | inl under ↦
          let ih = verify_from_complete bytes fuel (offset + chunk) (ground arith) in
          ground (arith, ih, erased_chunk offset chunk bytes)
    ]

each_erased-replicate :
    (bytes : List ℕ) → each_erased bytes ≡ true → bytes ≡ replicate (length bytes) 255
unfolding each_erased
each_erased-replicate [] h = refl
each_erased-replicate (b ∷ bytes) h =
    let ih = each_erased-replicate bytes (ground arith) in ground (arith, ih)

-- A partition that passes is not empty and every byte of it is 0xff, whichever reads failed.
pub verify_sound :
    (read : ℕ → ℕ → Option (List ℕ)) (bytes : List ℕ)
    → ReadsPartition read bytes
    → verify (length bytes) read ≡ true
    → (0 < length bytes) × (bytes ≡ replicate (length bytes) 255)
unfolding verify
verify_sound read bytes reads h =
    let all = verify_from_sound read bytes (length bytes) 0 reads (ground arith) in
    (ground arith, each_erased-replicate bytes all)

-- Where every read succeeds, the test in chunks is the test of all the bytes at once.
pub verify-each_erased :
    (bytes : List ℕ)
    → verify (length bytes) (λ offset n. some (take n (drop offset bytes)))
      ≡ (ltb 0 (length bytes) && each_erased bytes)
unfolding verify
verify-each_erased bytes =
    let all = verify_from_complete bytes (length bytes) 0 (omega arith) in ground (arith, all)
