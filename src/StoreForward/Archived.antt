-- ===== src/StoreForward/Archived.antt =====
-- What logger/firmware/src/RejectedUploads.cpp leaves in the files.
use devices.Prelude.{
  ℕ, zero, suc, ◌+◌, ◌≤◌, ◌<◌, ◌≡◌, ◌≢◌, refl, sym, ◌∙◌, Bool, true, false, Option, some, none,
  List, ◌++◌, arith, length, Bool-cases, inl, inr, ℤ,
}
use devices.StoreForward.Fs.{Fs, FilePath, IsFs, rejected_path, rejected_temporary_path}
use devices.StoreForward.Types.{Queue}
use devices.StoreForward.Archive.{
  rejected_header_of, encode_rejected_header, read_path, rejected_slot_present, read_rejected,
  is_saved, first_free, find_slot, write_rejected,
}

header_length :
    (payload : List ℕ) (status : ℤ)
    → length (encode_rejected_header (rejected_header_of payload status)) ≡ 16
unfolding encode_rejected_header
header_length payload status = refl

module _ {W R : Type 0} (fs : Fs W R) {whole rest : R → List ℕ} {content : FilePath → W → List ℕ}
    (is_fs : IsFs fs whole rest content) where
  -- Two worlds with the same files.
  pub record SameFiles (w w' : W) : Type 0 where
    pub content_same : (p : FilePath) → content p w' ≡ content p w
    pub exists_same : (p : FilePath) → fs.exists p w' ≡ fs.exists p w

  pub read_path-SameFiles : (p : FilePath) (w : W) → SameFiles w (read_path fs p w).1
  unfolding read_path
  read_path-SameFiles p w = record {
    content_same = λ f. ground (arith, is_fs.open_read_keeps p f w);
    exists_same = λ f. ground (arith, is_fs.open_read_exists p f w);
  }

  read_rejected-SameFiles :
      (slot : ℕ) (q : Queue) (w : W) → SameFiles w (read_rejected fs slot q w).1
  unfolding read_rejected
  read_rejected-SameFiles slot q w =
      let v = read_path-SameFiles (rejected_path slot) w in
      record {
        content_same = λ f. ground (arith, v.content_same f);
        exists_same = λ f. ground (arith, v.exists_same f);
      }

  -- The outcome of the search: a slot that already holds the payload, or the first free one.
  pub record Searched (payload : List ℕ) (q : Queue) (found : Bool) (free : Option ℕ) (w w' : W)
      : Type 0 where
    pub same : SameFiles w w'
    pub found_saved :
        found ≡ true
        → (slot : ℕ) × (v : W) × (SameFiles w v)
          × (is_saved payload (read_rejected fs slot q v).0 ≡ true)
          × (slot < 16)
    pub free_absent :
        (slot : ℕ) → free ≡ some slot → (slot < 16) × (fs.exists (rejected_path slot) w ≡ false)

  pub SameFiles-refl : (w : W) → SameFiles w w
  SameFiles-refl w = record { content_same = λ p. refl; exists_same = λ p. refl }

  pub SameFiles-trans : {u v w : W} → SameFiles u v → SameFiles v w → SameFiles u w
  SameFiles-trans a b = record {
    content_same = λ p. b.content_same p ∙ a.content_same p;
    exists_same = λ p. b.exists_same p ∙ a.exists_same p;
  }

  Searched-after :
      {payload : List ℕ} {q : Queue} {found : Bool} {free : Option ℕ} {u v w : W}
      → SameFiles u v
      → Searched payload q found free v w
      → Searched payload q found free u w
  Searched-after a s = record {
    same = SameFiles-trans a s.same;
    found_saved = λ h.
        let (slot, v, b, saved, le) = s.found_saved h in (slot, v, SameFiles-trans a b, saved, le);
    free_absent = λ slot e.
        let (le, absent) = s.free_absent slot e in
        (le, sym (a.exists_same (rejected_path slot)) ∙ absent);
  }

  first_free_absent :
      (q : Queue) (free : Option ℕ) (slot : ℕ) (w : W)
      → q.ready ≡ true
      → slot < 16
      → rejected_slot_present fs slot q w ≡ false
      → ((k : ℕ) → free ≡ some k → (k < 16) × (fs.exists (rejected_path k) w ≡ false))
      → (k : ℕ) → first_free free slot ≡ some k
      → (k < 16) × (fs.exists (rejected_path k) w ≡ false)
  first_free_absent q none slot w ready lt absent known k e = ground arith
  first_free_absent q (some f) slot w ready lt absent known k e = known k e

  pub find_slot-Searched :
      (payload : List ℕ) (q : Queue) (n slot : ℕ) (free : Option ℕ) (w : W)
      → q.ready ≡ true
      → slot + n ≤ 16
      → ((k : ℕ) → free ≡ some k → (k < 16) × (fs.exists (rejected_path k) w ≡ false))
      → let (found, free', w') = find_slot fs payload q n slot free w in
        Searched payload q found free' w w'
  unfolding find_slot
  find_slot-Searched payload q zero slot free w ready le known = record {
    same = SameFiles-refl w;
    found_saved = λ h. absurd (cc);
    free_absent = known;
  }
  find_slot-Searched payload q (suc n) slot free w ready le known =
      let w₁ = (read_rejected fs slot q w).1 in
      let same = read_rejected-SameFiles slot q w in
      elim (Bool-cases (rejected_slot_present fs slot q w)) [
        | inr absent ↦
            rw (absent, find_slot)
              (find_slot-Searched payload q n (slot + 1) (first_free free slot) w ready
                (omega arith) (first_free_absent q free slot w ready (omega arith) absent known))
        | inl present ↦ elim (Bool-cases (is_saved payload (read_rejected fs slot q w).0)) [
          | inl saved ↦
              rw (present, saved, find_slot)
                (record {
                  same = same;
                  found_saved = λ h. (slot, w, SameFiles-refl w, saved, omega arith);
                  free_absent = known;
                })
          | inr unsaved ↦
              rw (present, unsaved, find_slot)
                (Searched-after same (
                  find_slot-Searched payload q n (slot + 1) free w₁ ready (omega arith) (λ k e.
                    let (lt, none_there) = known k e in
                    (lt, same.exists_same (rejected_path k) ∙ none_there))))
        ]
      ]

  -- The temporary file holds the header and the payload; no other file is touched.
  pub write_rejected-content :
      (payload : List ℕ) (status : ℤ) (w : W)
      → (write_rejected fs payload status w).0 ≡ true
      → content rejected_temporary_path (write_rejected fs payload status w).1
        ≡ encode_rejected_header (rejected_header_of payload status) ++ payload
  unfolding write_rejected
  write_rejected-content payload status w done =
      let p = rejected_temporary_path in
      let header = encode_rejected_header (rejected_header_of payload status) in
      let w₁ = (fs.open_write p w).1 in
      let w₂ = (fs.write p header w₁).1 in
      let w₃ = (fs.write p payload w₂).1 in
      ground (
        arith,
        is_fs.open_write_truncates p w,
        is_fs.write_appends p header w₁,
        is_fs.write_appends p payload w₂,
        is_fs.flush_keeps p p w₃,
        is_fs.close_keeps p p (fs.flush p w₃),
        header_length payload status,
      )

  pub write_rejected-other :
      (payload : List ℕ) (status : ℤ) (p : FilePath) (w : W)
      → rejected_temporary_path ≢ p
      → content p (write_rejected fs payload status w).1 ≡ content p w
  unfolding write_rejected
  write_rejected-other payload status p w ne =
      let t = rejected_temporary_path in
      let header = encode_rejected_header (rejected_header_of payload status) in
      let w₁ = (fs.open_write t w).1 in
      let w₂ = (fs.write t header w₁).1 in
      let w₃ = (fs.write t payload w₂).1 in
      let closed = λ (v : W). is_fs.close_keeps t p (fs.flush t v) ∙ is_fs.flush_keeps t p v in
      ground (
        arith,
        is_fs.open_write_other t p w ne,
        is_fs.write_other t p header w₁ ne,
        is_fs.write_other t p payload w₂ ne,
        closed w₁,
        closed w₂,
        closed w₃,
      )
