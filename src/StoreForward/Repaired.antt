-- ===== src/StoreForward/Repaired.antt =====
-- The copying loops by which `scanSegment` of logger/firmware/src/StoreForwardQueue.cpp repairs a torn
-- segment.
use Prim.Native.Nat.{min}
use devices.Prelude.{
  ℕ, zero, suc, ◌-◌, ◌≤◌, ◌≡◌, ◌≢◌, refl, sym, ap, ◌∙◌, true, Option, some, none, List, [], ◌++◌,
  arith, length, append_split, length-append, Option-cases, Bool-cases, inl, inr, ◌==◌,
  if◌then◌else◌,
}
use mathlib.Core.List.{append_assoc, append-nil}
use devices.StoreForward.Fs.{
  Fs, FilePath, Segment, IsFs, segment_path, quarantine_path, segment_repair_path,
}
use devices.StoreForward.Scan.{copy_bytes, copy_prefix, copy_corrupt}

module _ {W R : Type 0} (fs : Fs W R) {whole rest : R → List ℕ} {content : FilePath → W → List ℕ}
    (is_fs : IsFs fs whole rest content) where
  -- A copying loop changes no other file.
  copy_bytes-other :
      (to p : FilePath) (fuel remaining : ℕ) (source : R) (w : W)
      → to ≢ p
      → content p (copy_bytes fs to fuel remaining source w).2 ≡ content p w
  unfolding copy_bytes
  copy_bytes-other to p zero remaining source w ne = refl
  copy_bytes-other to p (suc fuel) remaining source w ne =
      let chunk = min remaining 256 in
      let bytes = (fs.read chunk source).0 in
      let ih =
        copy_bytes-other to p fuel (remaining - chunk) (fs.read chunk source).1
          (fs.write to bytes w).1 ne in
      ground (arith, ih, is_fs.write_other to p bytes w ne)

  -- The bytes that a copying loop has moved.
  pub record Copied (to : FilePath) (remaining : ℕ) (source source' : R) (w w' : W) : Type 0 where
    pub moved : List ℕ
    pub rest_eq : rest source ≡ moved ++ rest source'
    pub moved_length : length moved ≡ remaining
    pub content_eq : content to w' ≡ content to w ++ moved

  Copied-none :
      (to : FilePath) (remaining : ℕ) (source : R) (w : W)
      → remaining ≡ 0
      → Copied to remaining source source w w
  Copied-none to remaining source w e = record {
    moved = [];
    rest_eq = refl;
    moved_length = sym e;
    content_eq = sym (append-nil (content to w));
  }

  Copied-more :
      (to : FilePath) (remaining chunk : ℕ) (source : R) (w : W) (bytes : List ℕ)
      {source₁ source' : R} {w₁ w' : W}
      → rest source ≡ bytes ++ rest source₁
      → chunk ≤ remaining
      → length bytes ≡ chunk
      → content to w₁ ≡ content to w ++ bytes
      → Copied to (remaining - chunk) source₁ source' w₁ w'
      → Copied to remaining source source' w w'
  Copied-more to remaining chunk source w bytes {source' = source'} e le size written v = record {
    moved = bytes ++ v.moved;
    rest_eq =
        e ∙ (ap (λ l. bytes ++ l) v.rest_eq ∙ sym (append_assoc bytes v.moved (rest source')));
    moved_length = omega (arith, length-append bytes v.moved, v.moved_length);
    content_eq =
        v.content_eq ∙ (ap (λ l. l ++ v.moved) written ∙ append_assoc (content to w) bytes v.moved);
  }

  copy_bytes-Copied :
      (to : FilePath) (fuel remaining : ℕ) (source : R) (w : W)
      → (copy_bytes fs to fuel remaining source w).0 ≡ true
      → let (_, source', w') = copy_bytes fs to fuel remaining source w in
        Copied to remaining source source' w w'
  unfolding copy_bytes
  copy_bytes-Copied to zero remaining source w done =
      Copied-none to remaining source w (ground arith)
  copy_bytes-Copied to (suc fuel) remaining source w done =
      let chunk = min remaining 256 in
      let bytes = (fs.read chunk source).0 in
      let source₁ = (fs.read chunk source).1 in
      let w₁ = (fs.write to bytes w).1 in
      elim (Bool-cases (remaining == 0)) [
        | inl is_none ↦ rw (is_none, copy_bytes) (Copied-none to remaining source w (ground arith))
        | inr some_left ↦ elim (Bool-cases (length bytes == chunk)) [
          | inr short ↦ absurd (ground arith)
          | inl full ↦ elim (Bool-cases ((fs.write to bytes w).0 == chunk)) [
            | inr partial ↦ absurd (ground arith)
            | inl all_written ↦
                let done' : (copy_bytes fs to fuel (remaining - chunk) source₁ w₁).0 ≡ true =
                  ground arith in
                rw (some_left, full, all_written, copy_bytes)
                  (Copied-more to remaining chunk source w bytes
                    (is_fs.reader.read_rest chunk source) (omega arith) (ground arith)
                    (is_fs.write_appends to bytes w (ground arith))
                    (copy_bytes-Copied to fuel (remaining - chunk) source₁ w₁ done'))
          ]
        ]
      ]

  pub copy_prefix-other :
      (s : Segment) (tail : ℕ) (p : FilePath) (w : W)
      → segment_repair_path ≢ p
      → content p (copy_prefix fs s tail w).1 ≡ content p w
  unfolding copy_prefix
  copy_prefix-other s tail p w ne =
      let t = segment_repair_path in
      let w₁ = (fs.open_read (segment_path s) w).1 in
      let w₂ = if fs.exists t w₁ then fs.remove t w₁ else w₁ in
      let w₃ = (fs.open_write t w₂).1 in
      let opened = is_fs.open_read_keeps (segment_path s) p w in
      let removed = is_fs.remove_other t p w₁ ne in
      let truncated = is_fs.open_write_other t p w₂ ne in
      elim (Option-cases (fs.open_read (segment_path s) w).0) [
        | inl e ↦ ground (arith, opened, removed, truncated)
        | inr (source, e) ↦
            ground (arith, opened, removed, truncated, copy_bytes-other t p tail tail source w₃ ne)
      ]

  -- The repair file holds the valid prefix, and the source stands behind it.
  pub copy_prefix-eq :
      (s : Segment) (valid torn : List ℕ) (w : W) {source : R}
      → content (segment_path s) w ≡ valid ++ torn
      → (copy_prefix fs s (length valid) w).0 ≡ some source
      → (content segment_repair_path (copy_prefix fs s (length valid) w).1 ≡ valid)
        × (rest source ≡ torn)
  unfolding copy_prefix
  copy_prefix-eq s valid torn w {source = source} e done =
      let t = segment_repair_path in
      let tail = length valid in
      let w₁ = (fs.open_read (segment_path s) w).1 in
      let w₂ = if fs.exists t w₁ then fs.remove t w₁ else w₁ in
      let w₃ = (fs.open_write t w₂).1 in
      elim (Option-cases (fs.open_read (segment_path s) w).0) [
        | inl missing ↦ absurd (ground arith)
        | inr (file, opened) ↦ elim (Bool-cases (fs.open_write t w₂).0) [
          | inr shut ↦ absurd (ground arith)
          | inl repairing ↦ elim (Bool-cases (copy_bytes fs t tail tail file w₃).0) [
            | inr partial ↦ absurd (ground arith)
            | inl copied ↦
                let v = copy_bytes-Copied t tail tail file w₃ copied in
                let same : (copy_bytes fs t tail tail file w₃).1 ≡ source = ground arith in
                let begun = is_fs.open_read_rest (segment_path s) w file opened in
                let empty = is_fs.open_write_truncates t w₂ repairing in
                let both =
                  append_split v.moved _ valid torn (sym v.rest_eq ∙ (begun ∙ e)) v.moved_length in
                rw (opened, repairing, copy_prefix)
                  (
                    v.content_eq ∙ (ap (λ l. l ++ v.moved) empty ∙ both.0),
                    ap rest (sym same) ∙ both.1,
                  )
          ]
        ]
      ]

  pub copy_corrupt-other :
      (s : Segment) (corrupt : ℕ) (prefix : Option R) (p : FilePath) (w : W)
      → quarantine_path s ≢ p
      → content p (copy_corrupt fs s corrupt prefix w).1 ≡ content p w
  unfolding copy_corrupt
  copy_corrupt-other s corrupt none p w ne = is_fs.open_append_keeps (quarantine_path s) p w
  copy_corrupt-other s corrupt (some source) p w ne =
      let t = quarantine_path s in
      let w₁ = (fs.open_append t w).1 in
      let opened = is_fs.open_append_keeps t p w in
      ground (arith, opened, copy_bytes-other t p corrupt corrupt source w₁ ne)

  -- The quarantine file has grown by the torn bytes.
  pub copy_corrupt-eq :
      (s : Segment) (torn : List ℕ) (source : R) (w : W)
      → rest source ≡ torn
      → (copy_corrupt fs s (length torn) (some source) w).0 ≡ true
      → content (quarantine_path s) (copy_corrupt fs s (length torn) (some source) w).1
        ≡ content (quarantine_path s) w ++ torn
  unfolding copy_corrupt
  copy_corrupt-eq s torn source w e done =
      let t = quarantine_path s in
      let n = length torn in
      let w₁ = (fs.open_append t w).1 in
      let opened = is_fs.open_append_keeps t t w in
      elim (Bool-cases (fs.open_append t w).0) [
        | inr shut ↦ absurd (ground arith)
        | inl appending ↦
            let copied : (copy_bytes fs t n n source w₁).0 ≡ true = ground arith in
            let v = copy_bytes-Copied t n n source w₁ copied in
            let all =
              append_split v.moved _ torn [] (sym v.rest_eq ∙ (e ∙ sym (append-nil torn)))
                v.moved_length in
            rw (appending, copy_corrupt)
              (v.content_eq ∙ (ap (λ l. l ++ v.moved) opened ∙ ap (λ l. content t w ++ l) all.0))
      ]
