-- ===== src/Protocols/EventReceiver.antt =====
-- The round trip of an event through the frames and the receiver of shared/protocols/SystemEvents.h.
use devices.Prelude.{
  ℕ, zero, suc, ◌+◌, ◌-◌, ◌*◌, ◌/◌, ◌%◌, ◌^◌, ◌<◌, ◌≡◌, refl, sym, ap, ◌∙◌, arith, Bool, true,
  false, List, [], ◌∷◌, ◌⊎◌, inl, inr, length, length-append, length-take, get_or, take, drop,
  replicate, ◌&&◌, ◌==◌,
}
use devices.Prelude.Words.{u8, word32_bytes}
use devices.Protocols.EventFrames.{
  Event, Receiver, event_bytes, piece, frame, overwrite, read_event, accept,
}
use devices.Protocols.EventParts.{
  length-overwrite, overwrite_prefix, piece-own, take_whole, take_length,
}

length-replicate : (n : ℕ) → length {A = ℕ} (replicate n 0) ≡ n
length-replicate zero = refl
length-replicate (suc n) = ap suc (length-replicate n)

length-piece : (b : List ℕ) (part : ℕ) → length (piece b part) ≡ 17
length-piece b part =
    let own = take 17 (drop (part * 17) b) in
    omega (
      arith,
      length-append own (replicate (17 - length own) 0),
      length-replicate (17 - length own),
      length-take 17 (drop (part * 17) b),
    )

length-event_bytes : (e : Event) → length e.code ≡ 32 → length (event_bytes e) ≡ 60
length-event_bytes e h = omega (arith, length-append e.code (0 ∷ 0 ∷ []), h)

-- What the receiver has put together before a part comes.
record Collecting (e : Event) (part : ℕ) (r : Receiver) : Type 0 where
  size : length r.bytes ≡ 60
  ready : (part ≡ 0) ⊎ ((r.next ≡ part) × (r.sequence ≡ u8 e.seq))
  prefix : take (part * 17) r.bytes ≡ take (part * 17) (event_bytes e)

accept_middle :
    (e out : Event) (part : ℕ) (r : Receiver)
    → part < 3
    → Collecting e part r
    → accept (frame e part) out r ≡ (
      false,
      out,
      record {
        bytes = overwrite (part * 17) 17 (piece (event_bytes e) part) r.bytes;
        next = part + 1;
        sequence = u8 e.seq;
      },
    )
unfolding accept frame
accept_middle e out part r h c = ground (arith, length-piece (event_bytes e) part)

same_number : (n : ℕ) → n == n ≡ true
same_number n = ground arith

accept_fourth :
    (incoming : List ℕ) (out : Event) (r : Receiver) (s : ℕ)
    → length incoming ≡ 20
    → get_or incoming 0 0 ≡ 225
    → get_or incoming 1 0 ≡ 3
    → get_or incoming 2 0 ≡ s
    → r.next ≡ 3
    → r.sequence ≡ s
    → accept incoming out r ≡ (
        let bytes = overwrite 51 9 (drop 3 incoming) r.bytes in
        let read = read_event bytes in
        (
          (read.version == 1) && (u8 read.seq == s),
          read,
          record { bytes = bytes; next = 0; sequence = s },
        ))
unfolding accept
accept_fourth incoming out r s l h0 h1 h2 n q = rw (accept, l, h0, h1, h2, n, q, same_number s) refl

accept_last :
    (e out : Event) (r : Receiver)
    → Collecting e 3 r
    → accept (frame e 3) out r ≡ (
        let bytes = overwrite 51 9 (piece (event_bytes e) 3) r.bytes in
        let read = read_event bytes in
        (
          (read.version == 1) && (u8 read.seq == u8 e.seq),
          read,
          record { bytes = bytes; next = 0; sequence = u8 e.seq },
        ))
unfolding frame
accept_last e out r c =
    let mine : (r.next ≡ 3) × (r.sequence ≡ u8 e.seq) = elim c.ready [
      | inl zeroth ↦ absurd (omega (arith, zeroth))
      | inr both ↦ both
    ] in
    accept_fourth (frame e 3) out r (u8 e.seq) (omega (arith, length-piece (event_bytes e) 3)) refl
      refl refl (mine.0) (mine.1)

-- An event whose members fit the fields of the layout.
pub record IsEvent (e : Event) : Type 0 where
  pub current : e.version ≡ 1
  pub bytes_in : (e.severity < 256) × (e.method < 256)
  pub words_in : (e.boot < 2 ^ 32) × (e.seq < 2 ^ 32) × (e.ms < 2 ^ 32)
  pub values_in : (e.value < 2 ^ 32) × (e.duration_ms < 2 ^ 32) × (e.http_status < 2 ^ 16)
  pub code_size : length e.code ≡ 32

byte : (n : ℕ) → n < 256 → n % 256 ≡ n
byte n h = omega arith

half : (n : ℕ) → n < 2 ^ 16 → n % 256 + 256 * (n / 256 % 256) ≡ n
half n h = omega arith

read-event_bytes : (e : Event) → IsEvent e → read_event (event_bytes e) ≡ e
read-event_bytes e h =
    let word = word32_bytes in
    rw
      (
        word e.boot (h.words_in.0),
        word e.seq (h.words_in.1),
        word e.ms (h.words_in.2),
        word e.value (h.values_in.0),
        word e.duration_ms (h.values_in.1),
        take_length 32 e.code (0 ∷ 0 ∷ []) (sym h.code_size),
        half e.http_status (h.values_in.2),
        byte e.severity (h.bytes_in.0),
        byte e.method (h.bytes_in.1),
        byte e.version (omega (arith, h.current)),
      )
      refl

accept-Collecting :
    (e out : Event) (part : ℕ) (r : Receiver)
    → length e.code ≡ 32
    → part < 3
    → Collecting e part r
    → Collecting e (part + 1) (accept (frame e part) out r).2
accept-Collecting e out part r size h c =
    let b = event_bytes e in
    let own = piece-own b part 17 (omega (arith, length-event_bytes e size, h)) (inl refl) in
    let p = piece b part in
    rw (accept_middle e out part r h c) (record {
      size =
          length-overwrite (part * 17) 17 p r.bytes (omega (arith, length-piece b part))
            (omega (arith, c.size, h))
          ∙ c.size;
      ready = inr (refl, refl);
      prefix =
          ap (λ k. take k (overwrite (part * 17) 17 p r.bytes)) {y = part * 17 + 17} (omega arith)
          ∙ overwrite_prefix (part * 17) 17 p r.bytes b c.prefix own
              (omega (arith, length-event_bytes e size, h))
          ∙ ap (λ k. take k b) (omega arith);
    })

accept-waits :
    (e out : Event) (part : ℕ) (r : Receiver)
    → part < 3
    → Collecting e part r
    → (accept (frame e part) out r).0 ≡ false
accept-waits e out part r h c = rw (accept_middle e out part r h c) refl

-- The bytes are those of the event when its last part is in.
collected :
    (e : Event) (r : Receiver)
    → length e.code ≡ 32
    → Collecting e 3 r
    → overwrite 51 9 (piece (event_bytes e) 3) r.bytes ≡ event_bytes e
collected e r n c =
    let b = event_bytes e in
    let p = piece b 3 in
    let bytes = overwrite 51 9 p r.bytes in
    let all = length-event_bytes e n in
    let own = piece-own b 3 9 (omega (arith, all)) (inr (sym all, omega arith)) in
    let size =
      length-overwrite 51 9 p r.bytes (omega (arith, length-piece b 3)) (omega (arith, c.size))
      ∙ c.size in
    sym (take_whole 60 bytes (omega (arith, size)))
    ∙ overwrite_prefix 51 9 p r.bytes b c.prefix own (omega (arith, all))
    ∙ take_whole 60 b (omega (arith, all))

accept_complete :
    (e out : Event) (r : Receiver)
    → IsEvent e
    → Collecting e 3 r
    → ((accept (frame e 3) out r).0 ≡ true) × ((accept (frame e 3) out r).1 ≡ e)
accept_complete e out r h c =
    let same = read-event_bytes e h in
    let own : (e.version == 1) && (u8 e.seq == u8 e.seq) ≡ true =
      ground (arith, h.current, same_number (u8 e.seq)) in
    rw (accept_last e out r c, collected e r h.code_size c)
      (ap (λ (x : Event). (x.version == 1) && (u8 x.seq == u8 e.seq)) same ∙ own, same)

-- The results of the calls on some frames, and the event and the receiver after them.
abbrev pub accept_all : List (List ℕ) → Event → Receiver → List Bool × Event × Receiver
accept_all [] e r = ([], e, r)
accept_all (f ∷ frames) e r =
    let (done, e₁, r₁) = accept f e r in
    let (more, e₂, r₂) = accept_all frames e₁ r₁ in (done ∷ more, e₂, r₂)

-- Whatever the receiver was doing before, the four frames of an event in their order give that
-- event with the last of them, and not before.
pub frames_round_trip :
    (e out : Event) (r : Receiver)
    → IsEvent e
    → length r.bytes ≡ 60
    → let (done, e', _) = accept_all (frame e 0 ∷ frame e 1 ∷ frame e 2 ∷ frame e 3 ∷ []) out r in
      (done ≡ false ∷ false ∷ false ∷ true ∷ []) × (e' ≡ e)
frames_round_trip e out r h size =
    let n = h.code_size in
    let c₀ : Collecting e 0 r = record { size = size; ready = inl refl; prefix = refl } in
    let out₁ = (accept (frame e 0) out r).1 in
    let r₁ = (accept (frame e 0) out r).2 in
    let c₁ = accept-Collecting e out 0 r n (omega arith) c₀ in
    let out₂ = (accept (frame e 1) out₁ r₁).1 in
    let r₂ = (accept (frame e 1) out₁ r₁).2 in
    let c₂ = accept-Collecting e out₁ 1 r₁ n (omega arith) c₁ in
    let r₃ = (accept (frame e 2) out₂ r₂).2 in
    let c₃ = accept-Collecting e out₂ 2 r₂ n (omega arith) c₂ in
    let out₃ = (accept (frame e 2) out₂ r₂).1 in
    let (last, same) = accept_complete e out₃ r₃ h c₃ in
    (
      rw
          (
            accept-waits e out 0 r (omega arith) c₀,
            accept-waits e out₁ 1 r₁ (omega arith) c₁,
            accept-waits e out₂ 2 r₂ (omega arith) c₂,
            last,
          )
          refl,
      same,
    )
