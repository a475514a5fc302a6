-- ===== src/Inotify/Decoding.antt =====
-- inotify.rs: `decode_events` on what the kernel packs, and its fuel.
use coreshift_lowlevel.Prelude.{
  ℕ, zero, suc, ◌+◌, ◌-◌, ◌/◌, ◌%◌, ◌≤◌, ◌<◌, ◌≡◌, ◌≢◌, refl, sym, ◌∙◌, ap, ap₂, ◌⊎◌, inl, inr,
  List, [], ◌∷◌, ◌++◌, append_assoc, append-nil, map, Bool, true, false, none, some, arith, leb,
  ltb, if◌then◌else◌, length, take, drop, replicate, Bool-cases, length-append, length-replicate,
  drop-append_add, take-append_le, take_all,
}
use coreshift_lowlevel.Text.{from_utf8_lossy}
use coreshift_lowlevel.Inotify.{
  InotifyEvent, le_bytes, u32_at, as_i32, base, until_nul, event_at, decode_loop, decode_events,
  or_empty,
}

-- An event as the kernel packs it: 32-bit words, and a name padded with NUL bytes.
pub record Packed : Type 0 where
  pub wd : ℕ
  pub mask : ℕ
  pub cookie : ℕ
  pub name : List ℕ
  pub padding : ℕ

abbrev pub le_u32 : ℕ → List ℕ
le_u32 n = n % 256 ∷ n / 256 % 256 ∷ n / 65536 % 256 ∷ n / 16777216 ∷ []

abbrev pub name_len : Packed → ℕ
name_len e = length e.name + e.padding

abbrev pub pack : Packed → List ℕ
pack e =
    le_u32 e.wd
    ++ (le_u32 e.mask
        ++ (le_u32 e.cookie ++ (le_u32 (name_len e) ++ (e.name ++ replicate e.padding 0))))

abbrev pub pack_all : List Packed → List ℕ
pack_all [] = []
pack_all (e ∷ es) = pack e ++ pack_all es

abbrev pub NoNul : List ℕ → Type 0
NoNul [] = Unit
NoNul (b ∷ bs) = (b ≢ 0) × NoNul bs

-- Every word fits 32 bits, and the name has no NUL.
pub record IsPacked (e : Packed) : Type 0 where
  pub wd_fits : e.wd < 4294967296
  pub mask_fits : e.mask < 4294967296
  pub len_fits : name_len e < 4294967296
  pub no_nul : NoNul e.name

abbrev pub AllPacked : List Packed → Type 0
AllPacked [] = Unit
AllPacked (e ∷ es) = IsPacked e × AllPacked es

-- What is to be read back.
abbrev pub view : Packed → InotifyEvent
view e = record {
  wd = as_i32 e.wd;
  mask = e.mask;
  name = if ltb 0 (name_len e) then some (from_utf8_lossy e.name) else none;
}

-- The start of an event that does not stand in the buffer whole.
abbrev pub IsTruncated : List ℕ → Type 0
IsTruncated tail = (length tail < base) ⊎ (length tail < base + u32_at tail 12)

le_bytes-le_u32 : (n : ℕ) → le_bytes (le_u32 n) ≡ n
le_bytes-le_u32 n = omega arith

until_nul-padded : (name : List ℕ) (k : ℕ) → NoNul name → until_nul (name ++ replicate k 0) ≡ name
unfolding until_nul
until_nul-padded [] zero h = refl
until_nul-padded [] (suc k) h = refl
until_nul-padded (b ∷ bs) k h = ground (arith, until_nul-padded bs k h.1)

-- A word behind a prefix.
u32_at-append : (pre rest : List ℕ) (k : ℕ) → u32_at (pre ++ rest) (length pre + k) ≡ u32_at rest k
u32_at-append pre rest k = ap (λ t. le_bytes (take 4 t)) (drop-append_add k pre rest)

u32_at-append_0 : (pre rest : List ℕ) → u32_at (pre ++ rest) (length pre) ≡ u32_at rest 0
u32_at-append_0 pre rest =
    ap (u32_at (pre ++ rest)) (let e : length pre ≡ length pre + 0 = omega arith in e)
    ∙ u32_at-append pre rest 0

length-pack : (e : Packed) → length (pack e) ≡ base + name_len e
length-pack e =
    omega
      (arith, length-append e.name (replicate e.padding 0), length-replicate {A = ℕ} e.padding 0)

take-append_exact : (n : ℕ) (xs ys : List ℕ) → length xs ≡ n → take n (xs ++ ys) ≡ xs
take-append_exact n xs ys e = take-append_le n xs ys (omega arith) ∙ take_all n xs (omega arith)

both_pass {ℓ} :
    {A : Type ℓ} (b c : Bool) (x y : A)
    → b ≡ true
    → c ≡ false
    → (if b then (if c then x else y) else x) ≡ y
both_pass true false x y p q = refl
both_pass true true x y p q = cc
both_pass false c x y p q = cc

module _ (pre : List ℕ) (e : Packed) (more : List ℕ) (p : IsPacked e) where
  abbrev whole : List ℕ
  whole = pre ++ (pack e ++ more)

  len_at : u32_at whole (length pre + 12) ≡ name_len e
  len_at = u32_at-append pre (pack e ++ more) 12 ∙ le_bytes-le_u32 (name_len e)

  wd_at : u32_at whole (length pre) ≡ e.wd
  wd_at = u32_at-append_0 pre (pack e ++ more) ∙ le_bytes-le_u32 e.wd

  mask_at : u32_at whole (length pre + 4) ≡ e.mask
  mask_at = u32_at-append pre (pack e ++ more) 4 ∙ le_bytes-le_u32 e.mask

  slice_at :
      take (u32_at whole (length pre + 12)) (drop (length pre + base) whole)
      ≡ e.name ++ replicate e.padding 0
  slice_at =
      ap₂ take len_at (drop-append_add base pre (pack e ++ more))
      ∙ take-append_exact (name_len e) (e.name ++ replicate e.padding 0) more (
          length-append e.name (replicate e.padding 0)
          ∙ ap (λ k. length e.name + k) (length-replicate {A = ℕ} e.padding 0))

  name_at :
      (if ltb 0 (u32_at whole (length pre + 12))
        then some (
            from_utf8_lossy
              (until_nul (take (u32_at whole (length pre + 12)) (drop (length pre + base) whole))))
        else none)
      ≡ (view e).name
  name_at =
      ap₂ (λ (n : ℕ) bs. if ltb 0 n then some (from_utf8_lossy (until_nul bs)) else none) len_at
        slice_at
      ∙ ap (λ bs. if ltb 0 (name_len e) then some (from_utf8_lossy bs) else none)
          (until_nul-padded e.name e.padding p.no_nul)

  event_at-pack : event_at whole (length pre) ≡ view e
  unfolding event_at
  event_at-pack = λ i. record { wd = as_i32 (wd_at i); mask = mask_at i; name = name_at i }

  header_fits : leb (length pre + base) (length whole) ≡ true
  header_fits =
      ground (arith, length-append pre (pack e ++ more), length-append (pack e) more, length-pack e)

  event_fits : ltb (length whole) (length pre + (base + u32_at whole (length pre + 12))) ≡ false
  event_fits = ground (
    arith,
    len_at,
    length-append pre (pack e ++ more),
    length-append (pack e) more,
    length-pack e,
  )

  next_offset : length pre + (base + u32_at whole (length pre + 12)) ≡ length (pre ++ pack e)
  next_offset = omega (arith, len_at, length-append pre (pack e), length-pack e)

  -- The loop takes the whole event and goes on behind it.
  decode_loop-pack :
      (fuel : ℕ) (events : List InotifyEvent)
      → decode_loop (suc fuel) whole (length pre) events
        ≡ decode_loop fuel
            ((pre ++ pack e) ++ more)
            (length (pre ++ pack e))
            (events ++ (view e ∷ []))
  unfolding decode_loop
  decode_loop-pack fuel events = both_pass _ _ (some events) _ header_fits event_fits ∙ (λ i.
      decode_loop fuel (sym (append_assoc pre (pack e) more) i) (next_offset i)
        (events ++ (event_at-pack i ∷ [])))

-- Nothing is taken of an event that is cut off.
decode_loop-truncated :
    (pre tail : List ℕ) (fuel : ℕ) (events : List InotifyEvent)
    → IsTruncated tail
    → decode_loop (suc fuel) (pre ++ tail) (length pre) events ≡ some events
unfolding decode_loop
decode_loop-truncated pre tail fuel events h =
    ground (arith, h, length-append pre tail, u32_at-append pre tail 12)

decode_loop-pack_all :
    (es : List Packed) (pre tail : List ℕ) (fuel : ℕ) (events : List InotifyEvent)
    → AllPacked es
    → IsTruncated tail
    → length (pack_all es ++ tail) < fuel
    → decode_loop fuel (pre ++ (pack_all es ++ tail)) (length pre) events
      ≡ some (events ++ map view es)
decode_loop-pack_all es pre tail zero events h t lt = absurd (omega arith)
decode_loop-pack_all [] pre tail (suc fuel) events h t lt =
    decode_loop-truncated pre tail fuel events t ∙ ap some (sym (append-nil events))
decode_loop-pack_all (e ∷ es) pre tail (suc fuel) events h t lt =
    ap (λ b. decode_loop (suc fuel) (pre ++ b) (length pre) events)
      (append_assoc (pack e) (pack_all es) tail)
    ∙ decode_loop-pack pre e (pack_all es ++ tail) h.0 fuel events
    ∙ decode_loop-pack_all es (pre ++ pack e) tail fuel (events ++ (view e ∷ [])) h.1 t (
        omega (
          arith,
          lt,
          ap (length {A = ℕ}) (append_assoc (pack e) (pack_all es) tail),
          length-append (pack e) (pack_all es ++ tail),
        ))
    ∙ ap some (append_assoc events (view e ∷ []) (map view es))

-- Packed events are read back in order and completely: watch, mask, and the decoded name, if the
-- record has room for one; an event that is cut off at the end of the buffer is ignored. Every word
-- fits 32 bits and no name has a NUL byte.
pub decode_events-pack_all :
    (es : List Packed) (tail : List ℕ)
    → AllPacked es
    → IsTruncated tail
    → decode_events (pack_all es ++ tail) ≡ map view es
unfolding decode_events
decode_events-pack_all es tail h t =
    ap or_empty
      (decode_loop-pack_all es [] tail (suc (length (pack_all es ++ tail))) [] h t (omega arith))

decode_loop_total :
    (fuel : ℕ) (buf : List ℕ) (offset : ℕ) (events : List InotifyEvent)
    → offset ≤ length buf
    → length buf - offset < fuel
    → (all : List InotifyEvent) × (decode_loop fuel buf offset events ≡ some all)
unfolding decode_loop
decode_loop_total zero buf offset events le lt = absurd (omega arith)
decode_loop_total (suc fuel) buf offset events le lt =
    let size = base + u32_at buf (offset + 12) in
    elim (Bool-cases (leb (offset + base) (length buf))) [
      | inr short ↦ (events, rw short)
      | inl header ↦ elim (Bool-cases (ltb (length buf) (offset + size))) [
        | inl cut ↦ (events, rw (header, cut))
        | inr fits ↦
            rw (header, fits)
              (decode_loop_total fuel buf (offset + size) (events ++ (event_at buf offset ∷ []))
                (ground (arith, fits)) (ground (arith, fits)))
      ]
    ]

-- On every buffer the `while` ends within the fuel that `decode_events` gives it, so the events
-- are those of the loop that runs to its end.
pub decode_events_total :
    (buf : List ℕ) → decode_loop (suc (length buf)) buf 0 [] ≡ some (decode_events buf)
unfolding decode_events
decode_events_total buf =
    let (all, e) = decode_loop_total (suc (length buf)) buf 0 [] (omega arith) (omega arith) in
    e ∙ ap (λ o. some (or_empty o)) (sym e)
