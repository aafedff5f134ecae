-- ===== src/Examples/Ts/Packets.antt =====
-- The header that examples/mpegts_broadcast.rs stamps, read back, and the message behind it.
use Prim.Native.Nat.{bit_and, bit_or}
use peashape.Prelude.{
  ℕ, ◌+◌, ◌*◌, ◌/◌, ◌≤◌, ◌<◌, ◌≡◌, refl, ap, sym, ◌∙◌, ◌%◌, ◌^◌, ◌==◌, min, leb, Bool, true, false,
  not, if◌then◌else◌, Option, none, some, [], ◌++◌, length, length-append, length-drop, take, drop,
  append-nil, arith,
}
use peashape.Prelude.Bits.{mask15, mask31, mask255, agree, agree_lem}
use peashape.Config.{Bytes}
use peashape.Examples.Slices.{get_range-append}
use peashape.Examples.Scramble.{extract}
use peashape.Examples.Hidden.{extract-embed}
use peashape.Examples.Source.{Source, zeros, length-zeros, fill, length-fill, ltb_ge}
use peashape.Examples.Ts.{
  ts_packet, ts_header, ts_payload, real_magic, Fields, parse_ts, recover, payload_of, TsMuxer,
  header, stamp, build_ts_packet,
}

-- The header's bytes, checked for all values of their fields.
pid_bits : (x : ℕ) → x < 32 → bit_and (bit_or (1 * 2 ^ 6) x) 0x1f ≡ x
pid_bits = agree_lem 32 (λ x. bit_and (bit_or (1 * 2 ^ 6) x) 0x1f) (λ x. x) refl

pid_bits_clear : (x : ℕ) → x < 32 → bit_and (bit_or (0 * 2 ^ 6) x) 0x1f ≡ x
pid_bits_clear = agree_lem 32 (λ x. bit_and (bit_or (0 * 2 ^ 6) x) 0x1f) (λ x. x) refl

start_bit : (x : ℕ) → x < 32 → bit_and (bit_or (1 * 2 ^ 6) x) 0x40 ≡ 64
start_bit = agree_lem 32 (λ x. bit_and (bit_or (1 * 2 ^ 6) x) 0x40) (λ x. 64) refl

start_bit_clear : (x : ℕ) → x < 32 → bit_and (bit_or (0 * 2 ^ 6) x) 0x40 ≡ 0
start_bit_clear = agree_lem 32 (λ x. bit_and (bit_or (0 * 2 ^ 6) x) 0x40) (λ x. 0) refl

scrambling_bits : (x : ℕ) → x < 16 → bit_or 0xd0 x / 2 ^ 6 ≡ 3
scrambling_bits = agree_lem 16 (λ x. bit_or 0xd0 x / 2 ^ 6) (λ x. 3) refl

counter_bits : (x : ℕ) → x < 16 → bit_and (bit_or 0xd0 x) 0x0f ≡ x
counter_bits = agree_lem 16 (λ x. bit_and (bit_or 0xd0 x) 0x0f) (λ x. x) refl

-- The two bytes of a PID.
abbrev one_if : Bool → ℕ
one_if true = 1
one_if false = 0

joins : ℕ → ℕ
joins x = one_if (agree 256 (λ y. bit_or (x * 2 ^ 8) y) (λ y. x * 2 ^ 8 + y))

joins-one : (x : ℕ) → x < 32 → joins x ≡ 1
unfolding joins
joins-one = agree_lem 32 joins (λ _. 1) refl

joined : (x y : ℕ) → x < 32 → y < 256 → bit_or (x * 2 ^ 8) y ≡ x * 2 ^ 8 + y
unfolding joins
joined x y h k =
    agree_lem 256 (λ y. bit_or (x * 2 ^ 8) y) (λ y. x * 2 ^ 8 + y) (agrees _ (joins-one x h)) y k
  where
    agrees : (b : Bool) → one_if b ≡ 1 → b ≡ true
    agrees true h = refl
    agrees false h = absurd (omega (arith, h))

second_byte-bits :
    (pusi : Bool) (x : ℕ)
    → x < 32
    → let b = bit_or ((if pusi then 1 else 0) * 2 ^ 6) x in
      (bit_and b 0x1f ≡ x) × (not (bit_and b 0x40 == 0) ≡ pusi)
second_byte-bits true x h = (pid_bits x h, ap (λ (n : ℕ). not (n == 0)) (start_bit x h))
second_byte-bits false x h =
    (pid_bits_clear x h, ap (λ (n : ℕ). not (n == 0)) (start_bit_clear x h))

-- What a stamped packet says.
abbrev pub fields : (pid cc : ℕ) → Bool → Fields
fields pid cc pusi = record { pid = pid % 2 ^ 13; cc = cc % 16; pusi = pusi; scrambling = 3 }

pid-eq :
    (pid : ℕ)
    → bit_or (bit_and (pid / 2 ^ 8 % 256) 0x1f * 2 ^ 8) (bit_and pid 0xff % 256) ≡ pid % 2 ^ 13
pid-eq pid =
    let high : bit_and (pid / 2 ^ 8 % 256) 0x1f ≡ pid / 2 ^ 8 % 256 % 32 =
      mask31 (pid / 2 ^ 8 % 256) in
    joined (bit_and (pid / 2 ^ 8 % 256) 0x1f) (bit_and pid 0xff % 256) (omega (arith, high))
      (omega arith)
    ∙ omega (arith, high, mask255 pid)

parse_ts-header :
    (pid cc : ℕ) (pusi : Bool) (body : Bytes)
    → parse_ts (header pid (bit_and cc 0x0f) pusi ++ body) ≡ some (fields pid cc pusi)
unfolding parse_ts
parse_ts-header pid cc pusi body =
    let x = bit_and (pid / 2 ^ 8 % 256) 0x1f in
    let c = bit_and cc 0x0f in
    let (pid_part, start) = second_byte-bits pusi x (omega (arith, mask31 (pid / 2 ^ 8 % 256))) in
    let small : c < 16 = omega (arith, mask15 cc) in
    rw (ltb_ge (length (header pid c pusi ++ body)) ts_header (omega arith)) (λ i. some (record {
      pid = (ap (λ (n : ℕ). bit_or (n * 2 ^ 8) (bit_and pid 0xff % 256)) pid_part ∙ pid-eq pid) i;
      cc = (counter_bits c small ∙ mask15 cc) i;
      pusi = start i;
      scrambling = scrambling_bits c small i;
    }))

stamp-some :
    (g : TsMuxer) (cc : ℕ) (f : Bytes) (pusi : Bool)
    → ts_header ≤ length f
    → stamp g cc f pusi
      ≡ (some (header g.pid (bit_and cc 0x0f) pusi ++ drop ts_header f), (cc + 1) % 2 ^ 8)
unfolding stamp
stamp-some g cc f pusi h = rw (ltb_ge (length f) ts_header h) refl

recover-header :
    (pid cc : ℕ) (pusi : Bool) (f : Bytes)
    → ts_header ≤ length f
    → recover (header pid cc pusi ++ drop ts_header f) ≡ recover f
unfolding recover
recover-header pid cc pusi f h =
    ap
      (λ (n : ℕ).
        elim (if leb (ts_header + ts_payload) n
          then some (take ts_payload (drop ts_header f))
          else none) [ none ↦ none | some payload ↦ extract real_magic payload ])
      (omega (arith, length-drop ts_header f, h))

-- On a frame of at least 4 bytes the stamp of the muxer does not panic, keeps the length and
-- advances the counter modulo 256; `parse_ts` reads back the low 13 bits of the PID, the low 4
-- bits of the counter, the start flag and the scrambling bits 3; and what `recover` finds in the
-- frame is the same as before.
pub stamp_lem :
    (g : TsMuxer) (cc : ℕ) (f : Bytes) (pusi : Bool)
    → ts_header ≤ length f
    → (f' : Bytes) × (stamp g cc f pusi ≡ (some f', (cc + 1) % 2 ^ 8))
      × (length f' ≡ length f)
      × (parse_ts f' ≡ some (fields g.pid cc pusi))
      × (recover f' ≡ recover f)
stamp_lem g cc f pusi h = (
  header g.pid (bit_and cc 0x0f) pusi ++ drop ts_header f,
  stamp-some g cc f pusi h,
  omega (arith, length-drop ts_header f, h),
  parse_ts-header g.pid cc pusi (drop ts_header f),
  recover-header g.pid (bit_and cc 0x0f) pusi f h,
)

recover-packet :
    (head payload : Bytes)
    → length head ≡ ts_header
    → length payload ≡ ts_payload
    → recover (head ++ payload) ≡ extract real_magic payload
unfolding recover
recover-packet head payload h k =
    ap (λ (p : Bytes). recover (head ++ p)) (sym (append-nil payload))
    ∙ rw (recover, get_range-append head payload [] ts_header ts_payload h k) refl

module _ (S : Source) where
  open S use {Rng}

  -- What a packet is made of, once its payload is.
  build_ts_packet-of :
      (message : Option Bytes) (r : Rng) (payload : Bytes)
      → payload_of message (fill S ts_payload r).0 ≡ some payload
      → length payload ≡ ts_payload
      → (f : Bytes) × (r' : Rng) × (build_ts_packet S message r ≡ some (f, r'))
        × (length f ≡ ts_packet)
        × (recover f ≡ extract real_magic payload)
  unfolding build_ts_packet
  build_ts_packet-of message r payload e h = (
    zeros ts_header ++ payload,
    (fill S ts_payload r).1,
    rw (build_ts_packet, e) refl,
    omega (arith, length-append (zeros ts_header) payload, length-zeros ts_header, h),
    recover-packet (zeros ts_header) payload (length-zeros ts_header) h,
  )

  pub build_ts_packet-none :
      (r : Rng)
      → (f : Bytes) × (r' : Rng) × (build_ts_packet S none r ≡ some (f, r'))
        × (length f ≡ ts_packet)
  build_ts_packet-none r =
      let (f, r', e, h, _) = build_ts_packet-of none r _ refl (length-fill S ts_payload r) in
      (f, r', e, h)

  pub recover-build_ts_packet :
      (message : Bytes) (r : Rng)
      → (f : Bytes) × (r' : Rng) × (build_ts_packet S (some message) r ≡ some (f, r'))
        × (length f ≡ ts_packet)
        × (recover f ≡ some (take (min (length message) 175) message))
  recover-build_ts_packet message r =
      let (payload, e, h, back) =
        extract-embed real_magic message (fill S ts_payload r).0 ts_payload
          (length-fill S ts_payload r) (omega arith) (omega arith) in
      let (f, r', e', h', back') = build_ts_packet-of (some message) r payload e h in
      (f, r', e', h', back' ∙ back)
