-- ===== src/Examples/Hidden.antt =====
-- A message that was hidden in a payload, read back.
use Prim.Native.Nat.{bit_xor}
use peashape.Prelude.{
  ℕ, zero, suc, ◌+◌, ◌-◌, ◌%◌, ◌≤◌, ◌<◌, ◌≡◌, refl, ap, sym, ◌∙◌, min, some, [], ◌∷◌, ◌++◌,
  append_assoc, length, take, drop, get_elem?, arith, length-append, length-take, length-drop,
  take-append, drop-append,
}
use peashape.Prelude.Xor.{bit_xor-bit_xor}
use peashape.Config.{Bytes}
use peashape.Examples.Slices.{get_range, get_range-append, same_bytes_refl}
use peashape.Examples.Scramble.{
  nonce_size, from_be, keystream, nonce_of, write_at, scramble_into, unscramble, room, plaintext,
  embed, read_plain, extract,
}

take-drop : (n : ℕ) (s : Bytes) → take n s ++ drop n s ≡ s
take-drop zero s = refl
take-drop (suc n) [] = refl
take-drop (suc n) (b ∷ s) = ap (◌∷◌ b) (take-drop n s)

length-unscramble : (nonce i : ℕ) (s : Bytes) → length (unscramble nonce i s) ≡ length s
unfolding unscramble
length-unscramble nonce i [] = refl
length-unscramble nonce i (b ∷ s) = ap suc (length-unscramble nonce (suc i) s)

unscramble-append :
    (nonce i : ℕ) (s t : Bytes)
    → unscramble nonce i (s ++ t) ≡ unscramble nonce i s ++ unscramble nonce (i + length s) t
unfolding unscramble
unscramble-append nonce i [] t = ap (λ (j : ℕ). unscramble nonce j t) (omega arith)
unscramble-append nonce i (b ∷ s) t = ap (◌∷◌ (bit_xor b (keystream nonce i))) (
    unscramble-append nonce (suc i) s t
    ∙ ap (λ (j : ℕ). unscramble nonce (suc i) s ++ unscramble nonce j t) (omega arith))

-- The key stream undoes itself.
unscramble-unscramble : (nonce i : ℕ) (s : Bytes) → unscramble nonce i (unscramble nonce i s) ≡ s
unfolding unscramble
unscramble-unscramble nonce i [] = refl
unscramble-unscramble nonce i (b ∷ s) =
    ap (λ (x : ℕ). x ∷ unscramble nonce (suc i) (unscramble nonce (suc i) s))
      (bit_xor-bit_xor b (keystream nonce i))
    ∙ ap (◌∷◌ b) (unscramble-unscramble nonce (suc i) s)

write_at-append :
    (i b : ℕ) (s t : Bytes) (x : ℕ)
    → length s ≡ i
    → write_at i b (s ++ (x ∷ t)) ≡ some (s ++ (b ∷ t))
unfolding write_at
write_at-append zero b [] t x h = refl
write_at-append zero b (y ∷ s) t x h = absurd (omega (arith, h))
write_at-append (suc i) b [] t x h = absurd (omega (arith, h))
write_at-append (suc i) b (y ∷ s) t x h = rw (write_at-append i b s t x (omega (arith, h))) refl

scramble_into-cons :
    (nonce i b : ℕ) (pt payload payload' : Bytes)
    → write_at (nonce_size + i) (bit_xor b (keystream nonce i)) payload ≡ some payload'
    → scramble_into nonce i (b ∷ pt) payload ≡ scramble_into nonce (suc i) pt payload'
unfolding scramble_into
scramble_into-cons nonce i b pt payload payload' h = rw (h, scramble_into)

-- The loop does not leave the payload, and replaces just the bytes of the plaintext.
scramble_into-append :
    (nonce i : ℕ) (pt s t : Bytes)
    → length s ≡ nonce_size + i
    → length pt ≤ length t
    → scramble_into nonce i pt (s ++ t) ≡ some (s ++ (unscramble nonce i pt ++ drop (length pt) t))
unfolding scramble_into unscramble
scramble_into-append nonce i [] s t h k = refl
scramble_into-append nonce i (b ∷ pt) s [] h k = absurd (omega (arith, k))
scramble_into-append nonce i (b ∷ pt) s (x ∷ t) h k =
    let c : ℕ = bit_xor b (keystream nonce i) in
    scramble_into-cons nonce i b pt (s ++ (x ∷ t)) (s ++ (c ∷ t))
      (write_at-append (nonce_size + i) c s t x h)
    ∙ ap (scramble_into nonce (suc i) pt) (sym (append_assoc s (c ∷ []) t))
    ∙ scramble_into-append nonce (suc i) pt (s ++ (c ∷ [])) t
        (omega (arith, length-append s (c ∷ []), h)) (omega (arith, k))
    ∙ ap some (append_assoc s (c ∷ []) (unscramble nonce (suc i) pt ++ drop (length pt) t))

get_elem?-append : (s t : Bytes) (b : ℕ) → get_elem? (s ++ (b ∷ t)) (length s) ≡ some b
get_elem?-append [] t b = refl
get_elem?-append (x ∷ s) t b = get_elem?-append s t b

-- A marker, the length of a text, the text, and anything behind it.
read_plain-append :
    (magic text junk : Bytes)
    → length text < 256
    → read_plain magic (magic ++ ((length text % 256) ∷ (text ++ junk))) ≡ some text
unfolding read_plain
read_plain-append magic text junk h =
    rw
      (
        take-append (length magic) magic ((length text % 256) ∷ (text ++ junk)) refl,
        same_bytes_refl magic,
        get_elem?-append magic (text ++ junk) (length text % 256),
      )
      (ap
          (λ (n : ℕ).
            get_range (length magic + 1) n (magic ++ ((length text % 256) ∷ (text ++ junk))))
          (omega (arith, h))
        ∙ ap (get_range (length magic + 1) (length text))
            (sym (append_assoc magic ((length text % 256) ∷ []) (text ++ junk)))
        ∙ get_range-append (magic ++ ((length text % 256) ∷ [])) text junk (length magic + 1)
            (length text) (length-append magic ((length text % 256) ∷ [])) refl)

-- In a payload with room for the marker and a length, and for at most 255 bytes of text, a message
-- is hidden with no panic; the length stays, and what comes back is as much of it as there is room.
pub extract-embed :
    (magic message payload : Bytes) (size : ℕ)
    → length payload ≡ size
    → nonce_size + length magic + 1 ≤ size
    → room magic size < 256
    → (hidden : Bytes) × (embed magic size message payload ≡ some hidden)
      × (length hidden ≡ size)
      × (extract magic hidden ≡ some (take (min (length message) (room magic size)) message))
unfolding embed extract
extract-embed magic message payload size h fits small =
    let n = min (length message) (room magic size) in
    let text = take n message in
    let pt = plaintext magic size message in
    let s = take nonce_size payload in
    let t = drop nonce_size payload in
    let nonce = nonce_of payload in
    let behind = unscramble nonce 0 pt ++ drop (length pt) t in
    let len_text : length text ≡ n = length-take n message ∙ omega arith in
    let len_s : length s ≡ nonce_size = length-take nonce_size payload ∙ omega (arith, h, fits) in
    let len_t : length t ≡ size - nonce_size = length-drop nonce_size payload ∙ omega (arith, h) in
    let len_pt : length pt ≡ length magic + suc n =
      length-append magic ((n % 256) ∷ text) ∙ omega (arith, len_text) in
    let len_body : length (unscramble nonce 0 pt) ≡ length pt = length-unscramble nonce 0 pt in
    let junk = unscramble nonce (0 + length (unscramble nonce 0 pt)) (drop (length pt) t) in
    let read : unscramble nonce 0 behind ≡ magic ++ ((length text % 256) ∷ (text ++ junk)) =
      unscramble-append nonce 0 (unscramble nonce 0 pt) (drop (length pt) t)
      ∙ ap (λ (x : Bytes). x ++ junk) (unscramble-unscramble nonce 0 pt)
      ∙ append_assoc magic ((n % 256) ∷ text) junk
      ∙ ap (λ (k : ℕ). magic ++ ((k % 256) ∷ (text ++ junk))) (sym len_text) in
    (
      s ++ behind,
      ap (scramble_into nonce 0 pt) (sym (take-drop nonce_size payload))
          ∙ scramble_into-append nonce 0 pt s t (omega (arith, len_s))
              (omega (arith, len_pt, len_t, fits)),
      omega (
        arith,
        length-append s behind,
        length-append (unscramble nonce 0 pt) (drop (length pt) t),
        length-drop (length pt) t,
        len_s,
        len_t,
        len_pt,
        len_body,
        fits,
      ),
      ap
            (λ (x : Bytes).
              read_plain magic (unscramble (from_be 0 x) 0 (drop nonce_size (s ++ behind))))
            (take-append nonce_size s behind len_s)
          ∙ ap (λ (x : Bytes). read_plain magic (unscramble nonce 0 x))
              (drop-append nonce_size s behind len_s)
          ∙ ap (read_plain magic) read
          ∙ read_plain-append magic text junk (omega (arith, len_text, small)),
    )
