-- ===== src/Radix/RoundTrip.antt =====
-- What the decoder of ftp_lite/src/radix.c makes of what the encoder writes.
use murphy.Base.{
  ℕ, ◌+◌, ◌*◌, ◌/◌, ◌%◌, ◌<◌, ◌≡◌, refl, ap, ◌∙◌, true, false, some, [], ◌∷◌, Bytes, All, arith,
  ◌==◌,
}
use murphy.Radix.{
  pad, radix, radix_index, first, radix_encode, at_0, at_1, at_2, at_3, finish, put_byte,
  radix_decode,
}

radix_index-radix : (d : ℕ) → d < 64 → radix_index (radix d) ≡ some d
unfolding radix radix_index
radix_index-radix d h = grind arith

radix_solid : (d : ℕ) → (radix d == pad) ≡ false
unfolding radix
radix_solid d = grind arith

decode_0 :
    (d : ℕ) (s : Bytes) → d < 64 → radix_decode at_0 (radix d ∷ s) ≡ radix_decode (at_1 (d * 4)) s
unfolding radix_decode
decode_0 d s h = rw (radix_solid d, radix_index-radix d h) refl

decode_1 :
    (o d : ℕ) (s : Bytes)
    → d < 64
    → radix_decode (at_1 o) (radix d ∷ s)
      ≡ put_byte (o + d / 16) (radix_decode (at_2 (d % 16 * 16) d) s)
unfolding radix_decode
decode_1 o d s h = rw (radix_solid d, radix_index-radix d h) refl

decode_2 :
    (o e d : ℕ) (s : Bytes)
    → d < 64
    → radix_decode (at_2 o e) (radix d ∷ s)
      ≡ put_byte (o + d / 4) (radix_decode (at_3 (d % 4 * 64) d) s)
unfolding radix_decode
decode_2 o e d s h = rw (radix_solid d, radix_index-radix d h) refl

decode_3 :
    (o e d : ℕ) (s : Bytes)
    → d < 64
    → radix_decode (at_3 o e) (radix d ∷ s) ≡ put_byte (o + d) (radix_decode at_0 s)
unfolding radix_decode
decode_3 o e d s h = rw (radix_solid d, radix_index-radix d h) refl

decode_two_pads : (o d : ℕ) → d % 16 ≡ 0 → radix_decode (at_2 o d) (pad ∷ pad ∷ []) ≡ some []
unfolding radix_decode finish
decode_two_pads o d h = let t : (d % 16 == 0) ≡ true = grind arith in rw t refl

decode_one_pad : (o d : ℕ) → d % 4 ≡ 0 → radix_decode (at_3 o d) (pad ∷ []) ≡ some []
unfolding radix_decode finish
decode_one_pad o d h = let t : (d % 4 == 0) ≡ true = grind arith in rw t refl

abbrev pub IsByte : ℕ → Type 0
IsByte b = b < 256

-- The sums that put a byte together again.
first_byte : (a x : ℕ) → x < 16 → a / 4 * 4 + (a % 4 * 16 + x) / 16 ≡ a
first_byte a x h = omega arith

second_byte : (b x : ℕ) → x < 4 → b / 16 * 16 + (b % 16 * 4 + x) / 4 ≡ b
second_byte b x h = omega arith

-- The first digit of a group, and the first byte that it leaves with the second digit.
decode_first :
    (a x : ℕ) (s : Bytes)
    → IsByte a
    → x < 16
    → radix_decode at_0 (radix (a / 4) ∷ radix (a % 4 * 16 + x) ∷ s)
      ≡ put_byte a (radix_decode (at_2 (x * 16) (a % 4 * 16 + x)) s)
decode_first a x s ha hx =
    let low : (a % 4 * 16 + x) % 16 ≡ x = omega arith in
    decode_0 (a / 4) _ (omega arith)
    ∙ decode_1 (a / 4 * 4) (a % 4 * 16 + x) s (omega arith)
    ∙ ap (λ o. put_byte o (radix_decode (at_2 ((a % 4 * 16 + x) % 16 * 16) (a % 4 * 16 + x)) s))
        (first_byte a x hx)
    ∙ ap (λ l. put_byte a (radix_decode (at_2 (l * 16) (a % 4 * 16 + x)) s)) low

decode_second :
    (b x e : ℕ) (s : Bytes)
    → IsByte b
    → x < 4
    → radix_decode (at_2 (b / 16 * 16) e) (radix (b % 16 * 4 + x) ∷ s)
      ≡ put_byte b (radix_decode (at_3 (x * 64) (b % 16 * 4 + x)) s)
decode_second b x e s hb hx =
    let low : (b % 16 * 4 + x) % 4 ≡ x = omega arith in
    decode_2 (b / 16 * 16) e (b % 16 * 4 + x) s (omega arith)
    ∙ ap (λ o. put_byte o (radix_decode (at_3 ((b % 16 * 4 + x) % 4 * 64) (b % 16 * 4 + x)) s))
        (second_byte b x hx)
    ∙ ap (λ l. put_byte b (radix_decode (at_3 (l * 64) (b % 16 * 4 + x)) s)) low

-- `ftp_lite_radix_decode` succeeds on what `ftp_lite_radix_encode` writes, and gives the bytes back.
pub radix_decode-radix_encode :
    (s : Bytes) → All IsByte s → radix_decode at_0 (radix_encode first s) ≡ some s
unfolding radix_encode
radix_decode-radix_encode [] h = unfold radix_decode finish in refl
radix_decode-radix_encode (a ∷ []) (ha, h) =
    let plus : a % 4 * 16 ≡ a % 4 * 16 + 0 = omega arith in
    ap (λ d. radix_decode at_0 (radix (a / 4) ∷ radix d ∷ pad ∷ pad ∷ [])) plus
    ∙ decode_first a 0 (pad ∷ pad ∷ []) ha (omega arith)
    ∙ ap (put_byte a) (decode_two_pads 0 (a % 4 * 16 + 0) (omega arith))
radix_decode-radix_encode (a ∷ b ∷ []) (ha, (hb, h)) =
    let plus : b % 16 * 4 ≡ b % 16 * 4 + 0 = omega arith in
    let end : radix_decode (at_2 (b / 16 * 16) (a % 4 * 16 + b / 16))
          (radix (b % 16 * 4) ∷ pad ∷ [])
        ≡ some (b ∷ []) =
      ap (λ d. radix_decode (at_2 (b / 16 * 16) (a % 4 * 16 + b / 16)) (radix d ∷ pad ∷ [])) plus
      ∙ decode_second b 0 (a % 4 * 16 + b / 16) (pad ∷ []) hb (omega arith)
      ∙ ap (put_byte b) (decode_one_pad 0 (b % 16 * 4 + 0) (omega arith)) in
    decode_first a (b / 16) _ ha (omega (arith, hb)) ∙ ap (put_byte a) end
radix_decode-radix_encode (a ∷ b ∷ c ∷ s) (ha, (hb, (hc, h))) =
    let rest = radix_decode-radix_encode s h in
    let whole : c / 64 * 64 + c % 64 ≡ c = omega arith in
    let end : radix_decode (at_3 (c / 64 * 64) (b % 16 * 4 + c / 64))
          (radix (c % 64) ∷ radix_encode first s)
        ≡ some (c ∷ s) =
      decode_3 (c / 64 * 64) (b % 16 * 4 + c / 64) (c % 64) (radix_encode first s) (omega arith)
      ∙ ap (λ o. put_byte o (radix_decode at_0 (radix_encode first s))) whole
      ∙ ap (put_byte c) rest in
    decode_first a (b / 16) _ ha (omega (arith, hb))
    ∙ ap (put_byte a) (
        decode_second b (c / 64) (a % 4 * 16 + b / 16) _ hb (omega (arith, hc))
        ∙ ap (put_byte b) end)
