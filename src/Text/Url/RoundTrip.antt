-- ===== src/Text/Url/RoundTrip.antt =====
-- What `url_decode` of dttools/src/url_encode.c makes of what `url_encode` writes.
use murphy.Base.{
  ℕ, suc, ◌+◌, ◌-◌, ◌*◌, ◌/◌, ◌%◌, ◌≤◌, ◌<◌, ◌≡◌, refl, ap, ◌∙◌, true, false, some, [], ◌∷◌, ◌++◌,
  Bytes, length, All, arith, Bool-cases, inl, inr, ltb, ◌==◌,
}
use murphy.Text.Url.{
  percent, is_escaped, hex_digit, escape, url_encode, hex_value, is_space, scan_hex, url_decode,
}

-- A byte with two digits.
abbrev pub IsTwoDigit : ℕ → Type 0
IsTwoDigit b = (16 ≤ b) × (b < 128)

hex_value-hex_digit : (d : ℕ) → d < 16 → hex_value (hex_digit d) ≡ some d
unfolding hex_digit
hex_value-hex_digit d h = grind arith

hex_digit_solid : (d : ℕ) → d < 16 → is_space (hex_digit d) ≡ false
unfolding hex_digit
hex_digit_solid d h = grind arith

scan_hex-two :
    (h l : ℕ) (s : Bytes)
    → h < 16
    → l < 16
    → scan_hex (hex_digit h ∷ hex_digit l ∷ s) ≡ some (h * 16 + l)
unfolding scan_hex
scan_hex-two h l s p q =
    rw (hex_digit_solid h p, hex_value-hex_digit h p, hex_value-hex_digit l q) refl

not_percent : (b : ℕ) → is_escaped b ≡ false → (b == percent) ≡ false
unfolding is_escaped
not_percent b h = grind arith

escape_two :
    (b : ℕ) → IsTwoDigit b → escape b ≡ percent ∷ hex_digit (b / 16) ∷ hex_digit (b % 16) ∷ []
unfolding escape
escape_two b (p, q) =
    let low : ltb b 16 ≡ false = grind arith in
    let high : ltb b 128 ≡ true = grind arith in rw (low, high) refl

encode_escaped :
    (b : ℕ) (s : Bytes) (n : ℕ)
    → is_escaped b ≡ true
    → 3 < n
    → url_encode (b ∷ s) n ≡ escape b ++ url_encode s (n - 3)
unfolding url_encode
encode_escaped b s n e h =
    let one : ltb 1 n ≡ true = grind arith in
    let three : ltb 3 n ≡ true = grind arith in rw (one, e, three) refl

encode_copied :
    (b : ℕ) (s : Bytes) (n : ℕ)
    → is_escaped b ≡ false
    → 1 < n
    → url_encode (b ∷ s) n ≡ b ∷ url_encode s (n - 1)
unfolding url_encode
encode_copied b s n e h = let one : ltb 1 n ≡ true = grind arith in rw (one, e) refl

decode_escaped :
    (h l x : ℕ) (s t : Bytes) (m : ℕ)
    → 1 < m
    → scan_hex (h ∷ l ∷ s) ≡ some x
    → url_decode 0 s (m - 1) ≡ some t
    → url_decode 0 (percent ∷ h ∷ l ∷ s) m ≡ some (x ∷ t)
unfolding url_decode
decode_escaped h l x s t m room e rest =
    let one : ltb 1 m ≡ true = grind arith in rw (one, e, rest) refl

decode_copied :
    (b : ℕ) (s t : Bytes) (m : ℕ)
    → 1 < m
    → (b == percent) ≡ false
    → url_decode 0 s (m - 1) ≡ some t
    → url_decode 0 (b ∷ s) m ≡ some (b ∷ t)
unfolding url_decode
decode_copied b s t m room e rest = let one : ltb 1 m ≡ true = grind arith in rw (one, e, rest) refl

-- Bytes from 16 to 127 come back from `url_decode` as they were given to `url_encode`, if the first
-- buffer has more than three bytes for each of them and the second has more than one.
pub url_decode-url_encode :
    (s : Bytes) (n m : ℕ)
    → All IsTwoDigit s
    → 3 * length s < n
    → length s < m
    → url_decode 0 (url_encode s n) m ≡ some s
unfolding url_encode
url_decode-url_encode [] n m h p q = unfold url_decode in refl
url_decode-url_encode (b ∷ s) n m (hb, hs) p q = elim (Bool-cases (is_escaped b)) [
  | inl e ↦
      let rest = url_decode-url_encode s (n - 3) (m - 1) hs (omega arith) (omega arith) in
      let whole : b / 16 * 16 + b % 16 ≡ b = omega arith in
      ap (λ l. url_decode 0 l m)
        (encode_escaped b s n e (omega arith)
          ∙ ap (λ l. l ++ url_encode s (n - 3)) (escape_two b hb))
      ∙ decode_escaped (hex_digit (b / 16)) (hex_digit (b % 16)) b (url_encode s (n - 3)) s m
          (omega arith)
          (scan_hex-two (b / 16) (b % 16) (url_encode s (n - 3)) (omega (arith, hb)) (omega arith)
            ∙ ap some whole)
          rest
  | inr e ↦
      let rest = url_decode-url_encode s (n - 1) (m - 1) hs (omega arith) (omega arith) in
      ap (λ l. url_decode 0 l m) (encode_copied b s n e (omega arith))
      ∙ decode_copied b (url_encode s (n - 1)) s m (omega arith) (not_percent b e) rest
]

escape_high : (b : ℕ) → 128 ≤ b → escape b ≡ percent ∷ b'F' ∷ b'F' ∷ []
unfolding escape
escape_high b h =
    let low : ltb b 16 ≡ false = grind arith in
    let high : ltb b 128 ≡ false = grind arith in rw (low, high) refl

is_escaped_high : (b : ℕ) → 128 ≤ b → is_escaped b ≡ true
unfolding is_escaped
is_escaped_high b h = grind arith

scan_hex_high : (s : Bytes) → scan_hex (b'F' ∷ b'F' ∷ s) ≡ some 255
unfolding scan_hex
scan_hex_high s = refl

-- Whatever byte above 127 stands in front of bytes from 16 to 127, `url_decode` reads 255 in its place and
-- the others as they were, if both buffers are large enough: of the bytes above 127 only 255 comes back.
pub url_decode_high :
    (b : ℕ) (s : Bytes) (n m : ℕ)
    → 128 ≤ b
    → 3 + 3 * length s < n
    → suc (length s) < m
    → All IsTwoDigit s
    → url_decode 0 (url_encode (b ∷ s) n) m ≡ some (255 ∷ s)
url_decode_high b s n m h p q hs =
    let rest = url_decode-url_encode s (n - 3) (m - 1) hs (omega arith) (omega arith) in
    ap (λ l. url_decode 0 l m)
      (encode_escaped b s n (is_escaped_high b h) (omega arith)
        ∙ ap (λ l. l ++ url_encode s (n - 3)) (escape_high b h))
    ∙ decode_escaped b'F' b'F' 255 (url_encode s (n - 3)) s m (omega arith)
        (scan_hex_high (url_encode s (n - 3))) rest
