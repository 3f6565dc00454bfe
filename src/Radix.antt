-- ===== src/Radix.antt =====
-- ftp_lite/src/radix.c: base 64. Or-ing bits that do not overlap is written as a sum, shifts as
-- products and quotients.
pub mod RoundTrip
mod Tests
use murphy.Base.{
  ℕ, zero, suc, ◌+◌, ◌-◌, ◌*◌, ◌/◌, ◌%◌, Bool, true, false, ◌||◌, ◌&&◌, Option, none, some, List,
  [], ◌∷◌, ◌++◌, Bytes, ltb, leb, ◌==◌, if◌then◌else◌,
}

abbrev pub pad : ℕ
pad = b'='

-- `radixN[d]`
pub radix : ℕ → ℕ
radix d =
    if ltb d 26
    then d + b'A'
    else if ltb d 52
    then d + 71
    else if ltb d 62
    then d - 4
    else if d == 62
    then b'+'
    else b'/'

-- `strchr(radixN, b) - radixN`
pub radix_index : ℕ → Option ℕ
radix_index b =
    if leb b'A' b && leb b b'Z'
    then some (b - b'A')
    else if leb b'a' b && leb b b'z'
    then some (b - 71)
    else if leb b'0' b && leb b b'9'
    then some (b + 4)
    else if b == b'+'
    then some 62
    else if b == b'/'
    then some 63
    else none

-- `i % 3` of the loop of the encoder, with the bits `c` that are left over.
pub data Phase : Type 0 where
  first : Phase
  second : ℕ → Phase
  third : ℕ → Phase

-- `ftp_lite_radix_encode`: the loop, and the end behind it.
pub radix_encode : Phase → Bytes → Bytes
radix_encode first [] = []
radix_encode (second c) [] = radix c ∷ pad ∷ pad ∷ []
radix_encode (third c) [] = radix c ∷ pad ∷ []
radix_encode first (b ∷ s) = radix (b / 4) ∷ radix_encode (second (b % 4 * 16)) s
radix_encode (second c) (b ∷ s) = radix (c + b / 16) ∷ radix_encode (third (b % 16 * 4)) s
radix_encode (third c) (b ∷ s) = radix (c + b / 64) ∷ radix (b % 64) ∷ radix_encode first s

-- `i & 3` of the loop of the decoder, with `outbuf[j]` so far and the last digit `D`.
pub data Place : Type 0 where
  at_0 : Place
  at_1 : ℕ → Place
  at_2 : ℕ → ℕ → Place
  at_3 : ℕ → ℕ → Place

-- What the decoder makes of the rest of the text where its loop ends, at the NUL or at a `=`.
pub finish : Place → Bytes → Option Bytes
finish at_0 rest = some []
finish (at_1 o) rest = none
finish (at_2 o d) rest = elim rest [
  | [] ↦ none
  | p ∷ r ↦ elim r [
    | [] ↦ none
    | q ∷ r' ↦ elim r' [
      | [] ↦ if d % 16 == 0 && (p == pad && q == pad) then some [] else none
      | x ∷ y ↦ none
    ]
  ]
]
finish (at_3 o d) rest = elim rest [
  | [] ↦ none
  | p ∷ r ↦ elim r [ [] ↦ if d % 4 == 0 && p == pad then some [] else none | x ∷ y ↦ none ]
]

abbrev pub put_byte : ℕ → Option Bytes → Option Bytes
put_byte b none = none
put_byte b (some s) = some (b ∷ s)

-- One digit: the bytes that it completes are put in front of what the rest decodes to.
pub radix_decode : Place → Bytes → Option Bytes
radix_decode at [] = finish at []
radix_decode at_0 (b ∷ s) =
    let go = λ (d : ℕ). radix_decode (at_1 (d * 4)) s in
    if b == pad then finish at_0 (b ∷ s) else elim (radix_index b) [ none ↦ none | some d ↦ go d ]
radix_decode (at_1 o) (b ∷ s) =
    let go = λ (d : ℕ). put_byte (o + d / 16) (radix_decode (at_2 (d % 16 * 16) d) s) in
    if b == pad
    then finish (at_1 o) (b ∷ s)
    else elim (radix_index b) [ none ↦ none | some d ↦ go d ]
radix_decode (at_2 o e) (b ∷ s) =
    let go = λ (d : ℕ). put_byte (o + d / 4) (radix_decode (at_3 (d % 4 * 64) d) s) in
    if b == pad
    then finish (at_2 o e) (b ∷ s)
    else elim (radix_index b) [ none ↦ none | some d ↦ go d ]
radix_decode (at_3 o e) (b ∷ s) =
    let go = λ (d : ℕ). put_byte (o + d) (radix_decode at_0 s) in
    if b == pad
    then finish (at_3 o e) (b ∷ s)
    else elim (radix_index b) [ none ↦ none | some d ↦ go d ]
