-- ===== src/Text/Url.antt =====
-- dttools/src/url_encode.c: bytes that a URL may not hold, written as `%` and two hexadecimal digits.
-- A byte above 127 is a negative `char`, as gcc has it on the supported machines.
pub mod RoundTrip
mod Tests
use murphy.Base.{
  ℕ, zero, suc, ◌+◌, ◌-◌, ◌*◌, ◌/◌, ◌%◌, Bool, true, false, ◌||◌, ◌&&◌, Option, none, some, List,
  [], ◌∷◌, ◌++◌, Bytes, ltb, leb, ◌==◌, if◌then◌else◌,
}

abbrev pub percent : ℕ
percent = b'%'

-- The test of `url_encode`.
pub is_escaped : ℕ → Bool
is_escaped b =
    leb b 32
    || b == percent
    || b == b'\\'
    || b == b'<'
    || b == b'>'
    || b == b'\''
    || b == b'"'
    || ltb 122 b

-- A digit of `%X`.
pub hex_digit : ℕ → ℕ
hex_digit d = if ltb d 10 then d + b'0' else d + 55

-- The three bytes that stay of `snprintf(t, length, "%%%2X", *s)`: the field is padded with a blank,
-- and a negative number has eight digits, of which `t += 3` keeps the first two.
pub escape : ℕ → Bytes
escape b =
    if ltb b 16
    then percent ∷ b' ' ∷ hex_digit b ∷ []
    else if ltb b 128
    then percent ∷ hex_digit (b / 16) ∷ hex_digit (b % 16) ∷ []
    else percent ∷ b'F' ∷ b'F' ∷ []

-- `url_encode`, with the length of the buffer.
pub url_encode : Bytes → ℕ → Bytes
url_encode [] length = []
url_encode (b ∷ s) length =
    let escaped = escape b ++ url_encode s (length - 3) in
    let copied = b ∷ url_encode s (length - 1) in
    if ltb 1 length
    then if is_escaped b then if ltb 3 length then escaped else [] else copied
    else []

abbrev pub hex_value : ℕ → Option ℕ
hex_value c =
    if leb b'0' c && leb c b'9'
    then some (c - b'0')
    else if leb b'A' c && leb c b'F'
    then some (c - 55)
    else if leb b'a' c && leb c b'f'
    then some (c - 87)
    else none

abbrev pub is_space : ℕ → Bool
is_space c = c == 32 || leb 9 c && leb c 13

-- `sscanf(s + 1, "%2x", &x)`: blanks are passed over and do not count. The result is `none` where `x`
-- stays unset, and for a sign or a prefix `0x`, which are left out.
pub scan_hex : Bytes → Option ℕ
scan_hex [] = none
scan_hex (c ∷ s) =
    let rest = scan_hex s in
    if is_space c then rest else elim (hex_value c) [
      | none ↦ none
      | some h ↦ elim s [
        | [] ↦ some h
        | d ∷ t ↦ elim (hex_value d) [
          | none ↦ if c == b'0' && (d == b'x' || d == b'X') then none else some h
          | some l ↦ some (h * 16 + l)
        ]
      ]
    ]

-- `url_decode`, with the bytes that are still to be passed over and the length of the buffer; `none`
-- where the code reads behind the end of the text or uses an unset number.
pub url_decode : ℕ → Bytes → ℕ → Option Bytes
url_decode zero [] length = some []
url_decode (suc k) [] length = none
url_decode (suc k) (c ∷ s) length = url_decode k s length
url_decode zero (c ∷ s) length =
    let escaped = url_decode 2 s (length - 1) in
    let copied = url_decode 0 s (length - 1) in
    if ltb 1 length
    then if c == percent
      then elim (scan_hex s) [
        | none ↦ none
        | some x ↦ elim escaped [ none ↦ none | some t ↦ some (x ∷ t) ]
      ]
      else elim copied [ none ↦ none | some t ↦ some (c ∷ t) ]
    else some []
