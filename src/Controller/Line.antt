-- ===== src/Controller/Line.antt =====
-- The string routines of parrot/src/MyString.cc that parrot/src/controller.cc reads its lines with,
-- and `atoi`.
pub mod Decimal
use murphy.Base.{
  ℕ, zero, suc, ◌+◌, ◌-◌, ◌*◌, Bool, true, false, ◌&&◌, ◌||◌, Option, none, some, List, [], ◌∷◌,
  ◌++◌, reverse, Bytes, ltb, leb, ◌==◌, if◌then◌else◌,
}
use murphy.Base.Int.{negsuc, as_int, ℤ, pos, ◌-ℤ◌}
use murphy.Text.Ends.{drop_while}

-- `isspace`
abbrev pub is_space : ℕ → Bool
is_space c = c == 32 || leb 9 c && leb c 13

abbrev pub is_digit : ℕ → Bool
is_digit c = leb b'0' c && leb c b'9'

-- A reversed line, without the newline at its end and a return before that.
abbrev pub chomp_reversed : Bytes → Bytes
chomp_reversed [] = []
chomp_reversed (c ∷ []) = if c == b'\n' then [] else c ∷ []
chomp_reversed (c ∷ d ∷ s) = if c == b'\n' then if d == b'\r' then s else d ∷ s else c ∷ d ∷ s

-- `MyString::chomp`
unfoldable pub chomp : Bytes → Bytes
chomp s = reverse (chomp_reversed (reverse s))

-- `MyString::trim`
unfoldable pub trim : Bytes → Bytes
trim s = reverse (drop_while is_space (reverse (drop_while is_space s)))

-- `MyString::Tokenize`: what `nextToken` points to, or `none` for NULL.
abbrev pub tokenize : Bytes → Option Bytes
tokenize [] = none
tokenize (c ∷ s) = some (c ∷ s)

-- The bytes before the first `delim`, and what follows it if there is one.
unfoldable pub cut_at : ℕ → Bytes → Bytes × Option Bytes
cut_at delim [] = ([], none)
cut_at delim (c ∷ s) =
    let (token, rest) = cut_at delim s in if c == delim then ([], some s) else (c ∷ token, rest)

-- `MyString::GetNextToken` for one delimiter, blank tokens not skipped: the token and `nextToken`.
abbrev pub next_token : ℕ → Option Bytes → Option Bytes × Option Bytes
next_token delim none = (none, none)
next_token delim (some s) = let (token, rest) = cut_at delim s in (some token, rest)

-- `!tmp || !tmp[0]`: a token that is missing or empty counts as none.
abbrev pub filled : Option Bytes → Option Bytes
filled none = none
filled (some []) = none
filled (some (c ∷ s)) = some (c ∷ s)

-- The number that the digits at the front spell, behind `n`, and what follows them.
unfoldable pub scan_digits : ℕ → Bytes → ℕ × Bytes
scan_digits n [] = (n, [])
scan_digits n (c ∷ s) =
    let more = scan_digits (n * 10 + (c - b'0')) s in if is_digit c then more else (n, c ∷ s)

abbrev pub signed : Bytes → ℤ
signed [] = pos 0
signed (c ∷ s) =
    if c == b'-'
    then pos 0 -ℤ pos (scan_digits 0 s).0
    else if c == b'+'
    then pos (scan_digits 0 s).0
    else pos (scan_digits 0 (c ∷ s)).0

-- The bounds of `strtol`, where `long` has 64 bits.
abbrev pub as_long : ℤ → ℤ
as_long (pos n) = if ltb n 9223372036854775808 then pos n else pos 9223372036854775807
as_long (negsuc n) = if ltb n 9223372036854775808 then negsuc n else negsuc 9223372036854775807

-- `atoi`, which is `strtol` cut to an `int`, as Linux has it.
unfoldable pub atoi : Bytes → ℤ
atoi s = as_int (as_long (signed (drop_while is_space s)))
