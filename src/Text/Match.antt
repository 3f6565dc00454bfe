-- ===== src/Text/Match.antt =====
-- `string_match` of dttools/src/stringtools.c: one star in a pattern, as the access control lists of
-- chirp use it.
pub mod Laws
mod Tests
use murphy.Base.{
  ℕ, ◌-◌, Bool, true, false, ◌&&◌, Option, none, some, List, [], ◌∷◌, Bytes, str_eq, length, drop,
  ltb, ◌==◌, if◌then◌else◌,
}

abbrev pub star : ℕ
star = b'*'

-- `strchr(pattern, '*')`: what stands before the first star and behind it.
unfoldable pub cut_star : Bytes → Option (Bytes × Bytes)
cut_star [] = none
cut_star (c ∷ p) =
    let rest = cut_star p in
    if c == star
    then some ([], p)
    else elim rest [ none ↦ none | some (head, tail) ↦ some (c ∷ head, tail) ]

-- `!strncmp(head, text, strlen(head))`
unfoldable pub starts_with : Bytes → Bytes → Bool
starts_with [] text = true
starts_with (c ∷ head) [] = false
starts_with (c ∷ head) (d ∷ text) = c == d && starts_with head text

-- `string_match`. The code compares the tail with the last `taillen` bytes of the text without a test
-- that the text has so many: the result is `none` where it reads in front of the text.
unfoldable pub string_match : Bytes → Bytes → Option Bool
string_match pattern text = elim (cut_star pattern) [
  | none ↦ some (str_eq pattern text)
  | some (head, tail) ↦
      if starts_with head text
      then if ltb (length text) (length tail)
        then none
        else some (str_eq tail (drop (length text - length tail) text))
      else some false
]
