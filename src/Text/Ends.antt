-- ===== src/Text/Ends.antt =====
-- Routines of dttools/src/stringtools.c at the ends of a string.
pub mod Laws
mod Tests
use murphy.Base.{
  ℕ, ◌≡◌, refl, Bool, true, false, ◌||◌, List, [], ◌∷◌, ◌++◌, reverse, Bytes, ◌==◌, if◌then◌else◌,
}

-- The bytes from the front of a reversed string that a backward loop passes over.
unfoldable pub drop_while : (ℕ → Bool) → Bytes → Bytes
drop_while p [] = []
drop_while p (c ∷ s) = if p c then drop_while p s else c ∷ s

abbrev pub is_newline : ℕ → Bool
is_newline c = c == b'\n' || c == b'\r'

-- `string_chomp`: back from the last byte while it is a newline or a return.
unfoldable pub chomp : Bytes → Bytes
chomp s = reverse (drop_while is_newline (reverse s))

-- `string_remove_trailing_slashes`: the first byte is never removed.
unfoldable pub remove_trailing_slashes : Bytes → Bytes
remove_trailing_slashes [] = []
remove_trailing_slashes (c ∷ s) = c ∷ reverse (drop_while (λ b. b == b'/') (reverse s))
