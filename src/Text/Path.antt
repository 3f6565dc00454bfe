-- ===== src/Text/Path.antt =====
-- The path routines of dttools/src/stringtools.c.
pub mod Split
pub mod Collapse
mod Tests
use murphy.Base.{
  ℕ, zero, suc, Bool, true, false, ◌&&◌, ◌||◌, not, Option, none, some, List, [], ◌∷◌, ◌++◌,
  reverse, Bytes, ◌==◌, if◌then◌else◌,
}
use murphy.Text.Ends.{remove_trailing_slashes}

abbrev pub slash : ℕ
slash = b'/'

abbrev pub dot : ℕ
dot = b'.'

-- `while(*input == '/') input++;`
pub skip_slashes : Bytes → Bytes
skip_slashes [] = []
skip_slashes (c ∷ s) = if c == slash then skip_slashes s else c ∷ s

-- The copy of the first element, up to a byte at which it stops: what was copied, and what is left.
pub copy_until : (ℕ → Bool) → Bytes → Bytes × Bytes
copy_until stop [] = ([], [])
copy_until stop (c ∷ s) =
    let (first, rest) = copy_until stop s in if stop c then ([], c ∷ s) else (c ∷ first, rest)

abbrev pub is_slash : ℕ → Bool
is_slash c = c == slash

abbrev pub is_slash_or_at : ℕ → Bool
is_slash_or_at c = c == slash || c == b'@'

-- A slash is put in front of the rest unless it starts with a byte at which the first element stops.
pub lead : (ℕ → Bool) → Bytes → Bytes
lead stop [] = slash ∷ []
lead stop (c ∷ s) = if stop c then c ∷ s else slash ∷ c ∷ s

-- `string_split_path`: the first element, and the rest.
pub split_path : Bytes → Bytes × Bytes
split_path input =
    let (first, rest) = copy_until is_slash (skip_slashes input) in (first, lead is_slash rest)

-- `string_split_multipath`
pub split_multipath : Bytes → Bytes × Bytes
split_multipath input =
    let (first, rest) = copy_until is_slash_or_at (skip_slashes input) in
    (first, lead is_slash_or_at rest)

-- `strrchr(dir, '/')`, cut there: the bytes before the last slash, if there is one.
unfoldable pub cut_last_slash : Bytes → Option Bytes
cut_last_slash [] = none
cut_last_slash (c ∷ s) = elim (cut_last_slash s) [
  | some front ↦ some (c ∷ front)
  | none ↦ if c == slash then some [] else none
]

-- `string_dirname`
unfoldable pub dirname : Bytes → Bytes
dirname path = elim (cut_last_slash path) [
  | none ↦ dot ∷ []
  | some [] ↦ slash ∷ []
  | some (c ∷ front) ↦ c ∷ front
]

-- What follows `l` is the end of the string or a slash.
pub ends : Bytes → Bool
ends [] = true
ends (c ∷ s) = c == slash

-- The branches of the loop of `string_collapse_path` at a slash with `l` behind it, but for `..`: a
-- double slash, `/.` at the end, `/./` and a slash at the end. `skip` counts the further bytes that
-- the branch passes over.
pub data Step : Type 0 where
  pass : ℕ → Step
  up : Step
  keep : Step

-- `..` and then the end or a slash, behind the first dot.
pub second_dot : Bytes → Bool
second_dot [] = false
second_dot (b ∷ l) = b == dot && ends l

unfoldable pub at_slash : Bool → Bytes → Step
at_slash dotdot [] = pass 0
at_slash dotdot (a ∷ l) =
    if a == slash
    then pass 0
    else if a == dot && ends l
    then pass 1
    else if dotdot && (a == dot && second_dot l)
    then up
    else keep

-- The backward loop at `..`, on what is written so far, last byte first: the byte before the end goes,
-- and those before it up to and including a slash.
pub pop : Bytes → Bytes
pop [] = []
pop (c ∷ out) = if c == slash then out else pop out

-- What one round does to the number of bytes to pass over and to what is written.
unfoldable pub round : Bool → ℕ → Bytes → Bytes → ℕ × Bytes
round dotdot c l out =
    if c == slash
    then elim (at_slash dotdot l) [ pass n ↦ (n, out) | up ↦ (2, pop out) | keep ↦ (0, c ∷ out) ]
    else (0, c ∷ out)

-- The loop of `string_collapse_path`, with the bytes still to be passed over and what is written so
-- far, last byte first.
unfoldable pub collapse : Bool → ℕ → Bytes → Bytes → Bytes
collapse dotdot n [] out = out
collapse dotdot (suc n) (c ∷ l) out = collapse dotdot n l out
collapse dotdot zero (c ∷ l) out = let (n, out') = round dotdot c l out in collapse dotdot n l out'

-- `string_collapse_path`. At the end the code calls `string_remove_trailing_slashes` on the position
-- behind the last byte that it has written, the empty string.
unfoldable pub collapse_path : Bool → Bytes → Bytes
collapse_path dotdot l = elim (collapse dotdot 0 l []) [
  | [] ↦ slash ∷ []
  | c ∷ out ↦ reverse (c ∷ out) ++ remove_trailing_slashes []
]
