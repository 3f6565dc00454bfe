-- ===== src/Acl/Entries.antt =====
-- Reading a list of rights: `chirp_acl_read` of chirp/src/chirp_acl.c.
use murphy.Base.{
  ℕ, zero, suc, Bool, not, ◌||◌, Option, none, some, List, [], ◌∷◌, Bytes, ◌==◌, if◌then◌else◌,
}
use murphy.Controller.Line.{is_space}
use murphy.Controller.Log.{cut_line}
use murphy.Text.Ends.{drop_while}

-- The bytes up to the first one that fails a test, and what follows.
unfoldable pub take_while : (ℕ → Bool) → Bytes → Bytes × Bytes
take_while p [] = ([], [])
take_while p (c ∷ s) =
    let (front, rest) = take_while p s in if p c then (c ∷ front, rest) else ([], c ∷ s)

-- `%[rwldpvax()]`
abbrev pub is_acl_letter : ℕ → Bool
is_acl_letter c =
    c == b'r'
    || (c == b'w'
        || (c == b'l'
            || (c == b'd'
                || (c == b'p'
                    || (c == b'v' || (c == b'a' || (c == b'x' || (c == b'(' || c == b')'))))))))

abbrev pub is_no_blank : ℕ → Bool
is_no_blank c = not (c == 32)

abbrev pub if_filled : Bytes → Bytes → Option (Bytes × Bytes)
if_filled [] t = none
if_filled (c ∷ s) [] = none
if_filled (c ∷ s) (d ∷ t) = some (c ∷ s, d ∷ t)

-- `sscanf(acl, "%[^ ] %[rwldpvax()]", subject, tmp) == 2`
unfoldable pub scan_entry : Bytes → Option (Bytes × Bytes)
scan_entry line =
    let (subject, rest) = take_while is_no_blank line in
    if_filled subject (take_while is_acl_letter (drop_while is_space rest)).0

-- What `chirp_acl_read` finds in a text, call by call: subjects and the text of their flags. The lines that
-- may still be read are bounded by the length of the text.
unfoldable pub entries : ℕ → Bytes → List (Bytes × Bytes)
entries zero text = []
entries (suc n) [] = []
entries (suc n) (c ∷ s) =
    let (line, rest) = cut_line (c ∷ s) in
    let more = entries n rest in elim (scan_entry line) [ none ↦ more | some e ↦ e ∷ more ]
