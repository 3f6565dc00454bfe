-- ===== src/Acl/Set/Written.antt =====
-- The text of a list of rights, read again by `chirp_acl_read` of chirp/src/chirp_acl.c.
use murphy.Base.{
  ℕ, zero, suc, ◌≤◌, ◌≡◌, ◌≢◌, ◌<◌, refl, sym, ap, ◌∙◌, Bool, true, false, some, List, [], ◌∷◌,
  ◌++◌, Bytes, codes, length, length-append, append_assoc, append-nil, All, All-append, arith,
  if◌then◌else◌,
}
use mathlib.Core.Path.{subst}
use murphy.Acl.Set.{entry_line}
use murphy.Acl.Entries.{take_while, is_acl_letter, is_no_blank, if_filled, scan_entry, entries}
use murphy.Acl.Flags.{Rights, Flags, letter, reserved_to_text, or_n, flags_to_text}
use murphy.Acl.Flags.RoundTrip.{granted}
use murphy.Controller.Line.{is_space}
use murphy.Controller.Log.{cut_line}
use murphy.Controller.Log.Lines.{IsLine, cut_line-newline}
use murphy.Text.Ends.{drop_while}

abbrev pub IsLetter : ℕ → Type 0
IsLetter c = is_acl_letter c ≡ true

letter-IsLetter :
    (b : Bool) (c : ℕ) (t : Bytes) → IsLetter c → All IsLetter t → All IsLetter (letter b c ++ t)
letter-IsLetter false c t h k = k
letter-IsLetter true c t h k = (h, k)

reserved_to_text-IsLetter : (r : Rights) → All IsLetter (reserved_to_text r)
unfolding reserved_to_text
reserved_to_text-IsLetter r = letter-IsLetter r.read _ _ refl (
    letter-IsLetter r.write _ _ refl (
      letter-IsLetter r.list _ _ refl (
        letter-IsLetter r.delete _ _ refl (
          letter-IsLetter r.put _ _ refl (
            letter-IsLetter r.reserve _ _ refl (
              letter-IsLetter r.admin _ _ refl (letter-IsLetter r.execute _ _ refl (refl, tt))))))))

reserve-IsLetter :
    (b : Bool) (r : Rights) → All IsLetter (if b then b'v' ∷ b'(' ∷ reserved_to_text r else [])
reserve-IsLetter false r = tt
reserve-IsLetter true r = (refl, (refl, reserved_to_text-IsLetter r))

-- The flags that are written as letters.
abbrev pub IsShown : Bytes → Type 0
IsShown t = All IsLetter t × (t ≢ [])

or_n-IsShown : (t : Bytes) → All IsLetter t → or_n t ≢ codes "n" → IsShown (or_n t)
or_n-IsShown [] h k = absurd (k refl)
or_n-IsShown (c ∷ t) h k = (h, λ e. cc)

pub flags_to_text-IsShown : (f : Flags) → flags_to_text f ≢ codes "n" → IsShown (flags_to_text f)
unfolding flags_to_text
flags_to_text-IsShown f =
    let o = f.own in
    or_n-IsShown _ (
      letter-IsLetter o.read _ _ refl (
        letter-IsLetter o.write _ _ refl (
          letter-IsLetter o.list _ _ refl (
            letter-IsLetter o.delete _ _ refl (
              letter-IsLetter o.put _ _ refl (
                letter-IsLetter o.admin _ _ refl
                  (letter-IsLetter o.execute _ _ refl (reserve-IsLetter o.reserve f.reserved))))))))

take_while-append :
    (p : ℕ → Bool) (s : Bytes) (d : ℕ) (t : Bytes)
    → All (λ c. p c ≡ true) s
    → p d ≡ false
    → take_while p (s ++ d ∷ t) ≡ (s, d ∷ t)
unfolding take_while
take_while-append p [] d t h k = rw k refl
take_while-append p (c ∷ s) d t (e, h) k = rw (e, take_while-append p s d t h k) refl

letter_ink : (c : ℕ) → IsLetter c → is_space c ≡ false
letter_ink c h = ground arith

drop_blank : (t rest : Bytes) → IsShown t → drop_while is_space (32 ∷ (t ++ rest)) ≡ t ++ rest
unfolding drop_while
drop_blank [] rest (h, k) = absurd (k refl)
drop_blank (c ∷ t) rest ((p, h), k) = rw (letter_ink c p) refl

-- A subject that a line can hold: not empty, without blanks and newlines.
abbrev pub IsSubject : Bytes → Type 0
IsSubject s = (s ≢ []) × (All (λ c. is_no_blank c ≡ true) s × IsLine s)

if_filled_lem : (s t : Bytes) → s ≢ [] → t ≢ [] → if_filled s t ≡ some (s, t)
if_filled_lem [] t h k = absurd (h refl)
if_filled_lem (c ∷ s) [] h k = absurd (k refl)
if_filled_lem (c ∷ s) (d ∷ t) h k = refl

scan_shown :
    (s t : Bytes) → IsSubject s → IsShown t → scan_entry (s ++ 32 ∷ (t ++ b'\n' ∷ [])) ≡ some (s, t)
unfolding scan_entry
scan_shown s t (h, (k, l)) (m, n) =
    rw
      (
        take_while-append is_no_blank s 32 (t ++ b'\n' ∷ []) k refl,
        drop_blank t (b'\n' ∷ []) (m, n),
        take_while-append is_acl_letter t b'\n' [] m refl,
      )
      (if_filled_lem s t h n)

newline_lem : (c : ℕ) → IsLetter c → c ≢ b'\n'
newline_lem c h e = absurd (let f : false ≡ true = subst IsLetter e h in grind arith)

letters-IsLine : (t : Bytes) → All IsLetter t → IsLine t
letters-IsLine [] h = tt
letters-IsLine (c ∷ t) (p, h) = (λ e. newline_lem c p e, letters-IsLine t h)

read_cut :
    (n c : ℕ) (s line rest : Bytes) (e : Bytes × Bytes)
    → cut_line (c ∷ s) ≡ (line, rest)
    → scan_entry line ≡ some e
    → entries (suc n) (c ∷ s) ≡ e ∷ entries n rest
unfolding entries
read_cut n c s line rest e f g =
    let line_lem : (cut_line (c ∷ s)).0 ≡ line = ap (λ x. x.0) f in
    let rest_lem : (cut_line (c ∷ s)).1 ≡ rest = ap (λ x. x.1) f in
    rw (line_lem, g, rest_lem, entries) refl

entry_read :
    (n : ℕ) (l rest : Bytes) (e : Bytes × Bytes)
    → IsLine l
    → scan_entry (l ++ b'\n' ∷ []) ≡ some e
    → entries (suc n) (l ++ b'\n' ∷ rest) ≡ e ∷ entries n rest
entry_read n [] rest e h g = read_cut n _ _ _ _ e (cut_line-newline [] rest tt) g
entry_read n (c ∷ l) rest e h g = read_cut n _ _ _ _ e (cut_line-newline (c ∷ l) rest h) g

line_split :
    (s t rest : Bytes) → (s ++ 32 ∷ (t ++ b'\n' ∷ [])) ++ rest ≡ (s ++ 32 ∷ t) ++ b'\n' ∷ rest
line_split s t rest =
    append_assoc s (32 ∷ (t ++ b'\n' ∷ [])) rest
    ∙ ap (λ z. s ++ 32 ∷ z) (append_assoc t (b'\n' ∷ []) rest)
    ∙ sym (append_assoc s (32 ∷ t) (b'\n' ∷ rest))

-- An entry of a list that is read back: flags that show, without rights that are reserved in vain.
abbrev pub IsEntry : Bytes × Flags → Type 0
IsEntry (s, f) = IsSubject s × ((flags_to_text f ≢ codes "n") × (granted f ≡ f))

pub entries-line :
    (n : ℕ) (s : Bytes) (f : Flags) (rest : Bytes)
    → IsEntry (s, f)
    → entries (suc n) (entry_line s f ++ rest) ≡ (s, flags_to_text f) ∷ entries n rest
entries-line n s f rest (h, (k, g)) =
    let t = flags_to_text f in
    let shown = flags_to_text-IsShown f k in
    ap (entries (suc n)) (line_split s t rest)
    ∙ entry_read n (s ++ 32 ∷ t) rest (s, t)
        (All-append _ s (32 ∷ t) h.1.1 (λ e. absurd (omega arith), letters-IsLine t shown.0))
        (ap scan_entry (sym (line_split s t []) ∙ append-nil _) ∙ scan_shown s t h shown)

-- The text of a list.
abbrev pub list_text : List (Bytes × Flags) → Bytes
list_text [] = []
list_text ((s, f) ∷ l) = entry_line s f ++ list_text l

-- What is read of it.
abbrev pub shown_entries : List (Bytes × Flags) → List (Bytes × Bytes)
shown_entries [] = []
shown_entries ((s, f) ∷ l) = (s, flags_to_text f) ∷ shown_entries l

entry_line-length :
    (s : Bytes) (f : Flags) (rest : Bytes) → length rest < length (entry_line s f ++ rest)
entry_line-length s f rest = omega (
  arith,
  length-append (entry_line s f) rest,
  length-append s (32 ∷ (flags_to_text f ++ b'\n' ∷ [])),
)

entries_within :
    (n : ℕ) (l : List (Bytes × Flags))
    → All IsEntry l
    → length (list_text l) ≤ n
    → entries n (list_text l) ≡ shown_entries l
unfolding entries
entries_within zero [] h k = refl
entries_within (suc n) [] h k = refl
entries_within zero ((s, f) ∷ l) h k = absurd (omega (arith, entry_line-length s f (list_text l)))
entries_within (suc n) ((s, f) ∷ l) (p, h) k =
    entries-line n s f (list_text l) p
    ∙ ap (λ z. (s, flags_to_text f) ∷ z)
        (entries_within n l h (omega (arith, entry_line-length s f (list_text l))))

pub entries-list_text :
    (l : List (Bytes × Flags))
    → All IsEntry l
    → entries (length (list_text l)) (list_text l) ≡ shown_entries l
entries-list_text l h = entries_within (length (list_text l)) l h (omega arith)
