-- ===== src/Acl/Set/Stored.antt =====
-- What `chirp_acl_set` of chirp/src/chirp_acl.c puts in the place of a list.
use murphy.Base.{
  ◌≡◌, ◌≢◌, ◌⊎◌, arith, str_eq_refl, refl, sym, ap, ◌∙◌, Bool, true, false, some, List, [], ◌∷◌,
  ◌++◌, Bytes, str_eq, str_eq_sound, length, Bool-cases, inl, inr, All,
}
use mathlib.Core.Path.{subst}
use murphy.Acl.Check.{Store, Settings, base_name, no_flags, applies, total}
use murphy.Acl.Entries.{entries}
use murphy.Acl.Flags.{text_to_flags, outside, Flags}
use murphy.Acl.Flags.RoundTrip.{granted}
use murphy.Acl.Set.{Disk, acl_set, old_text, write_over, store_text, stored, replaced, set_text}
use murphy.Acl.Set.Others.{total_updated}
use murphy.Acl.Set.Laws.{swapped, added, updated, read_flags, updated-IsEntry, set_text-list_text}
use murphy.Acl.Set.Written.{IsEntry, list_text, shown_entries, entries-list_text}

-- A subject has an entry in a list.
abbrev pub IsListed : Bytes → List (Bytes × Bytes) → Type 0
IsListed subject [] = ⊥
IsListed subject (e ∷ es) = (e.0 ≡ subject) ⊎ IsListed subject es

-- An entry is for another subject, or it gives the flags.
abbrev pub Gives : Bytes → Flags → Bytes × Bytes → Type 0
Gives subject flags e = (e.0 ≢ subject) ⊎ (text_to_flags outside no_flags e.1 ≡ some flags)

IsListed-append :
    (subject : Bytes) (l m : List (Bytes × Flags))
    → IsListed subject (shown_entries m)
    → IsListed subject (shown_entries (l ++ m))
IsListed-append subject [] m h = h
IsListed-append subject ((s, f) ∷ l) m h = inr (IsListed-append subject l m h)

swapped-IsListed :
    (subject : Bytes) (flags : Flags) (l m : List (Bytes × Flags))
    → replaced subject (shown_entries l) ≡ true
    → IsListed subject (shown_entries (swapped subject flags l ++ m))
unfolding replaced swapped
swapped-IsListed subject flags [] m h = cc
swapped-IsListed subject flags ((s, f) ∷ l) m h = elim (Bool-cases (str_eq subject s)) [
  | inl t ↦ inl (sym (str_eq_sound subject s t))
  | inr t ↦ inr (swapped-IsListed subject flags l m (sym (rw t refl) ∙ h))
]

updated-IsListed :
    (subject : Bytes) (flags : Flags) (l : List (Bytes × Flags))
    → IsListed subject (shown_entries (updated subject flags l))
updated-IsListed subject flags l = elim (Bool-cases (replaced subject (shown_entries l))) [
  | inl t ↦ swapped-IsListed subject flags l _ t
  | inr t ↦ rw t (IsListed-append subject (swapped subject flags l) _ (inl refl))
]

pub other_subject : (subject s : Bytes) → str_eq subject s ≡ false → s ≢ subject
other_subject subject s t e = absurd (
    let u : true ≡ false = sym (str_eq_refl subject) ∙ ap (str_eq subject) (sym e) ∙ t in
    grind arith)

updated-Gives :
    (subject : Bytes) (flags : Flags) (l : List (Bytes × Flags)) (b : Bool)
    → granted flags ≡ flags
    → All (Gives subject flags) (shown_entries (swapped subject flags l ++ added b subject flags))
unfolding swapped
updated-Gives subject flags [] true g = tt
updated-Gives subject flags [] false g = (inr (read_flags flags g), tt)
updated-Gives subject flags ((s, f) ∷ l) b g = (
  elim (Bool-cases (str_eq subject s)) [
    | inl t ↦ rw t (inr (read_flags flags g))
    | inr t ↦ inl (other_subject subject s t)
  ],
  updated-Gives subject flags l b g,
)

abbrev pub sound_disk : Disk
sound_disk = record { opens = true; writes = true; renames = true }

pub acl_set-stored :
    (store : Store) (settings : Settings) (missing : Bytes → Bool)
    (dirname subject text new : Bytes) (flags : Flags)
    → store.is_dir dirname ≡ true
    → store.open_file (dirname ++ b'/' ∷ base_name) ≡ some text
    → set_text subject flags text ≡ some new
    → acl_set store settings missing sound_disk dirname subject flags false ≡ some (stored new)
unfolding acl_set old_text write_over store_text
acl_set-stored store settings missing dirname subject text new flags h k e = rw (h, k, e) refl

-- Where the list of a directory opens and is the text of entries, a subject is given flags that can be
-- read back, and the new file is written, `chirp_acl_set` replaces the list by one in which the subject
-- has an entry, all its entries give those flags, and the rights of every subject that its entry does not
-- apply to are what they were.
pub acl_set-total :
    (store : Store) (settings : Settings) (missing : Bytes → Bool) (dirname q subject : Bytes)
    (flags : Flags) (l : List (Bytes × Flags))
    → store.is_dir dirname ≡ true
    → store.open_file (dirname ++ b'/' ∷ base_name) ≡ some (list_text l)
    → IsEntry (subject, flags)
    → All IsEntry l
    → applies store q subject ≡ some false
    → (new : Bytes) × (acl_set store settings missing sound_disk dirname subject flags false
        ≡ some (stored new))
      × IsListed subject (entries (length new) new)
      × All (Gives subject flags) (entries (length new) new)
      × (total store q (entries (length new) new) no_flags
          ≡ total store q (entries (length (list_text l)) (list_text l)) no_flags)
acl_set-total store settings missing dirname q subject flags l d k p h e =
    let read = entries-list_text (updated subject flags l) (updated-IsEntry subject flags l p h) in
    (
      list_text (updated subject flags l),
      acl_set-stored store settings missing dirname subject (list_text l) _ flags d k
          (set_text-list_text subject flags l p h),
      subst (IsListed subject) (sym read) (updated-IsListed subject flags l),
      subst (λ es. All (Gives subject flags) es) (sym read) (updated-Gives subject flags l _ p.1.1),
      ap (λ es. total store q es no_flags) read
          ∙ total_updated store q subject flags l _ p.1.1 e h no_flags
          ∙ ap (λ es. total store q es no_flags) (sym (entries-list_text l h)),
    )
