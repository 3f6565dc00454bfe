-- ===== src/Acl/Set/Removed.antt =====
-- What `chirp_acl_set` of chirp/src/chirp_acl.c does for a subject that is to have no rights.
use murphy.Base.{
  ◌≡◌, ◌≢◌, inl, inr, refl, sym, ap, ◌∙◌, Bool, true, false, some, List, [], ◌∷◌, ◌++◌, Bytes,
  str_eq, str_eq_refl, str_eq_sound, append-nil, length, Bool-cases, All, if◌then◌else◌,
}
use mathlib.Core.Path.{subst}
use murphy.Acl.Check.{Store, Settings, base_name, no_flags, applies, total, rights_within}
use murphy.Acl.Entries.{entries}
use murphy.Acl.Flags.{Flags}
use murphy.Acl.Set.{acl_set, kept_line, stored, rewritten, replaced, set_text}
use murphy.Acl.Set.Laws.{read_flags, kept_line-entry}
use murphy.Acl.Set.Others.{total_step, total_more}
use murphy.Acl.Set.Stored.{IsListed, sound_disk, acl_set-stored, other_subject}
use murphy.Acl.Set.Written.{IsEntry, list_text, shown_entries, entries-list_text}

-- The list without the entries of a subject.
unfoldable unlisted : Bytes → List (Bytes × Flags) → List (Bytes × Flags)
unlisted subject [] = []
unlisted subject ((s, f) ∷ l) =
    let rest = unlisted subject l in if str_eq subject s then rest else (s, f) ∷ rest

unlisted-All :
    (P : Bytes × Flags → Type 0) (subject : Bytes) (l : List (Bytes × Flags))
    → All P l
    → All P (unlisted subject l)
unfolding unlisted
unlisted-All P subject [] h = tt
unlisted-All P subject ((s, f) ∷ l) (p, h) = elim (Bool-cases (str_eq subject s)) [
  | inl t ↦ rw t (unlisted-All P subject l h)
  | inr t ↦ rw t (p, unlisted-All P subject l h)
]

unlisted_other :
    (subject : Bytes) (l : List (Bytes × Flags))
    → All (λ e. e.0 ≢ subject) (shown_entries (unlisted subject l))
unfolding unlisted
unlisted_other subject [] = tt
unlisted_other subject ((s, f) ∷ l) = elim (Bool-cases (str_eq subject s)) [
  | inl t ↦ rw t (unlisted_other subject l)
  | inr t ↦ rw t (other_subject subject s t, unlisted_other subject l)
]

kept_line-none : (s : Bytes) → kept_line s no_flags ≡ []
unfolding rights_within
kept_line-none s = refl

rewritten-none :
    (subject : Bytes) (l : List (Bytes × Flags))
    → All IsEntry l
    → rewritten subject no_flags (shown_entries l) ≡ some (list_text (unlisted subject l))
unfolding rewritten unlisted
rewritten-none subject [] h = refl
rewritten-none subject ((s, f) ∷ l) (p, h) = elim (Bool-cases (str_eq subject s)) [
  | inl t ↦ rw (read_flags f p.1.1, rewritten-none subject l h, t, kept_line-none s) refl
  | inr t ↦ rw (read_flags f p.1.1, rewritten-none subject l h, t, kept_line-entry s f p) refl
]

IsListed-replaced :
    (subject : Bytes) (es : List (Bytes × Bytes)) → IsListed subject es → replaced subject es ≡ true
unfolding replaced
IsListed-replaced subject [] h = absurd h
IsListed-replaced subject ((s, acl) ∷ es) (inl e) =
    let t : str_eq subject s ≡ true = ap (str_eq subject) e ∙ str_eq_refl subject in rw t refl
IsListed-replaced subject ((s, acl) ∷ es) (inr h) = elim (Bool-cases (str_eq subject s)) [
  | inl t ↦ rw t refl
  | inr t ↦ rw t (IsListed-replaced subject es h)
]

set_text-none :
    (subject : Bytes) (l : List (Bytes × Flags))
    → All IsEntry l
    → IsListed subject (shown_entries l)
    → set_text subject no_flags (list_text l) ≡ some (list_text (unlisted subject l))
unfolding set_text
set_text-none subject l h k =
    rw
      (
        entries-list_text l h,
        rewritten-none subject l h,
        IsListed-replaced subject (shown_entries l) k,
      )
      (ap some (append-nil _))

total_unlisted :
    (store : Store) (q subject : Bytes) (l : List (Bytes × Flags))
    → applies store q subject ≡ some false
    → All IsEntry l
    → (acc : Flags)
    → total store q (shown_entries (unlisted subject l)) acc ≡ total store q (shown_entries l) acc
unfolding unlisted
total_unlisted store q subject [] e h acc = refl
total_unlisted store q subject ((s, f) ∷ l) e (p, h) acc = elim (Bool-cases (str_eq subject s)) [
  | inl t ↦ rw t (
      total_unlisted store q subject l e h acc
      ∙ sym (
          total_step store q s f acc (shown_entries l) false p.1.1
            (subst (λ z. applies store q z ≡ some false) (str_eq_sound subject s t) e)))
  | inr t ↦ rw t (total_more store q s f _ _ p.1.1 (total_unlisted store q subject l e h) acc)
]

-- Where the list of a directory opens, is the text of entries and has one for a subject, and the new file
-- is written, `chirp_acl_set` of no flags for the subject replaces the list by one in which no entry is
-- for it, and the rights of every subject that its entry does not apply to are what they were.
pub acl_set-removed :
    (store : Store) (settings : Settings) (missing : Bytes → Bool) (dirname q subject : Bytes)
    (l : List (Bytes × Flags))
    → store.is_dir dirname ≡ true
    → store.open_file (dirname ++ b'/' ∷ base_name) ≡ some (list_text l)
    → All IsEntry l
    → IsListed subject (shown_entries l)
    → applies store q subject ≡ some false
    → (new : Bytes) × (acl_set store settings missing sound_disk dirname subject no_flags false
        ≡ some (stored new))
      × All (λ e. e.0 ≢ subject) (entries (length new) new)
      × (total store q (entries (length new) new) no_flags
          ≡ total store q (entries (length (list_text l)) (list_text l)) no_flags)
acl_set-removed store settings missing dirname q subject l d k h i e =
    let read = entries-list_text (unlisted subject l) (unlisted-All IsEntry subject l h) in
    (
      list_text (unlisted subject l),
      acl_set-stored store settings missing dirname subject (list_text l) _ no_flags d k
          (set_text-none subject l h i),
      subst (λ es. All (λ e. e.0 ≢ subject) es) (sym read) (unlisted_other subject l),
      ap (λ es. total store q es no_flags) read
          ∙ total_unlisted store q subject l e h no_flags
          ∙ ap (λ es. total store q es no_flags) (sym (entries-list_text l h)),
    )
