-- ===== src/Acl/Set/Laws.antt =====
-- What `chirp_acl_set` of chirp/src/chirp_acl.c leaves as it was.
use murphy.Base.{
  ◌≡◌, ◌≢◌, refl, sym, ap, ◌∙◌, Bool, true, false, some, List, [], ◌∷◌, ◌++◌, Bytes, codes, str_eq,
  append_assoc, append-nil, Bool-cases, inl, inr, All, All-append, if◌then◌else◌,
}
use murphy.Acl.Check.{no_flags, rights_within, flags_within}
use murphy.Acl.Flags.{Rights, Flags, no_rights, flags_to_text, text_to_flags, outside}
use murphy.Acl.Flags.RoundTrip.{granted, text_to_flags-flags_to_text}
use murphy.Acl.Set.{entry_line, kept_line, rewritten, replaced, set_text}
use murphy.Acl.Set.Written.{IsEntry, list_text, shown_entries, entries-list_text}

nothing_text :
    (r w l d p a x v : Bool) (q : Rights)
    → rights_within
        (record {
          read = r;
          write = w;
          list = l;
          delete = d;
          put = p;
          admin = a;
          execute = x;
          reserve = v;
        })
        no_rights
      ≡ true
    → flags_to_text (record {
      own = record {
        read = r;
        write = w;
        list = l;
        delete = d;
        put = p;
        admin = a;
        execute = x;
        reserve = v;
      };
      reserved = q;
    })
      ≡ codes "n"
unfolding rights_within flags_to_text
nothing_text false false false false false false false false q h = refl
nothing_text false false false false false false false true q h = absurd (cc)
nothing_text false false false false false false true v q h = absurd (cc)
nothing_text false false false false false true x v q h = absurd (cc)
nothing_text false false false false true a x v q h = absurd (cc)
nothing_text false false false true p a x v q h = absurd (cc)
nothing_text false false true d p a x v q h = absurd (cc)
nothing_text false true l d p a x v q h = absurd (cc)
nothing_text true w l d p a x v q h = absurd (cc)

-- Flags that show are not none.
shown_flags : (f : Flags) → flags_to_text f ≢ codes "n" → flags_within f no_flags ≡ false
shown_flags f h = elim (Bool-cases (rights_within f.own no_rights)) [
  | inl t ↦
      let o = f.own in
      absurd (
        h (
          nothing_text o.read o.write o.list o.delete o.put o.admin o.execute o.reserve f.reserved
            t))
  | inr t ↦ rw t refl
]

pub kept_line-entry : (s : Bytes) (f : Flags) → IsEntry (s, f) → kept_line s f ≡ entry_line s f
kept_line-entry s f (h, (k, g)) = rw (shown_flags f k) refl

pub read_flags :
    (f : Flags) → granted f ≡ f → text_to_flags outside no_flags (flags_to_text f) ≡ some f
read_flags f g = text_to_flags-flags_to_text f ∙ ap some g

-- The list with the flags of a subject changed.
unfoldable pub swapped : Bytes → Flags → List (Bytes × Flags) → List (Bytes × Flags)
swapped subject flags [] = []
swapped subject flags ((s, f) ∷ l) =
    (s, if str_eq subject s then flags else f) ∷ swapped subject flags l

pub swapped-IsEntry' :
    (subject s : Bytes) (flags f : Flags)
    → IsEntry (subject, flags)
    → IsEntry (s, f)
    → IsEntry (s, if str_eq subject s then flags else f)
swapped-IsEntry' subject s flags f (h, k) (h', k') = elim (Bool-cases (str_eq subject s)) [
  | inl t ↦ rw t (h', k)
  | inr t ↦ rw t (h', k')
]

pub swapped-IsEntry :
    (subject : Bytes) (flags : Flags) (l : List (Bytes × Flags))
    → IsEntry (subject, flags)
    → All IsEntry l
    → All IsEntry (swapped subject flags l)
unfolding swapped
swapped-IsEntry subject flags [] p h = tt
swapped-IsEntry subject flags ((s, f) ∷ l) p (q, h) =
    (swapped-IsEntry' subject s flags f p q, swapped-IsEntry subject flags l p h)

rewritten_lem :
    (subject : Bytes) (flags : Flags) (l : List (Bytes × Flags))
    → IsEntry (subject, flags)
    → All IsEntry l
    → rewritten subject flags (shown_entries l) ≡ some (list_text (swapped subject flags l))
unfolding rewritten swapped
rewritten_lem subject flags [] p h = refl
rewritten_lem subject flags ((s, f) ∷ l) p (q, h) =
    rw
      (
        read_flags f q.1.1,
        rewritten_lem subject flags l p h,
        kept_line-entry s (if str_eq subject s then flags else f)
            (swapped-IsEntry' subject s flags f p q),
      )
      refl

list_text-append : (l m : List (Bytes × Flags)) → list_text (l ++ m) ≡ list_text l ++ list_text m
list_text-append [] m = refl
list_text-append ((s, f) ∷ l) m =
    ap (λ z. entry_line s f ++ z) (list_text-append l m)
    ∙ sym (append_assoc (entry_line s f) (list_text l) (list_text m))

-- The list behind `chirp_acl_set`: the flags are changed, or the subject is added at the end.
abbrev pub added : Bool → Bytes → Flags → List (Bytes × Flags)
added b subject flags = if b then [] else (subject, flags) ∷ []

abbrev pub updated : Bytes → Flags → List (Bytes × Flags) → List (Bytes × Flags)
updated subject flags l =
    swapped subject flags l ++ added (replaced subject (shown_entries l)) subject flags

added_text :
    (b : Bool) (subject : Bytes) (flags : Flags)
    → (if b then [] else entry_line subject flags) ≡ list_text (added b subject flags)
added_text false subject flags = sym (append-nil _)
added_text true subject flags = refl

pub set_text-list_text :
    (subject : Bytes) (flags : Flags) (l : List (Bytes × Flags))
    → IsEntry (subject, flags)
    → All IsEntry l
    → set_text subject flags (list_text l) ≡ some (list_text (updated subject flags l))
unfolding set_text
set_text-list_text subject flags l p h =
    rw
      (
        entries-list_text l h,
        rewritten_lem subject flags l p h,
        added_text (replaced subject (shown_entries l)) subject flags,
      )
      (ap some (sym (list_text-append (swapped subject flags l) _)))

added-IsEntry :
    (b : Bool) (subject : Bytes) (flags : Flags)
    → IsEntry (subject, flags)
    → All IsEntry (added b subject flags)
added-IsEntry false subject flags p = (p, tt)
added-IsEntry true subject flags p = tt

pub updated-IsEntry :
    (subject : Bytes) (flags : Flags) (l : List (Bytes × Flags))
    → IsEntry (subject, flags)
    → All IsEntry l
    → All IsEntry (updated subject flags l)
updated-IsEntry subject flags l p h =
    All-append _ (swapped subject flags l) _ (swapped-IsEntry subject flags l p h)
      (added-IsEntry _ subject flags p)
