-- ===== src/Acl/Reserve/Laws.antt =====
-- The list that `chirp_acl_init_reserve` of chirp/src/chirp_acl.c writes, read again.
use murphy.Base.{
  ℕ, ◌≡◌, ◌≢◌, ◌⊎◌, refl, sym, ap, ◌∙◌, Bool, true, false, some, [], ◌∷◌, Bytes, codes, length,
  get_or, append-nil, Bool-cases, inl, inr, if_true, if_false, arith,
}
use mathlib.Core.Path.{subst}
use murphy.Acl.Check.{Store, Settings, acl_get, no_flags, flags_within, rights_within}
use murphy.Acl.Entries.{entries}
use murphy.Acl.Flags.{no_rights, Rights, Flags, flags_to_text, text_to_flags, outside}
use murphy.Acl.Reserve.{own_flags, ordinary, new_flags, wrote, answer_reserve, init_reserve}
use murphy.Acl.Flags.RoundTrip.{granted}
use murphy.Acl.Set.Laws.{read_flags}
use murphy.Acl.Set.Written.{IsSubject, IsEntry, list_text, entries-list_text}
use murphy.Text.Path.{dirname}

head_lem : (c : ℕ) (t : Bytes) → c ∷ t ≡ codes "n" → c ≡ b'n'
head_lem c t h = ap (λ s. get_or s 0 0) h

text_lem :
    (r w l d p a x v : Bool)
    → flags_to_text (
        own_flags (record {
          read = r;
          write = w;
          list = l;
          delete = d;
          put = p;
          admin = a;
          execute = x;
          reserve = v;
        }))
      ≡ codes "n"
    → flags_within
        (own_flags (record {
          read = r;
          write = w;
          list = l;
          delete = d;
          put = p;
          admin = a;
          execute = x;
          reserve = v;
        }))
        no_flags
      ≡ true
unfolding rights_within flags_to_text
text_lem false false false false false false false false h = refl
text_lem false false false false false false false true h = absurd (omega (arith, head_lem _ _ h))
text_lem false false false false false false true v h = absurd (omega (arith, head_lem _ _ h))
text_lem false false false false false true x v h = absurd (omega (arith, head_lem _ _ h))
text_lem false false false false true a x v h = absurd (omega (arith, head_lem _ _ h))
text_lem false false false true p a x v h = absurd (omega (arith, head_lem _ _ h))
text_lem false false true d p a x v h = absurd (omega (arith, head_lem _ _ h))
text_lem false true l d p a x v h = absurd (omega (arith, head_lem _ _ h))
text_lem true w l d p a x v h = absurd (omega (arith, head_lem _ _ h))

-- Rights without reserved ones show, unless there are none.
shown_lem :
    (o : Rights)
    → flags_within (own_flags o) no_flags ≡ false
    → flags_to_text (own_flags o) ≢ codes "n"
shown_lem o h e =
    let t = text_lem o.read o.write o.list o.delete o.put o.admin o.execute o.reserve e in
    let f : true ≡ false = sym t ∙ h in absurd (cc)

shown_ordinary : flags_within (own_flags ordinary) no_flags ≡ false
unfolding rights_within
shown_ordinary = refl

granted_own : (o : Rights) → granted (own_flags o) ≡ own_flags o
granted_own o = elim (Bool-cases o.reserve) [ inl t ↦ rw t refl | inr t ↦ rw t refl ]

own-IsEntry :
    (subject : Bytes) (o : Rights)
    → IsSubject subject
    → flags_within (own_flags o) no_flags ≡ false
    → IsEntry (subject, own_flags o)
own-IsEntry subject o h k = (h, (shown_lem o k, granted_own o))

new_flags_none :
    (flags : Flags)
    → flags_within (own_flags flags.reserved) no_flags ≡ true
    → new_flags flags ≡ own_flags ordinary
unfolding new_flags
new_flags_none flags h = if_true _ _ _ h

new_flags_some :
    (flags : Flags)
    → flags_within (own_flags flags.reserved) no_flags ≡ false
    → new_flags flags ≡ own_flags flags.reserved
unfolding new_flags
new_flags_some flags h = if_false _ _ _ h

new_flags-IsEntry :
    (subject : Bytes) (flags : Flags) → IsSubject subject → IsEntry (subject, new_flags flags)
new_flags-IsEntry subject flags h =
    elim (Bool-cases (flags_within (own_flags flags.reserved) no_flags)) [
      | inl t ↦
          subst (λ f. IsEntry (subject, f)) (sym (new_flags_none flags t))
            (own-IsEntry subject ordinary h shown_ordinary)
      | inr t ↦
          subst (λ f. IsEntry (subject, f)) (sym (new_flags_some flags t))
            (own-IsEntry subject flags.reserved h t)
    ]

none_lem :
    (r w l d p a x v : Bool)
    → flags_within
        (own_flags (record {
          read = r;
          write = w;
          list = l;
          delete = d;
          put = p;
          admin = a;
          execute = x;
          reserve = v;
        }))
        no_flags
      ≡ true
    → record {
      read = r;
      write = w;
      list = l;
      delete = d;
      put = p;
      admin = a;
      execute = x;
      reserve = v;
    }
      ≡ no_rights
unfolding rights_within
none_lem false false false false false false false false h = refl
none_lem false false false false false false false true h = absurd (cc)
none_lem false false false false false false true v h = absurd (cc)
none_lem false false false false false true x v h = absurd (cc)
none_lem false false false false true a x v h = absurd (cc)
none_lem false false false true p a x v h = absurd (cc)
none_lem false false true d p a x v h = absurd (cc)
none_lem false true l d p a x v h = absurd (cc)
none_lem true w l d p a x v h = absurd (cc)

some_lem : (o : Rights) → flags_within (own_flags o) no_flags ≡ false → o ≢ no_rights
unfolding rights_within
some_lem o h e =
    let f : false ≡ true = sym h ∙ ap (λ r. flags_within (own_flags r) no_flags) e in absurd (cc)

-- The rights of a new directory by those that are reserved: all ordinary ones where none is.
abbrev pub Given : Rights → Bytes → Type 0
Given reserved acl =
    ((reserved ≡ no_rights)
      × (text_to_flags outside no_flags acl
          ≡ some (record {
            own = record no_rights {
              read = true;
              write = true;
              list = true;
              delete = true;
              admin = true;
            };
            reserved = no_rights;
          })))
    ⊎ ((reserved ≢ no_rights)
        × (text_to_flags outside no_flags acl
            ≡ some (record { own = reserved; reserved = no_rights })))

new_flags-Given :
    (flags : Flags) (acl : Bytes)
    → text_to_flags outside no_flags acl ≡ some (new_flags flags)
    → Given flags.reserved acl
new_flags-Given flags acl h =
    let o = flags.reserved in
    elim (Bool-cases (flags_within (own_flags o) no_flags)) [
      | inl t ↦ inl (
        none_lem o.read o.write o.list o.delete o.put o.admin o.execute o.reserve t,
        h ∙ ap some (new_flags_none flags t),
      )
      | inr t ↦ inr (some_lem o t, h ∙ ap some (new_flags_some flags t))
    ]

-- Where rights are checked, the caller's rights in the parent directory are found, its name can stand in a
-- list and the file opens, `chirp_acl_init_reserve` writes a list that is read back as one entry, for the
-- caller, with exactly the rights that the caller's `v(…)` reserves, or, where it reserves none, with those
-- to read, write, list, delete and administer.
pub init_reserve_lem :
    (n : ℕ) (store : Store) (settings : Settings) (path subject : Bytes) (flags : Flags)
    → store.do_acl_check ≡ true
    → acl_get n store settings (dirname path) subject ≡ some (some flags)
    → IsSubject subject
    → (new : Bytes) × (init_reserve n store settings true path subject ≡ some (wrote new))
      × (acl : Bytes) × (entries (length new) new ≡ (subject, acl) ∷ [])
      × Given flags.reserved acl
unfolding init_reserve answer_reserve
init_reserve_lem n store settings path subject flags h e k =
    let f = new_flags flags in
    let p = new_flags-IsEntry subject flags k in
    (
      list_text ((subject, f) ∷ []),
      rw (e, h) (ap (λ z. some (wrote z)) (sym (append-nil _))),
      flags_to_text f,
      entries-list_text ((subject, f) ∷ []) (p, tt),
      new_flags-Given flags (flags_to_text f) (read_flags f p.1.1),
    )
