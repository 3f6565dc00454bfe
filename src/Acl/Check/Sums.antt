-- ===== src/Acl/Check/Sums.antt =====
-- What the list of a directory gives a subject, in chirp/src/chirp_acl.c.
use murphy.Base.{
  ℕ, suc, ◌≡◌, refl, sym, ap, ◌∙◌, ◌↔◌, Bool, true, false, ◌&&◌, ◌||◌, Option, none, some, List, [],
  ◌∷◌, Bytes, ◌⊎◌, inl, inr, if_true, if_false, Bool-cases, length, if◌then◌else◌, arith,
}
use murphy.Acl.Check.{
  Store, Settings, no_flags, or_flags, flags_within, total, applies, read_list, restricted,
  acl_open, listed, acl_get, check_dir, is_super, listed_text, answer, list_admin,
}
use murphy.Acl.Entries.{entries}
use murphy.Acl.Check.Bits.{
  Bit, own_bit, reserved_bit, reads, writes, lists, deletes, puts, admins, executes, reserves,
  granted, has, has-on_flags, flags_within_lem, or_cases, and_left, and_right, and_both,
}
use murphy.Acl.Flags.{Flags, no_rights, text_to_flags, outside}
use murphy.Controller.Log.{◌>>=◌}

-- An entry that is for the subject and grants a bit.
abbrev pub Grants : Store → Bytes → Bit → Bytes × Bytes → Type 0
Grants store subject b (aclsubject, acl) =
    (f : Flags) × (applies store subject aclsubject ≡ some true)
    × (text_to_flags outside no_flags acl ≡ some f)
    × (has b f ≡ true)

abbrev pub Given : Store → Bytes → Bit → List (Bytes × Bytes) → Type 0
Given store subject b [] = ⊥
Given store subject b (e ∷ es) = Grants store subject b e ⊎ Given store subject b es

pub bind_some :
    {A B : Type 0} (x : Option A) (f : A → Option B) (b : B)
    → (x >>= f) ≡ some b
    → (a : A) × (x ≡ some a) × (f a ≡ some b)
bind_some none f b h = absurd (grind arith)
bind_some (some a) f b h = (a, refl, h)

total-step :
    (store : Store) (subject aclsubject acl : Bytes) (es : List (Bytes × Bytes)) (flags out : Flags)
    → total store subject ((aclsubject, acl) ∷ es) flags ≡ some out
    → (f : Flags) × (b : Bool) × (text_to_flags outside no_flags acl ≡ some f)
      × (applies store subject aclsubject ≡ some b)
      × (total store subject es (if b then or_flags flags f else flags) ≡ some out)
unfolding total
total-step store subject aclsubject acl es flags out h =
    let (f, e, k) = bind_some _ _ out h in
    let (b, e', k') = bind_some _ _ out k in (f, b, e, e', k')

-- The bit of flags that are found.
abbrev pub bit_of : Bit → Option Flags → Bool
bit_of i none = false
bit_of i (some f) = has i f

or_either : (a b : Bool) → (a ≡ true) ⊎ (b ≡ true) → (a || b) ≡ true
or_either true b h = refl
or_either false b (inl h) = absurd (grind arith)
or_either false b (inr h) = h

-- One entry, with the flags that it leaves to the rest of the list.
entry_lem :
    (store : Store) (subject : Bytes) (i : Bit) (s t : Bytes) (es : List (Bytes × Bytes))
    (flags f out : Flags) (b : Bool)
    → text_to_flags outside no_flags t ≡ some f
    → applies store subject s ≡ some b
    → (has i out ≡ true)
      ↔ ((has i (if b then or_flags flags f else flags) ≡ true) ⊎ Given store subject i es)
    → (has i out ≡ true) ↔ ((has i flags ≡ true) ⊎ Given store subject i ((s, t) ∷ es))
entry_lem store subject i s t es flags f out true e e' (to, from) =
    let o = has-on_flags (λ x y. x || y) i flags f in
    (
      λ p. elim (to p) [
        | inl q ↦ elim (or_cases (has i flags) (has i f) (sym o ∙ q)) [
          | inl r ↦ inl r
          | inr r ↦ inr (inl (f, e', e, r))
        ]
        | inr g ↦ inr (inr g)
      ],
      λ x. elim x [
        | inl p ↦ from (inl (o ∙ or_either (has i flags) (has i f) (inl p)))
        | inr y ↦ elim y [
          | inl w ↦ from (
              inl (o ∙ or_either (has i flags) (has i f) (inr (ap (bit_of i) (sym e ∙ w.2) ∙ w.3))))
          | inr g ↦ from (inr g)
        ]
      ],
    )
entry_lem store subject i s t es flags f out false e e' (to, from) = (
  λ p. elim (to p) [ inl q ↦ inl q | inr g ↦ inr (inr g) ],
  λ x. elim x [
    | inl p ↦ from (inl p)
    | inr y ↦ elim y [
      | inl w ↦ absurd (let c : some false ≡ some true = sym e' ∙ w.1 in grind arith)
      | inr g ↦ from (inr g)
    ]
  ],
)

-- The bits that a list adds to flags: those of the entries for the subject.
total_lem :
    (store : Store) (subject : Bytes) (i : Bit) (es : List (Bytes × Bytes)) (flags out : Flags)
    → total store subject es flags ≡ some out
    → (has i out ≡ true) ↔ ((has i flags ≡ true) ⊎ Given store subject i es)
unfolding total
total_lem store subject i [] flags out h =
    let e : has i flags ≡ has i out = ap (bit_of i) h in
    (λ p. inl (e ∙ p), λ x. elim x [ inl p ↦ sym e ∙ p | inr n ↦ absurd n ])
total_lem store subject i ((s, t) ∷ es) flags out h =
    let (f, b, e, e', k) = total-step store subject s t es flags out h in
    entry_lem store subject i s t es flags f out b e e'
      (total_lem store subject i es (if b then or_flags flags f else flags) out k)

no_bit : (i : Bit) → has i no_flags ≡ false
no_bit (own_bit r) = elim r as (λ r. granted r no_rights ≡ false) [
  | reads ↦ refl
  | writes ↦ refl
  | lists ↦ refl
  | deletes ↦ refl
  | puts ↦ refl
  | admins ↦ refl
  | executes ↦ refl
  | reserves ↦ refl
]
no_bit (reserved_bit r) = elim r as (λ r. granted r no_rights ≡ false) [
  | reads ↦ refl
  | writes ↦ refl
  | lists ↦ refl
  | deletes ↦ refl
  | puts ↦ refl
  | admins ↦ refl
  | executes ↦ refl
  | reserves ↦ refl
]

-- What the mode of the server leaves of a bit.
abbrev pub Allowed : Settings → Bit → Type 0
Allowed settings i = settings.read_only_mode ≡ true → has i read_list ≡ true

pub restricted_lem :
    (settings : Settings) (i : Bit) (f : Flags)
    → (has i (restricted settings f) ≡ true) ↔ ((has i f ≡ true) × Allowed settings i)
restricted_lem settings i f = elim (Bool-cases settings.read_only_mode) [
  | inl t ↦
      let o = has-on_flags (λ x y. x && y) i f read_list in
      rw t (
        λ p. (and_left _ _ (sym o ∙ p), λ u. and_right _ _ (sym o ∙ p)),
        λ x. o ∙ and_both _ _ x.0 (x.1 refl),
      )
  | inr t ↦ rw t (λ p. (p, λ u. absurd (grind arith)), λ x. x.0)
]

abbrev pub or_none : Option (Option Flags) → Option Flags
or_none none = none
or_none (some x) = x

pub check_dir-acl_get :
    (n : ℕ) (store : Store) (settings : Settings) (dir subject : Bytes) (flags : Flags) (ok : Bool)
    → store.do_acl_check ≡ true
    → check_dir n store settings dir subject flags ≡ some ok
    → (r : Option Flags) × (acl_get n store settings dir subject ≡ some r)
      × (some (answer settings subject flags r) ≡ some ok)
unfolding check_dir
check_dir-acl_get n store settings dir subject flags ok c h =
    bind_some _ _ ok (sym (if_true store.do_acl_check _ _ c) ∙ h)

pub acl_get-listed :
    (n : ℕ) (store : Store) (settings : Settings) (dir subject : Bytes)
    → store.is_ticket_subject subject ≡ false
    → acl_get (suc n) store settings dir subject ≡ listed store settings dir subject
unfolding acl_get
acl_get-listed n store settings dir subject p = if_false (store.is_ticket_subject subject) _ _ p

answer_lem :
    (settings : Settings) (subject : Bytes) (flags mine : Flags) (ok : Bool)
    → is_super settings subject ≡ false
    → some (answer settings subject flags (some mine)) ≡ some ok
    → flags_within flags mine ≡ ok
unfolding answer
answer_lem settings subject flags mine ok u h =
    ap (flags_within flags)
      (sym (if_false (is_super settings subject) (or_flags mine list_admin) mine u))
    ∙ ap (λ (o : Option Bool). elim o [ none ↦ ok | some b ↦ b ]) h

-- What `do_chirp_acl_get` finds in a list.
listed_lem :
    (store : Store) (settings : Settings) (dir subject text : Bytes) (r : Option Flags)
    → acl_open store settings dir ≡ some text
    → listed store settings dir subject ≡ some r
    → (mine : Flags) × (r ≡ some mine)
      × ((i : Bit)
          → (has i mine ≡ true)
            ↔ (Given store subject i (entries (length text) text) × Allowed settings i))
unfolding listed
listed_lem store settings dir subject text r e h =
    let k = sym (ap (listed_text store settings subject) e) ∙ h in
    let (f, t, u) = bind_some _ _ r k in
    (
      restricted settings f,
      ap (λ o. or_none o) (sym u),
      λ i.
          let sum = total_lem store subject i (entries (length text) text) no_flags f t in
          let mode = restricted_lem settings i f in
          (
            λ p.
                let q = mode.0 p in
                (
                  elim (sum.0 q.0) [
                    | inl z ↦ absurd (let c : false ≡ true = sym (no_bit i) ∙ z in grind arith)
                    | inr g ↦ g
                  ],
                  q.1,
                ),
            λ x. mode.1 (sum.1 (inr x.0), x.1),
          ),
    )

-- `chirp_acl_check_dir` grants what is asked for exactly when every bit of it is given by an entry of the
-- directory's list for the subject, and is a right to read or list where the server is read-only. This is
-- for a subject that is neither a ticket nor the super user, for a directory with a list, on a server that
-- checks, and for a call that reads inside its strings.
pub check_dir_lem :
    (n : ℕ) (store : Store) (settings : Settings) (dir subject text : Bytes) (flags : Flags)
    (ok : Bool)
    → store.do_acl_check ≡ true
    → store.is_ticket_subject subject ≡ false
    → is_super settings subject ≡ false
    → acl_open store settings dir ≡ some text
    → check_dir (suc n) store settings dir subject flags ≡ some ok
    → (ok ≡ true) ↔ (
        (i : Bit)
        → has i flags ≡ true
        → Given store subject i (entries (length text) text) × Allowed settings i)
check_dir_lem n store settings dir subject text flags ok c p u e h =
    let (r, l, w) = check_dir-acl_get (suc n) store settings dir subject flags ok c h in
    let (mine, q, bits) =
      listed_lem store settings dir subject text r e
        (sym (acl_get-listed n store settings dir subject p) ∙ l) in
    let within =
      answer_lem settings subject flags mine ok u
        (ap (λ o. some (answer settings subject flags o)) (sym q) ∙ w) in
    let spec = flags_within_lem flags mine in
    (
      λ t i a. (bits i).0 (spec.0 (within ∙ t) i a),
      λ f. sym within ∙ spec.1 (λ i a. (bits i).1 (f i a)),
    )
