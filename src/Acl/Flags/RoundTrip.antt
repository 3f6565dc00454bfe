-- ===== src/Acl/Flags/RoundTrip.antt =====
-- The text of rights read again.
use murphy.Base.{
  ℕ, ◌≡◌, refl, ap, ◌∙◌, Bool, true, false, some, [], ◌∷◌, ◌++◌, Bytes, ◌==◌, if◌then◌else◌,
}
use murphy.Acl.Flags.{
  Rights, Flags, no_rights, letter, reserved_to_text, or_n, flags_to_text, mark, outside, inside,
  text_to_flags,
}

abbrev marked : Bool → ℕ → Rights → Rights
marked b c r = if b then mark c r else r

outside-cons :
    (c : ℕ) (f : Flags) (t : Bytes)
    → (c == b'v') ≡ false
    → text_to_flags outside f (c ∷ t) ≡ text_to_flags outside (record f { own = mark c f.own }) t
unfolding text_to_flags
outside-cons c f [] h = refl
outside-cons c f (p ∷ t) h = rw h refl

outside-letter :
    (b : Bool) (c : ℕ) (r q : Rights) (t : Bytes)
    → (c == b'v') ≡ false
    → text_to_flags outside (record { own = r; reserved = q }) (letter b c ++ t)
      ≡ text_to_flags outside (record { own = marked b c r; reserved = q }) t
outside-letter false c r q t h = refl
outside-letter true c r q t h = outside-cons c (record { own = r; reserved = q }) t h

inside-letter :
    (b : Bool) (c : ℕ) (r q : Rights) (t : Bytes)
    → (c == b')') ≡ false
    → text_to_flags inside (record { own = r; reserved = q }) (letter b c ++ t)
      ≡ text_to_flags inside (record { own = r; reserved = marked b c q }) t
unfolding text_to_flags
inside-letter false c r q t h = refl
inside-letter true c r q t h = rw h refl

abbrev rights : Bool → Bool → Bool → Bool → Bool → Bool → Bool → Bool → Rights
rights r w l d p a x v = record {
  read = r;
  write = w;
  list = l;
  delete = d;
  put = p;
  admin = a;
  execute = x;
  reserve = v;
}

mark_r :
    (b w l d p a x v : Bool) → marked b b'r' (rights false w l d p a x v) ≡ rights b w l d p a x v
mark_r false w l d p a x v = refl
mark_r true w l d p a x v = refl

mark_w :
    (r b l d p a x v : Bool) → marked b b'w' (rights r false l d p a x v) ≡ rights r b l d p a x v
mark_w r false l d p a x v = refl
mark_w r true l d p a x v = refl

mark_l :
    (r w b d p a x v : Bool) → marked b b'l' (rights r w false d p a x v) ≡ rights r w b d p a x v
mark_l r w false d p a x v = refl
mark_l r w true d p a x v = refl

mark_d :
    (r w l b p a x v : Bool) → marked b b'd' (rights r w l false p a x v) ≡ rights r w l b p a x v
mark_d r w l false p a x v = refl
mark_d r w l true p a x v = refl

mark_p :
    (r w l d b a x v : Bool) → marked b b'p' (rights r w l d false a x v) ≡ rights r w l d b a x v
mark_p r w l d false a x v = refl
mark_p r w l d true a x v = refl

mark_a :
    (r w l d p b x v : Bool) → marked b b'a' (rights r w l d p false x v) ≡ rights r w l d p b x v
mark_a r w l d p false x v = refl
mark_a r w l d p true x v = refl

mark_x :
    (r w l d p a b v : Bool) → marked b b'x' (rights r w l d p a false v) ≡ rights r w l d p a b v
mark_x r w l d p a false v = refl
mark_x r w l d p a true v = refl

mark_v :
    (r w l d p a x b : Bool) → marked b b'v' (rights r w l d p a x false) ≡ rights r w l d p a x b
mark_v r w l d p a x false = refl
mark_v r w l d p a x true = refl

-- One letter, with the rights that it may add.
out :
    (b : Bool) (c : ℕ) (r r' q : Rights) (t : Bytes)
    → (c == b'v') ≡ false
    → marked b c r ≡ r'
    → text_to_flags outside (record { own = r; reserved = q }) (letter b c ++ t)
      ≡ text_to_flags outside (record { own = r'; reserved = q }) t
out b c r r' q t h e =
    outside-letter b c r q t h
    ∙ ap (λ z. text_to_flags outside (record { own = z; reserved = q }) t) e

ins :
    (b : Bool) (c : ℕ) (r q q' : Rights) (t : Bytes)
    → (c == b')') ≡ false
    → marked b c q ≡ q'
    → text_to_flags inside (record { own = r; reserved = q }) (letter b c ++ t)
      ≡ text_to_flags inside (record { own = r; reserved = q' }) t
ins b c r q q' t h e =
    inside-letter b c r q t h
    ∙ ap (λ z. text_to_flags inside (record { own = r; reserved = z }) t) e

closed :
    (o q : Rights)
    → text_to_flags inside (record { own = o; reserved = q }) (b')' ∷ [])
      ≡ some (record { own = o; reserved = q })
unfolding text_to_flags
closed o q = refl

-- What the parser makes of the text of the reserved rights.
inside_lem :
    (o q : Rights)
    → text_to_flags inside (record { own = o; reserved = no_rights }) (reserved_to_text q)
      ≡ some (record { own = o; reserved = q })
unfolding reserved_to_text
inside_lem o q =
    ins q.read b'r' o _ _ _ refl (mark_r q.read _ _ _ _ _ _ _)
    ∙ ins q.write b'w' o _ _ _ refl (mark_w q.read q.write _ _ _ _ _ _)
    ∙ ins q.list b'l' o _ _ _ refl (mark_l q.read q.write q.list _ _ _ _ _)
    ∙ ins q.delete b'd' o _ _ _ refl (mark_d q.read q.write q.list q.delete _ _ _ _)
    ∙ ins q.put b'p' o _ _ _ refl (mark_p q.read q.write q.list q.delete q.put _ _ _)
    ∙ ins q.reserve b'v' o _ _ _ refl (mark_v q.read q.write q.list q.delete q.put _ _ q.reserve)
    ∙ ins q.admin b'a' o _ _ _ refl
        (mark_a q.read q.write q.list q.delete q.put q.admin _ q.reserve)
    ∙ ins q.execute b'x' o _ _ _ refl
        (mark_x q.read q.write q.list q.delete q.put q.admin q.execute q.reserve)
    ∙ closed o q

-- The reserved rights count only where a reservation is granted.
abbrev pub granted : Flags → Flags
granted f = record { own = f.own; reserved = if f.own.reserve then f.reserved else no_rights }

reserve_lem :
    (r w l d p a x v : Bool) (q : Rights)
    → text_to_flags outside
        (record { own = rights r w l d p a x false; reserved = no_rights })
        (if v then b'v' ∷ b'(' ∷ reserved_to_text q else [])
      ≡ some (granted (record { own = rights r w l d p a x v; reserved = q }))
unfolding text_to_flags
reserve_lem r w l d p a x false q = refl
reserve_lem r w l d p a x true q = inside_lem (rights r w l d p a x true) q

or_n_lem :
    (s : Bytes)
    → text_to_flags outside (record { own = no_rights; reserved = no_rights }) (or_n s)
      ≡ text_to_flags outside (record { own = no_rights; reserved = no_rights }) s
unfolding text_to_flags
or_n_lem [] = refl
or_n_lem (c ∷ s) = refl

-- Rights written as text and read again are the same, but that reserved rights without the right to
-- reserve are lost.
pub text_to_flags-flags_to_text :
    (f : Flags)
    → text_to_flags outside (record { own = no_rights; reserved = no_rights }) (flags_to_text f)
      ≡ some (granted f)
unfolding flags_to_text
text_to_flags-flags_to_text f =
    let o = f.own in
    or_n_lem _
    ∙ out o.read b'r' _ _ no_rights _ refl (mark_r o.read _ _ _ _ _ _ _)
    ∙ out o.write b'w' _ _ no_rights _ refl (mark_w o.read o.write _ _ _ _ _ _)
    ∙ out o.list b'l' _ _ no_rights _ refl (mark_l o.read o.write o.list _ _ _ _ _)
    ∙ out o.delete b'd' _ _ no_rights _ refl (mark_d o.read o.write o.list o.delete _ _ _ _)
    ∙ out o.put b'p' _ _ no_rights _ refl (mark_p o.read o.write o.list o.delete o.put _ _ _)
    ∙ out o.admin b'a' _ _ no_rights _ refl
        (mark_a o.read o.write o.list o.delete o.put o.admin _ _)
    ∙ out o.execute b'x' _ _ no_rights _ refl
        (mark_x o.read o.write o.list o.delete o.put o.admin o.execute _)
    ∙ reserve_lem o.read o.write o.list o.delete o.put o.admin o.execute o.reserve f.reserved
