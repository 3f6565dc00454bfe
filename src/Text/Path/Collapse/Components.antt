-- ===== src/Text/Path/Collapse/Components.antt =====
-- The loop of `string_collapse_path` takes a path component by component.
use murphy.Base.{
  ℕ, ◌≡◌, refl, Bool, true, false, ◌&&◌, ◌||◌, List, [], ◌∷◌, ◌++◌, reverse, Bytes, codes, str_eq,
  arith, All, ◌==◌, if◌then◌else◌, sym, ap, ◌∙◌, append_assoc, Bool-cases, inl, inr,
}
use mathlib.Core.List.{reverse-cons}
use murphy.Text.Path.{slash, dot, ends, second_dot, at_slash, pass, up, keep, pop, round, collapse}

abbrev pub NoSlash : Bytes → Type 0
NoSlash = All (λ c. (c == slash) ≡ false)

-- Components, each behind a slash.
abbrev pub join : List Bytes → Bytes
join [] = []
join (c ∷ cs) = slash ∷ (c ++ join cs)

pub ends-join : (cs : List Bytes) → ends (join cs) ≡ true
unfolding ends
ends-join [] = refl
ends-join (c ∷ cs) = refl

-- What a component does to what is written, last byte first.
unfoldable pub enter : Bool → Bytes → Bytes → Bytes
enter dotdot out c =
    if str_eq c [] || str_eq c (codes ".")
    then out
    else if dotdot && str_eq c (codes "..")
    then pop out
    else reverse c ++ slash ∷ out

-- One round of the loop.
module _ (d : Bool) (l out : Bytes) where
  collapse-copy :
      (c : ℕ) → (c == slash) ≡ false → collapse d 0 (c ∷ l) out ≡ collapse d 0 l (c ∷ out)
  unfolding collapse
  collapse-copy c h = ap (λ (r : ℕ × Bytes). collapse d r.0 l r.1) (round_copy c)
    where
      round_copy : (c' : ℕ) → round d c l out ≡ (0, c ∷ out)
      round_copy c' = unfold round in rw h

  collapse-pass :
      (n : ℕ) → at_slash d l ≡ pass n → collapse d 0 (slash ∷ l) out ≡ collapse d n l out
  unfolding collapse round
  collapse-pass n k = rw (k, collapse, round)

  collapse-up : at_slash d l ≡ up → collapse d 0 (slash ∷ l) out ≡ collapse d 2 l (pop out)
  unfolding collapse round
  collapse-up k = rw (k, collapse, round)

  collapse-keep : at_slash d l ≡ keep → collapse d 0 (slash ∷ l) out ≡ collapse d 0 l (slash ∷ out)
  unfolding collapse round
  collapse-keep k = rw (k, collapse, round)

-- Bytes other than a slash are copied.
pub collapse-append :
    (d : Bool) (w rest out : Bytes)
    → NoSlash w
    → collapse d 0 (w ++ rest) out ≡ collapse d 0 rest (reverse w ++ out)
collapse-append d [] rest out h = refl
collapse-append d (c ∷ w) rest out (hc, hw) =
    collapse-copy d (w ++ rest) out c hc
    ∙ collapse-append d w rest (c ∷ out) hw
    ∙ ap (collapse d 0 rest)
        (sym (ap (λ l. l ++ out) (reverse-cons c w) ∙ append_assoc (reverse w) (c ∷ []) out))

-- The four branches at a slash, by the length of the component behind it.
module _ (d : Bool) (rest : Bytes) (e : ends rest ≡ true) where
  at_none : at_slash d rest ≡ pass 0
  unfolding at_slash ends
  at_none = go rest e
    where
      go : (r : Bytes) → ends r ≡ true → at_slash d r ≡ pass 0
      go [] p = refl
      go (x ∷ r) p = rw p

  at_one :
      (a : ℕ) → (a == slash) ≡ false → at_slash d (a ∷ rest) ≡ (if a == dot then pass 1 else keep)
  unfolding at_slash
  at_one a h = rw (h, e) (ground arith)

  at_two :
      (a b : ℕ)
      → (a == slash) ≡ false
      → (b == slash) ≡ false
      → at_slash d (a ∷ b ∷ rest) ≡ (if d && (a == dot && b == dot) then up else keep)
  unfolding at_slash second_dot ends
  at_two a b h k = ground (arith, e)

at_three :
    (d : Bool) (a b x : ℕ) (rest : Bytes)
    → (a == slash) ≡ false
    → (b == slash) ≡ false
    → (x == slash) ≡ false
    → at_slash d (a ∷ b ∷ x ∷ rest) ≡ keep
unfolding at_slash second_dot ends
at_three d a b x rest h k j = ground arith

kept :
    (d : Bool) (c rest out : Bytes)
    → NoSlash c
    → at_slash d (c ++ rest) ≡ keep
    → collapse d 0 (slash ∷ (c ++ rest)) out ≡ collapse d 0 rest (reverse c ++ slash ∷ out)
kept d c rest out h k = collapse-keep d (c ++ rest) out k ∙ collapse-append d c rest (slash ∷ out) h

-- What a component of each length does to what is written.
module _ (d : Bool) (out : Bytes) where
  enter-dot : (a : ℕ) → (a == dot) ≡ true → out ≡ enter d out (a ∷ [])
  unfolding enter
  enter-dot a t = ground arith

  enter_one : (a : ℕ) → (a == dot) ≡ false → a ∷ slash ∷ out ≡ enter d out (a ∷ [])
  unfolding enter
  enter_one a t = ground arith

  enter_up : (a b : ℕ) → (d && (a == dot && b == dot)) ≡ true → pop out ≡ enter d out (a ∷ b ∷ [])
  unfolding enter
  enter_up a b t = ground arith

  enter_two :
      (a b : ℕ)
      → (d && (a == dot && b == dot)) ≡ false
      → b ∷ a ∷ slash ∷ out ≡ enter d out (a ∷ b ∷ [])
  unfolding enter
  enter_two a b t = ground arith

  enter_three :
      (a b x : ℕ) (c : Bytes) → reverse (a ∷ b ∷ x ∷ c) ++ slash ∷ out ≡ enter d out (a ∷ b ∷ x ∷ c)
  unfolding enter
  enter_three a b x c = ground arith

-- The loop at a slash, over one component and up to the next slash or the end.
pub collapse-component :
    (d : Bool) (c rest out : Bytes)
    → NoSlash c
    → ends rest ≡ true
    → collapse d 0 (slash ∷ (c ++ rest)) out ≡ collapse d 0 rest (enter d out c)
unfolding enter collapse
collapse-component d [] rest out h e = collapse-pass d rest out 0 (at_none d rest e)
collapse-component d (a ∷ []) rest out h e = elim (Bool-cases (a == dot)) [
  | inl t ↦
      collapse-pass d (a ∷ rest) out 1 (at_one d rest e a h.0 ∙ rw t)
      ∙ ap (collapse d 0 rest) (enter-dot d out a t)
  | inr t ↦
      kept d (a ∷ []) rest out h (at_one d rest e a h.0 ∙ rw t)
      ∙ ap (collapse d 0 rest) (enter_one d out a t)
]
collapse-component d (a ∷ b ∷ []) rest out h e = elim (Bool-cases (d && (a == dot && b == dot))) [
  | inl t ↦
      collapse-up d (a ∷ b ∷ rest) out (at_two d rest e a b h.0 h.1.0 ∙ rw t)
      ∙ ap (collapse d 0 rest) (enter_up d out a b t)
  | inr t ↦
      kept d (a ∷ b ∷ []) rest out h (at_two d rest e a b h.0 h.1.0 ∙ rw t)
      ∙ ap (collapse d 0 rest) (enter_two d out a b t)
]
collapse-component d (a ∷ b ∷ x ∷ c) rest out h e =
    kept d (a ∷ b ∷ x ∷ c) rest out h (at_three d a b x (c ++ rest) h.0 h.1.0 h.1.1.0)
    ∙ ap (collapse d 0 rest) (enter_three d out a b x c)
