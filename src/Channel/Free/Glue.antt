-- ===== src/Channel/Free/Glue.antt =====
-- What the joins of `pfs_channel_free` do to the order, the bytes covered and the regions in use.
use mathlib.Core.List.{reverse-cons}
use mathlib.Core.Path.{subst, ap₂}
use murphy.Base.{
  ℕ, ◌+◌, ◌≡◌, refl, false, List, [], ◌∷◌, ◌++◌, arith, Bool-cases, sym, inl, inr, ◌∙◌, ap, reverse,
  append-nil,
}
use murphy.Channel.{Entry, absorb}
use murphy.Channel.Free.Merge.{
  glue, glue_next, glue_used, glue_free, glue_next_used, glue_next_free, Ordered-absorb,
}
use murphy.Channel.Regions.{
  Ordered, Ordered-append, Ordered-split, Ordered-weaken, used, total, used-append, total-append,
}

glue_next-Ordered :
    (e : Entry) (after : List Entry) (lo hi : ℕ)
    → Ordered lo (e ∷ after) hi
    → Ordered lo (glue_next e after) hi
glue_next-Ordered e [] lo hi h = h
glue_next-Ordered e (f ∷ fs) lo hi h = elim (Bool-cases f.inuse) [
  | inl u ↦ subst (λ l. Ordered lo l hi) (sym (glue_next_used e f fs u)) h
  | inr u ↦
      subst (λ l. Ordered lo l hi) (sym (glue_next_free e f fs u))
        (
          h.0,
          omega arith,
          Ordered-weaken (f.start + f.length) (e.start + (f.length + e.length)) fs hi hi
              (omega arith) (omega arith) h.2.2,
        )
]

join_next :
    (pre : List Entry) (e : Entry) (after : List Entry) (lo hi : ℕ)
    → Ordered lo (pre ++ e ∷ after) hi
    → Ordered lo (pre ++ glue_next e after) hi
join_next pre e after lo hi h =
    let (mid, p, q) = Ordered-split lo pre (e ∷ after) hi h in
    Ordered-append lo pre (glue_next e after) mid hi p (glue_next-Ordered e after mid hi q)

used-glue_next :
    (e : Entry) (after : List Entry) → e.inuse ≡ false → used (glue_next e after) ≡ used after
used-glue_next e [] u = ground arith
used-glue_next e (f ∷ fs) u = ground arith

total-glue_next :
    (e : Entry) (after : List Entry) → total (glue_next e after) ≡ e.length + total after
total-glue_next e [] = refl
total-glue_next e (f ∷ fs) = ground arith

-- What a freed entry leaves: the order, the bytes covered, and the other regions in use.
pub record Freed (before : List Entry) (e : Entry) (after ring : List Entry) (lo hi : ℕ)
    : Type 0 where
  pub ordered : Ordered lo ring hi
  pub total : total ring ≡ total (reverse before ++ e ∷ after)
  pub used : used ring ≡ used (reverse before) ++ used after

used-reverse_cons :
    (f : Entry) (fs : List Entry) → f.inuse ≡ false → used (reverse (f ∷ fs)) ≡ used (reverse fs)
used-reverse_cons f fs u =
    ap used (reverse-cons f fs)
    ∙ used-append (reverse fs) (f ∷ [])
    ∙ rw u (append-nil (used (reverse fs)))

pub total-reverse_cons :
    (f : Entry) (fs : List Entry) → total (reverse (f ∷ fs)) ≡ total (reverse fs) + f.length
total-reverse_cons f fs =
    ap total (reverse-cons f fs) ∙ total-append (reverse fs) (f ∷ []) ∙ omega arith

glue-Ordered :
    (before : List Entry) (e : Entry) (after : List Entry) (lo hi : ℕ)
    → Ordered lo (reverse before ++ e ∷ after) hi
    → Ordered lo (glue before e after) hi
glue-Ordered [] e after lo hi h = glue_next-Ordered e after lo hi h
glue-Ordered (f ∷ fs) e after lo hi h = elim (Bool-cases f.inuse) [
  | inl u ↦
      subst (λ l. Ordered lo l hi) (sym (glue_used f e fs after u))
        (join_next (reverse (f ∷ fs)) e after lo hi h)
  | inr u ↦
      subst (λ l. Ordered lo l hi) (sym (glue_free f e fs after u))
        (join_next (reverse fs) (absorb f e) after lo hi (Ordered-absorb f e fs after lo hi h))
]

total-glue :
    (before : List Entry) (e : Entry) (after : List Entry)
    → total (glue before e after) ≡ total (reverse before ++ e ∷ after)
total-glue [] e after = total-glue_next e after
total-glue (f ∷ fs) e after = elim (Bool-cases f.inuse) [
  | inl u ↦
      ap total (glue_used f e fs after u)
      ∙ omega (
        arith,
        total-append (reverse (f ∷ fs)) (glue_next e after),
        total-append (reverse (f ∷ fs)) (e ∷ after),
        total-glue_next e after,
      )
  | inr u ↦
      ap total (glue_free f e fs after u)
      ∙ omega (
        arith,
        total-append (reverse fs) (glue_next (absorb f e) after),
        total-append (reverse (f ∷ fs)) (e ∷ after),
        total-glue_next (absorb f e) after,
        total-reverse_cons f fs,
      )
]

used-glue :
    (before : List Entry) (e : Entry) (after : List Entry)
    → e.inuse ≡ false
    → used (glue before e after) ≡ used (reverse before) ++ used after
used-glue [] e after u = used-glue_next e after u
used-glue (f ∷ fs) e after u = elim (Bool-cases f.inuse) [
  | inl v ↦
      ap used (glue_used f e fs after v)
      ∙ used-append (reverse (f ∷ fs)) (glue_next e after)
      ∙ ap (λ l. used (reverse (f ∷ fs)) ++ l) (used-glue_next e after u)
  | inr v ↦
      ap used (glue_free f e fs after v)
      ∙ used-append (reverse fs) (glue_next (absorb f e) after)
      ∙ ap₂ ◌++◌ (sym (used-reverse_cons f fs v)) (used-glue_next (absorb f e) after v)
]

pub glue-Freed :
    (before : List Entry) (e : Entry) (after : List Entry) (lo hi : ℕ)
    → e.inuse ≡ false
    → Ordered lo (reverse before ++ e ∷ after) hi
    → Freed before e after (glue before e after) lo hi
glue-Freed before e after lo hi u h = record {
  ordered = glue-Ordered before e after lo hi h;
  total = total-glue before e after;
  used = used-glue before e after u;
}
