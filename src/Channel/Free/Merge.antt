-- ===== src/Channel/Free/Merge.antt =====
-- The two merges of `pfs_channel_free`: in an ordered ring neither goes round its ends, and what they
-- come to is a plain join of neighbours.
use mathlib.Core.List.{reverse-cons}
use mathlib.Core.Path.{subst}
use murphy.Base.{
  reverse-cons_append, ℕ, ◌+◌, ◌<◌, ◌≡◌, refl, true, false, List, [], ◌∷◌, ◌++◌, arith,
  if◌then◌else◌, Bool-cases, sym, inl, inr, ◌∙◌, ap, reverse, reverse-reverse,
}
use murphy.Channel.{
  Entry, Place, ring, absorb, absorb_next, merge_last, merge_prev, merge_head, merge_next, merge,
}
use murphy.Channel.Regions.{Ordered, Ordered-append, Ordered-split, Ordered-weaken}

-- A free entry and those behind it, joined if the next is free.
abbrev pub glue_next : Entry → List Entry → List Entry
glue_next e [] = e ∷ []
glue_next e (f ∷ fs) = if f.inuse then e ∷ f ∷ fs else absorb_next e f ∷ fs

-- The same with the entries before, nearest first.
abbrev pub glue : List Entry → Entry → List Entry → List Entry
glue [] e after = glue_next e after
glue (f ∷ fs) e after =
    if f.inuse
    then reverse (f ∷ fs) ++ glue_next e after
    else reverse fs ++ glue_next (absorb f e) after

-- The order seen from the entry before.
Ordered-before :
    (f : Entry) (fs ys : List Entry) (lo hi : ℕ)
    → Ordered lo (reverse (f ∷ fs) ++ ys) hi
    → (mid : ℕ) × Ordered lo (reverse fs) mid × Ordered mid (f ∷ ys) hi
Ordered-before f fs ys lo hi h =
    Ordered-split lo (reverse fs) (f ∷ ys) hi
      (subst (λ l. Ordered lo l hi) (reverse-cons_append f fs ys) h)

starts-lt :
    (e : Entry) (xs ys : List Entry) (g : Entry) (lo hi : ℕ)
    → Ordered lo (e ∷ xs ++ g ∷ ys) hi
    → e.start < g.start
starts-lt e [] ys g lo hi h = omega arith
starts-lt e (x ∷ xs) ys g lo hi h =
    let rest : x.start < g.start = starts-lt x xs ys g (e.start + e.length) hi h.2 in
    omega (arith, rest)

merge_last-stays :
    (rs : List Entry) (e : Entry) (after : List Entry) (lo hi : ℕ)
    → reverse after ≡ rs
    → Ordered lo (e ∷ after) hi
    → merge_last rs e after ≡ record { before = []; at = e; after = after }
unfolding merge_last
merge_last-stays [] e after lo hi r h = refl
merge_last-stays (g ∷ gs) e after lo hi r h =
    let shape : after ≡ reverse gs ++ g ∷ [] =
      sym (reverse-reverse after) ∙ ap reverse r ∙ reverse-cons g gs in
    let lt : e.start < g.start =
      starts-lt e (reverse gs) [] g lo hi (subst (λ l. Ordered lo (e ∷ l) hi) shape h) in
    ground arith

merge_head-stays :
    (hs before : List Entry) (e : Entry) (lo hi : ℕ)
    → Ordered lo (hs ++ e ∷ []) hi
    → merge_head before hs e ≡ record { before = before; at = e; after = [] }
unfolding merge_head
merge_head-stays [] before e lo hi h = refl
merge_head-stays (g ∷ gs) before e lo hi h =
    let lt : g.start < e.start = starts-lt g gs [] e lo hi h in ground arith

merge_next-glue :
    (before : List Entry) (e : Entry) (after : List Entry) (lo hi : ℕ)
    → Ordered lo (reverse before ++ e ∷ after) hi
    → ring (merge_next before e after) ≡ reverse before ++ glue_next e after
unfolding merge_next
merge_next-glue before e [] lo hi h = ap ring (merge_head-stays (reverse before) before e lo hi h)
merge_next-glue before e (f ∷ fs) lo hi h =
    let (mid, p, q) = Ordered-split lo (reverse before) (e ∷ f ∷ fs) hi h in
    let lt : e.start < f.start = starts-lt e [] fs f mid hi q in ground arith

pub Ordered-absorb :
    (f e : Entry) (fs after : List Entry) (lo hi : ℕ)
    → Ordered lo (reverse (f ∷ fs) ++ e ∷ after) hi
    → Ordered lo (reverse fs ++ absorb f e ∷ after) hi
Ordered-absorb f e fs after lo hi h =
    let (mid, p, q) = Ordered-before f fs (e ∷ after) lo hi h in
    Ordered-append lo (reverse fs) (absorb f e ∷ after) mid hi p (
      q.0,
      omega arith,
      Ordered-weaken (e.start + e.length) (f.start + (f.length + e.length)) after hi hi
          (omega arith) (omega arith) q.2.2,
    )

abbrev finish : Place → List Entry
finish p = ring (merge_next p.before p.at p.after)

merge_prev_head :
    (e : Entry) (after : List Entry) (lo hi : ℕ)
    → Ordered lo (e ∷ after) hi
    → merge_prev [] e after ≡ record { before = []; at = e; after = after }
unfolding merge_prev
merge_prev_head e after lo hi h = merge_last-stays (reverse after) e after lo hi refl h

merge_prev_used :
    (f e : Entry) (fs after : List Entry)
    → f.inuse ≡ true
    → merge_prev (f ∷ fs) e after ≡ record { before = f ∷ fs; at = e; after = after }
unfolding merge_prev
merge_prev_used f e fs after u = ground arith

merge_prev_free :
    (f e : Entry) (fs after : List Entry)
    → f.inuse ≡ false
    → f.start < e.start
    → merge_prev (f ∷ fs) e after ≡ record { before = fs; at = absorb f e; after = after }
unfolding merge_prev
merge_prev_free f e fs after u lt = ground arith

pub glue_used :
    (f e : Entry) (fs after : List Entry)
    → f.inuse ≡ true
    → glue (f ∷ fs) e after ≡ reverse (f ∷ fs) ++ glue_next e after
glue_used f e fs after u = ground arith

pub glue_free :
    (f e : Entry) (fs after : List Entry)
    → f.inuse ≡ false
    → glue (f ∷ fs) e after ≡ reverse fs ++ glue_next (absorb f e) after
glue_free f e fs after u = ground arith

pub glue_next_used :
    (e f : Entry) (fs : List Entry) → f.inuse ≡ true → glue_next e (f ∷ fs) ≡ e ∷ f ∷ fs
glue_next_used e f fs u = ground arith

pub glue_next_free :
    (e f : Entry) (fs : List Entry) → f.inuse ≡ false → glue_next e (f ∷ fs) ≡ absorb_next e f ∷ fs
glue_next_free e f fs u = ground arith

finish-glue :
    (before : List Entry) (e : Entry) (after : List Entry) (lo hi : ℕ)
    → Ordered lo (reverse before ++ e ∷ after) hi
    → finish (merge_prev before e after) ≡ glue before e after
finish-glue [] e after lo hi h =
    ap finish (merge_prev_head e after lo hi h) ∙ merge_next-glue [] e after lo hi h
finish-glue (f ∷ fs) e after lo hi h =
    let (mid, p, q) = Ordered-before f fs (e ∷ after) lo hi h in
    let lt : f.start < e.start = omega arith in
    elim (Bool-cases f.inuse) [
      | inl u ↦
          ap finish (merge_prev_used f e fs after u)
          ∙ merge_next-glue (f ∷ fs) e after lo hi h
          ∙ sym (glue_used f e fs after u)
      | inr u ↦
          ap finish (merge_prev_free f e fs after u lt)
          ∙ merge_next-glue fs (absorb f e) after lo hi (Ordered-absorb f e fs after lo hi h)
          ∙ sym (glue_free f e fs after u)
    ]

-- `e->inuse=0` does not matter to the order.
pub Ordered-cleared :
    (before : List Entry) (e : Entry) (after : List Entry) (lo hi : ℕ)
    → Ordered lo (reverse before ++ e ∷ after) hi
    → Ordered lo (reverse before ++ record e { inuse = false } ∷ after) hi
Ordered-cleared before e after lo hi h =
    let (mid, p, q) = Ordered-split lo (reverse before) (e ∷ after) hi h in
    Ordered-append lo (reverse before) (record e { inuse = false } ∷ after) mid hi p q

-- In an ordered ring the two merges are the plain join.
pub merge-glue :
    (before : List Entry) (e : Entry) (after : List Entry) (lo hi : ℕ)
    → Ordered lo (reverse before ++ e ∷ after) hi
    → merge before e after ≡ glue before (record e { inuse = false }) after
merge-glue before e after lo hi h =
    finish-glue before (record e { inuse = false }) after lo hi
      (Ordered-cleared before e after lo hi h)
