-- ===== src/Channel/Held.antt =====
-- What a client holds of the regions that parrot/src/pfs_channel.c hands out.
use mathlib.Core.Path.{subst}
use murphy.Base.{
  ℕ, ◌+◌, ◌≤◌, ◌<◌, ◌≡◌, ◌⊎◌, inl, inr, refl, sym, false, [], ◌∷◌, ◌++◌, arith, ◌==◌, All,
  Bool-cases, if◌then◌else◌,
}
use murphy.Channel.Alloc.Round.{Taken}
use murphy.Channel.Free.Call.{without}
use murphy.Channel.Regions.{Regions, Apart}

-- A region is in a list.
abbrev pub In : ℕ × ℕ → Regions → Type 0
In q [] = ⊥
In q (r ∷ rs) = (r ≡ q) ⊎ In q rs

-- Two regions have no byte in common.
abbrev pub Clear : ℕ × ℕ → ℕ × ℕ → Type 0
Clear r q = (r.0 + r.1 ≤ q.0) ⊎ (q.0 + q.1 ≤ r.0)

abbrev pub Disjoint : Regions → Type 0
Disjoint [] = Unit
Disjoint (r ∷ rs) = All (Clear r) rs × Disjoint rs

-- What is left of the regions that a client holds when it gives back an offset.
abbrev pub given_back : ℕ → Regions → Regions
given_back s [] = []
given_back s (r ∷ rs) = if r.0 == s then given_back s rs else r ∷ given_back s rs

-- A region has bytes, from `lo` on and before `hi`.
abbrev pub Within : ℕ → ℕ → ℕ × ℕ → Type 0
Within lo hi q = (lo ≤ q.0) × (0 < q.1) × (q.0 + q.1 ≤ hi)

Apart-le : (lo : ℕ) (rs : Regions) (hi : ℕ) → Apart lo rs hi → lo ≤ hi
Apart-le lo [] hi h = h
Apart-le lo (r ∷ rs) hi h = omega (arith, Apart-le (r.0 + r.1) rs hi h.2)

pub Apart-Within :
    (lo : ℕ) (rs : Regions) (hi : ℕ) (q : ℕ × ℕ) → Apart lo rs hi → In q rs → Within lo hi q
Apart-Within lo [] hi q h k = absurd k
Apart-Within lo (r ∷ rs) hi q h (inl e) =
    subst (Within lo hi) e (h.0, h.1, Apart-le (r.0 + r.1) rs hi h.2)
Apart-Within lo (r ∷ rs) hi q h (inr k) =
    let (a, b, c) = Apart-Within (r.0 + r.1) rs hi q h.2 k in (omega arith, b, c)

In-middle : (front back : Regions) (r : ℕ × ℕ) → In r (front ++ r ∷ back)
In-middle [] back r = inl refl
In-middle (f ∷ fs) back r = inr (In-middle fs back r)

In-insert : (front back : Regions) (r q : ℕ × ℕ) → In q (front ++ back) → In q (front ++ r ∷ back)
In-insert [] back r q k = inr k
In-insert (f ∷ fs) back r q (inl e) = inl e
In-insert (f ∷ fs) back r q (inr k) = inr (In-insert fs back r q k)

Clear-middle :
    (front back : Regions) (lo hi : ℕ) (r q : ℕ × ℕ)
    → Apart lo (front ++ r ∷ back) hi
    → In q (front ++ back)
    → Clear r q
Clear-middle [] back lo hi r q h k = inl (Apart-Within (r.0 + r.1) back hi q h.2 k).0
Clear-middle (f ∷ fs) back lo hi r q h (inl e) = inr (
    subst (λ (z : ℕ × ℕ). z.0 + z.1 ≤ r.0) e
      (Apart-Within (f.0 + f.1) (fs ++ r ∷ back) hi r h.2 (In-middle fs back r)).0)
Clear-middle (f ∷ fs) back lo hi r q h (inr k) = Clear-middle fs back (f.0 + f.1) hi r q h.2 k

-- A region that is taken is clear of those that were in use, all of which still are.
pub Taken-In :
    (r q : ℕ × ℕ) (before after : Regions) → Taken r before after → In q before → In q after
Taken-In r q before after t k =
    subst (In q) (sym t.is) (In-insert t.front t.back r q (subst (In q) t.was k))

pub Taken-In_self : (r : ℕ × ℕ) (before after : Regions) → Taken r before after → In r after
Taken-In_self r before after t = subst (In r) (sym t.is) (In-middle t.front t.back r)

pub Taken-Clear :
    (r q : ℕ × ℕ) (before after : Regions) (hi : ℕ)
    → Taken r before after
    → Apart 0 after hi
    → In q before
    → Clear r q
Taken-Clear r q before after hi t h k =
    Clear-middle t.front t.back 0 hi r q (subst (λ l. Apart 0 l hi) t.is h) (subst (In q) t.was k)

In-without : (s : ℕ) (q : ℕ × ℕ) (rs : Regions) → (q.0 == s) ≡ false → In q rs → In q (without s rs)
In-without s q [] h k = k
In-without s q (r ∷ rs) h (inl e) =
    let t : (r.0 == s) ≡ false = subst (λ (z : ℕ × ℕ). (z.0 == s) ≡ false) (sym e) h in rw t (inl e)
In-without s q (r ∷ rs) h (inr k) = elim (Bool-cases (r.0 == s)) [
  | inl t ↦ rw t k
  | inr t ↦ rw t (inr (In-without s q rs h k))
]

pub All-map :
    {P Q : ℕ × ℕ → Type 0} (rs : Regions) → ((r : ℕ × ℕ) → P r → Q r) → All P rs → All Q rs
All-map [] f h = tt
All-map (r ∷ rs) f (p, h) = (f r p, All-map rs f h)

pub given_back-In :
    (s : ℕ) (rs us : Regions)
    → All (λ r. In r us) rs
    → All (λ r. In r (without s us)) (given_back s rs)
given_back-In s [] us h = tt
given_back-In s (r ∷ rs) us (p, h) = elim (Bool-cases (r.0 == s)) [
  | inl t ↦ rw t (given_back-In s rs us h)
  | inr t ↦ rw t (In-without s r us t p, given_back-In s rs us h)
]

given_back-All : (P : ℕ × ℕ → Type 0) (s : ℕ) (rs : Regions) → All P rs → All P (given_back s rs)
given_back-All P s [] h = tt
given_back-All P s (r ∷ rs) (p, h) = elim (Bool-cases (r.0 == s)) [
  | inl t ↦ rw t (given_back-All P s rs h)
  | inr t ↦ rw t (p, given_back-All P s rs h)
]

pub given_back-Disjoint : (s : ℕ) (rs : Regions) → Disjoint rs → Disjoint (given_back s rs)
given_back-Disjoint s [] h = tt
given_back-Disjoint s (r ∷ rs) (p, h) = elim (Bool-cases (r.0 == s)) [
  | inl t ↦ rw t (given_back-Disjoint s rs h)
  | inr t ↦ rw t (given_back-All (Clear r) s rs p, given_back-Disjoint s rs h)
]
