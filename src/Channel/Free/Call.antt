-- ===== src/Channel/Free/Call.antt =====
-- The whole of `pfs_channel_free`, and its return from `pfs_channel_alloc`.
use mathlib.Core.List.{reverse-cons}
use mathlib.Core.Path.{subst}
use murphy.Base.{
  reverse-cons_append, ℕ, ◌+◌, ◌<◌, ◌≡◌, refl, true, false, some, List, [], ◌∷◌, ◌++◌, arith,
  if◌then◌else◌, ◌==◌, Bool-cases, sym, inl, inr, ◌∙◌, ap, reverse, append_assoc, append-nil,
}
use murphy.Base.Int.{ℤ}
use murphy.Channel.{Entry, Channel, Round, merge, release, free, alloc, round_up}
use murphy.Channel.Alloc.Call.{alloc-Called}
use murphy.Channel.Alloc.Round.{Taken}
use murphy.Channel.Free.Glue.{Freed, glue-Freed}
use murphy.Channel.Free.Merge.{merge-glue, Ordered-cleared}
use murphy.Channel.Regions.{
  IsValid, IsValid-Apart, Apart, Ordered, Ordered-split, Regions, used, total, used-append,
  total-append,
}

-- The regions but the first that starts at `s`.
abbrev pub without : ℕ → Regions → Regions
without s [] = []
without s (r ∷ rs) = if r.0 == s then rs else r ∷ without s rs

without_above :
    (s lo : ℕ) (es : List Entry) (hi : ℕ)
    → s < lo
    → Ordered lo es hi
    → without s (used es) ≡ used es
without_above s lo [] hi lt h = refl
without_above s lo (e ∷ es) hi lt h =
    ground (arith, without_above s (e.start + e.length) es hi (omega arith) h.2)

-- The walk of `pfs_channel_free` from the entry `e` on.
module _ (before : List Entry) (s : ℕ) (e : Entry) (es : List Entry) where
  release_here : (e.start == s) ≡ true → release before s (e ∷ es) ≡ merge before e es
  unfolding release
  release_here h = rw h

  release_later : (e.start == s) ≡ false → release before s (e ∷ es) ≡ release (e ∷ before) s es
  unfolding release
  release_later h = rw h

Ordered-shift :
    (before : List Entry) (e : Entry) (es : List Entry) (lo hi : ℕ)
    → Ordered lo (reverse before ++ e ∷ es) hi
    → Ordered lo (reverse (e ∷ before) ++ es) hi
Ordered-shift before e es lo hi h =
    subst (λ l. Ordered lo l hi) (sym (reverse-cons_append e before es)) h

-- What the merges leave at the entry found.
merge-Freed :
    (before : List Entry) (e : Entry) (es : List Entry) (lo hi : ℕ)
    → Ordered lo (reverse before ++ e ∷ es) hi
    → Freed before (record e { inuse = false }) es (merge before e es) lo hi
merge-Freed before e es lo hi h =
    subst (λ l. Freed before (record e { inuse = false }) es l lo hi)
      (sym (merge-glue before e es lo hi h))
      (glue-Freed before (record e { inuse = false }) es lo hi refl
        (Ordered-cleared before e es lo hi h))

pub release-Ordered :
    (before : List Entry) (s : ℕ) (es : List Entry) (lo hi : ℕ)
    → Ordered lo (reverse before ++ es) hi
    → Ordered lo (release before s es) hi
release-Ordered before s [] lo hi h =
    unfold release in subst (λ l. Ordered lo l hi) (append-nil (reverse before)) h
release-Ordered before s (e ∷ es) lo hi h = elim (Bool-cases (e.start == s)) [
  | inl here ↦
      subst (λ l. Ordered lo l hi) (sym (release_here before s e es here))
        (merge-Freed before e es lo hi h).ordered
  | inr later ↦
      subst (λ l. Ordered lo l hi) (sym (release_later before s e es later))
        (release-Ordered (e ∷ before) s es lo hi (Ordered-shift before e es lo hi h))
]

total_cleared :
    (before : List Entry) (e : Entry) (es : List Entry)
    → total (reverse before ++ record e { inuse = false } ∷ es) ≡ total (reverse before ++ e ∷ es)
total_cleared before e es =
    total-append (reverse before) _ ∙ sym (total-append (reverse before) (e ∷ es))

pub total-release :
    (before : List Entry) (s : ℕ) (es : List Entry) (lo hi : ℕ)
    → Ordered lo (reverse before ++ es) hi
    → total (release before s es) ≡ total (reverse before ++ es)
total-release before s [] lo hi h = unfold release in ap total (sym (append-nil (reverse before)))
total-release before s (e ∷ es) lo hi h = elim (Bool-cases (e.start == s)) [
  | inl here ↦
      ap total (release_here before s e es here)
      ∙ (merge-Freed before e es lo hi h).total
      ∙ total_cleared before e es
  | inr later ↦
      ap total (release_later before s e es later)
      ∙ total-release (e ∷ before) s es lo hi (Ordered-shift before e es lo hi h)
      ∙ ap total (reverse-cons_append e before es)
]

-- At the entry found: it is the first region that starts there, or it was free.
without_here :
    (s : ℕ) (e : Entry) (es : List Entry) (lo hi : ℕ)
    → (e.start == s) ≡ true
    → Ordered lo (e ∷ es) hi
    → without s (used (e ∷ es)) ≡ used es
without_here s e es lo hi here h =
    ground (arith, without_above s (e.start + e.length) es hi (ground arith) h.2)

used_passed :
    (before : List Entry) (s : ℕ) (e : Entry) (es : List Entry)
    → (e.start == s) ≡ false
    → used (reverse (e ∷ before)) ++ without s (used es)
      ≡ used (reverse before) ++ without s (used (e ∷ es))
used_passed before s e es later =
    ap (λ l. used l ++ without s (used es)) (reverse-cons e before)
    ∙ ap (λ l. l ++ without s (used es)) (used-append (reverse before) (e ∷ []))
    ∙ append_assoc (used (reverse before)) (used (e ∷ [])) (without s (used es))
    ∙ ap (λ l. used (reverse before) ++ l) (ground arith)

used-release :
    (before : List Entry) (s : ℕ) (es : List Entry) (lo hi : ℕ)
    → Ordered lo (reverse before ++ es) hi
    → used (release before s es) ≡ used (reverse before) ++ without s (used es)
used-release before s [] lo hi h = unfold release in sym (append-nil (used (reverse before)))
used-release before s (e ∷ es) lo hi h = elim (Bool-cases (e.start == s)) [
  | inl here ↦
      let (mid, p, q) = Ordered-split lo (reverse before) (e ∷ es) hi h in
      ap used (release_here before s e es here)
      ∙ (merge-Freed before e es lo hi h).used
      ∙ ap (λ l. used (reverse before) ++ l) (sym (without_here s e es mid hi here q))
  | inr later ↦
      ap used (release_later before s e es later)
      ∙ used-release (e ∷ before) s es lo hi (Ordered-shift before e es lo hi h)
      ∙ used_passed before s e es later
]

-- `pfs_channel_free` keeps the ring valid and the bytes that it covers, and takes from the regions in
-- use just the one that starts at the offset, if there is one.
pub free_lem :
    (s : ℕ) (c : Channel)
    → IsValid c
    → IsValid (free s c)
      × (total (free s c).entries ≡ total c.entries)
      × (used (free s c).entries ≡ without s (used c.entries))
unfolding free
free_lem s c v = (
  record { ordered = release-Ordered [] s c.entries 0 c.size v.ordered; paged = v.paged },
  total-release [] s c.entries 0 c.size v.ordered,
  used-release [] s c.entries 0 c.size v.ordered,
)

before_lt :
    (front back : Regions) (r : ℕ × ℕ) (s n lo hi : ℕ)
    → Apart lo (r ∷ front ++ (s, n) ∷ back) hi
    → r.0 < s
before_lt [] back r s n lo hi h = omega arith
before_lt (q ∷ qs) back r s n lo hi h =
    let rest : q.0 < s = before_lt qs back q s n (r.0 + r.1) hi h.2 in omega (arith, rest)

without-append :
    (front back : Regions) (s n lo hi : ℕ)
    → Apart lo (front ++ (s, n) ∷ back) hi
    → without s (front ++ (s, n) ∷ back) ≡ front ++ back
without-append [] back s n lo hi h = ground arith
without-append (r ∷ rs) back s n lo hi h =
    let lt : r.0 < s = before_lt rs back r s n lo hi h in
    ground (arith, without-append rs back s n (r.0 + r.1) hi h.2)

without-Taken :
    (s n : ℕ) (before after : Regions) (hi : ℕ)
    → Apart 0 after hi
    → Taken (s, n) before after
    → without s after ≡ before
without-Taken s n before after hi h t =
    ap (without s) t.is
    ∙ without-append t.front t.back s n 0 hi (subst (λ l. Apart 0 l hi) t.is h)
    ∙ sym t.was

-- Freeing what was just allocated gives the regions in use before the call.
pub free-alloc :
    (rs : List Round) (len : ℤ) (c : Channel) {s : ℕ} {c' : Channel}
    → IsValid c
    → alloc rs len c ≡ some (some s, c')
    → used (free s c').entries ≡ used c.entries
free-alloc rs len c {s} {c'} v h =
    let d = alloc-Called rs len c v h in
    (free_lem s c' d.valid).2
    ∙ without-Taken s (round_up c.page_size len) (used c.entries) (used c'.entries) c'.size
        (IsValid-Apart c' d.valid) d.effect
