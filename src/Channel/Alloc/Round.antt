-- ===== src/Channel/Alloc/Round.antt =====
-- One walk of `pfs_channel_alloc` over the ring.
use murphy.Base.{
  ℕ, ◌+◌, ◌-◌, ◌<◌, ◌≡◌, refl, Bool, true, false, List, [], ◌∷◌, ◌++◌, inl, inr, arith, ltb, ◌==◌,
  ==_iff, Bool-cases, sym, ◌≢◌, ◌∙◌,
}
use mathlib.Core.Path.{subst, subst₂}
use murphy.Channel.{Entry, Scan, found, no_memory, full, behind, scan}
use murphy.Channel.Regions.{Ordered, Regions, used, total}

-- `r` was put into `before`, whose other regions stay as they were.
pub record Taken (r : ℕ × ℕ) (before after : Regions) : Type 0 where
  pub front : Regions
  pub back : Regions
  pub was : before ≡ front ++ back
  pub is : after ≡ front ++ r ∷ back

-- What a successful walk leaves behind.
pub record Served (n : ℕ) (es : List Entry) (s : ℕ) (es' : List Entry) : Type 0 where
  pub ordered : (lo hi : ℕ) → Ordered lo es hi → Ordered lo es' hi
  pub total : total es' ≡ total es
  pub taken : Taken (s, n) (used es) (used es')

Served-behind :
    (n : ℕ) (e : Entry) (es : List Entry) (s : ℕ) (es' : List Entry)
    → Served n es s es'
    → Served n (e ∷ es) s (e ∷ es')
Served-behind n e es s es' d = record {
  ordered = λ lo hi h. (h.0, h.1, d.ordered (e.start + e.length) hi h.2);
  total = omega (arith, d.total);
  taken = elim (Bool-cases e.inuse) [
    | inl u ↦ record {
      front = (e.start, e.length) ∷ d.taken.front;
      back = d.taken.back;
      was = rw u (rw d.taken.was);
      is = rw u (rw d.taken.is);
    }
    | inr u ↦ record {
      front = d.taken.front;
      back = d.taken.back;
      was = rw u d.taken.was;
      is = rw u d.taken.is;
    }
  ];
}

-- The entry fits exactly.
Served-whole :
    (n : ℕ) (e : Entry) (es : List Entry)
    → e.inuse ≡ false
    → e.length ≡ n
    → Served n (e ∷ es) e.start (record e { inuse = true } ∷ es)
Served-whole n e es u len = record {
  ordered = λ lo hi h. h;
  total = refl;
  taken = record { front = []; back = used es; was = rw u; is = rw len };
}

-- The entry is split.
Served-split :
    (n : ℕ) (e : Entry) (es : List Entry)
    → 0 < n
    → e.inuse ≡ false
    → n < e.length
    → Served n (e ∷ es) e.start (
        record e { length = n; inuse = true }
        ∷ record { start = e.start + n; length = e.length - n; inuse = false }
        ∷ es)
Served-split n e es pos u lt = record {
  ordered = λ lo hi h.
      (h.0, pos, (omega arith, omega arith, subst (λ k. Ordered k es hi) (omega arith) h.2));
  total = omega arith;
  taken = record { front = []; back = used es; was = rw u; is = refl };
}

pub behind-found :
    (e : Entry) (r : Scan) (s : ℕ) (es' : List Entry)
    → behind e r ≡ found s es'
    → (es : List Entry) × (r ≡ found s es) × (es' ≡ e ∷ es)
behind-found e (found t es) s es' h = ground arith
behind-found e no_memory s es' h = cc
behind-found e full s es' h = cc

no_memory-ne-found : (s : ℕ) (es : List Entry) → no_memory ≢ found s es
no_memory-ne-found s es = λ h. cc

found-eq :
    (n : ℕ) (xs : List Entry) (t : ℕ) (ts : List Entry) (s : ℕ) (es : List Entry)
    → found t ts ≡ found s es
    → Served n xs t ts
    → Served n xs s es
found-eq n xs t ts s es h d =
    let p : t ≡ s = cc in let q : ts ≡ es = cc in subst₂ (λ a b. Served n xs a b) p q d

later :
    (m : Bool) (n : ℕ) (e : Entry) (es : List Entry) (s : ℕ) (es' : List Entry)
    → ((t : ℕ) (ts : List Entry) → scan m n es ≡ found t ts → Served n es t ts)
    → behind e (scan m n es) ≡ found s es'
    → Served n (e ∷ es) s es'
later m n e es s es' ih h =
    let (ts, p, q) = behind-found e (scan m n es) s es' h in
    subst (λ l. Served n (e ∷ es) s l) (sym q) (Served-behind n e es s ts (ih s ts p))

-- The walk at one entry, a lemma for each branch.
module _ (m : Bool) (n : ℕ) (e : Entry) (es : List Entry) where
  pub scan_used : e.inuse ≡ true → scan m n (e ∷ es) ≡ behind e (scan m n es)
  unfolding scan
  scan_used u = rw u

  pub scan_whole :
      e.inuse ≡ false
      → (e.length == n) ≡ true
      → scan m n (e ∷ es) ≡ found e.start (record e { inuse = true } ∷ es)
  unfolding scan
  scan_whole u w = rw (u, w)

  pub scan_short :
      e.inuse ≡ false
      → (e.length == n) ≡ false
      → ltb n e.length ≡ false
      → scan m n (e ∷ es) ≡ behind e (scan m n es)
  unfolding scan
  scan_short u w l = rw (u, w, l)

  pub scan_split :
      e.inuse ≡ false
      → (e.length == n) ≡ false
      → ltb n e.length ≡ true
      → m ≡ true
      → scan m n (e ∷ es)
        ≡ found e.start (
            record e { length = n; inuse = true }
            ∷ record { start = e.start + n; length = e.length - n; inuse = false }
            ∷ es)
  unfolding scan
  scan_split u w l k = rw (u, w, l, k)

  pub scan_refused :
      e.inuse ≡ false
      → (e.length == n) ≡ false
      → ltb n e.length ≡ true
      → m ≡ false
      → scan m n (e ∷ es) ≡ no_memory
  unfolding scan
  scan_refused u w l k = rw (u, w, l, k)

-- A walk that finds room keeps the order and the bytes covered, and takes one free region.
pub scan-Served :
    (m : Bool) (n : ℕ) (es : List Entry) (s : ℕ) (es' : List Entry)
    → 0 < n
    → scan m n es ≡ found s es'
    → Served n es s es'
unfolding scan
scan-Served m n [] s es' pos h = cc
scan-Served m n (e ∷ es) s es' pos h =
    let ih =
      λ (t : ℕ) (ts : List Entry) (p : scan m n es ≡ found t ts). scan-Served m n es t ts pos p in
    elim (Bool-cases e.inuse) [
      | inl u ↦ later m n e es s es' ih (sym (scan_used m n e es u) ∙ h)
      | inr u ↦ elim (Bool-cases (e.length == n)) [
        | inl w ↦
            found-eq n (e ∷ es) _ _ s es' (sym (scan_whole m n e es u w) ∙ h)
              (Served-whole n e es u ((==_iff _ n).0 w))
        | inr w ↦ elim (Bool-cases (ltb n e.length)) [
          | inr small ↦ later m n e es s es' ih (sym (scan_short m n e es u w small) ∙ h)
          | inl big ↦ elim (Bool-cases m) [
            | inl ok ↦
                found-eq n (e ∷ es) _ _ s es' (sym (scan_split m n e es u w big ok) ∙ h)
                  (Served-split n e es pos u (ground arith))
            | inr bad ↦
                absurd (no_memory-ne-found s es' (sym (scan_refused m n e es u w big bad) ∙ h))
          ]
        ]
      ]
    ]
