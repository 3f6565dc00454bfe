-- ===== src/Channel/Alloc/Call.antt =====
-- The whole of `pfs_channel_alloc`: what a call that returns has done, and that two rounds are enough.
use mathlib.Core.Path.{subst}
use murphy.Base.{
  ℕ, ◌+◌, ◌-◌, ◌≤◌, ◌<◌, ◌≡◌, refl, Bool, true, false, Option, none, some, List, [], ◌∷◌, arith,
  Bool-cases, sym, inl, inr, ◌∙◌, ◌&&◌, append-nil, ap,
}
use murphy.Base.Int.{ℤ, pos}
use murphy.Channel.{
  Entry, Channel, Round, Scan, found, no_memory, full, scan, alloc, expand, round_up, clear,
}
use murphy.Channel.Alloc.Round.{Taken, scan-Served}
use murphy.Channel.Regions.{IsValid, Ordered-append, Regions, used, used-append}
use murphy.Channel.Rounding.{round_up_pos, round_up-round_up}

-- The effect of a call on the regions in use: one more, or none.
abbrev pub Effect : ℕ → Option ℕ → Regions → Regions → Type 0
Effect n none before after = after ≡ before
Effect n (some s) before after = Taken (s, n) before after

-- The effect of a call on the mapped bytes: the last page of the new region is zeroed.
abbrev pub Wiped : ℕ → Option ℕ → ℕ → (ℕ → ℕ) → (ℕ → ℕ) → Type 0
Wiped n none page before after = after ≡ before
Wiped n (some s) page before after = after ≡ clear before (s + n - page) page

pub record Called (n : ℕ) (c : Channel) (r : Option ℕ) (c' : Channel) : Type 0 where
  pub valid : IsValid c'
  pub page : c'.page_size ≡ c.page_size
  pub grown : c.size ≤ c'.size
  pub effect : Effect n r (used c.entries) (used c'.entries)
  pub wiped : Wiped n r c.page_size c.memory c'.memory

-- One round, as a lemma for each way in which the walk ends.
module _ (r : Round) (rs : List Round) (len : ℤ) (c : Channel) where
  abbrev pub wanted : ℕ
  wanted = round_up c.page_size len

  pub alloc-found :
      (s : ℕ) (es : List Entry)
      → scan r.malloc_ok wanted c.entries ≡ found s es
      → alloc (r ∷ rs) len c
        ≡ some (
          some s,
          record c { entries = es; memory = clear c.memory (s + wanted - c.page_size) c.page_size },
        )
  unfolding alloc
  alloc-found s es e = rw (e, alloc)

  pub alloc-no_memory :
      scan r.malloc_ok wanted c.entries ≡ no_memory → alloc (r ∷ rs) len c ≡ some (none, c)
  unfolding alloc
  alloc-no_memory e = rw (e, alloc)

  pub alloc-grown :
      scan r.malloc_ok wanted c.entries ≡ full
      → (r.ftruncate_ok && r.mremap_ok) ≡ true
      → alloc (r ∷ rs) len c ≡ alloc rs (pos wanted) (expand r.malloc_ok wanted c)
  unfolding alloc
  alloc-grown e ok = rw (e, ok, alloc)

  pub alloc-full :
      scan r.malloc_ok wanted c.entries ≡ full
      → (r.ftruncate_ok && r.mremap_ok) ≡ false
      → alloc (r ∷ rs) len c ≡ some (none, c)
  unfolding alloc
  alloc-full e bad = rw (e, bad, alloc)

expand-IsValid : (m : Bool) (n : ℕ) (c : Channel) → 0 < n → IsValid c → IsValid (expand m n c)
unfolding expand
expand-IsValid true n c h v = record {
  ordered =
      Ordered-append 0 c.entries _ c.size (c.size + n) v.ordered (omega arith, h, omega arith);
  paged = v.paged;
}
expand-IsValid false n c h v = record {
  ordered = Ordered-append 0 c.entries [] c.size (c.size + n) v.ordered (omega arith);
  paged = v.paged;
}

used-expand : (m : Bool) (n : ℕ) (c : Channel) → used (expand m n c).entries ≡ used c.entries
unfolding expand
used-expand true n c = used-append c.entries _ ∙ append-nil (used c.entries)
used-expand false n c = ap used (append-nil c.entries)

pub data ScanCases (s : Scan) : Type 0 where
  is_found : (at : ℕ) (es : List Entry) → s ≡ found at es → ScanCases s
  is_no_memory : s ≡ no_memory → ScanCases s
  is_full : s ≡ full → ScanCases s

pub scan_cases : (s : Scan) → ScanCases s
scan_cases (found at es) = is_found at es refl
scan_cases no_memory = is_no_memory refl
scan_cases full = is_full refl

Called-refl : (n : ℕ) (c : Channel) → IsValid c → Called n c none c
Called-refl n c v = record {
  valid = v;
  page = refl;
  grown = omega arith;
  effect = refl;
  wiped = refl;
}

Called-eq :
    (n : ℕ) (c : Channel) (r r' : Option ℕ) (d d' : Channel)
    → Called n c r d
    → ◌≡◌ {A = Option (Option ℕ × Channel)} (some (r, d)) (some (r', d'))
    → Called n c r' d'
Called-eq n c r r' d d' h e =
    let p : ◌≡◌ {A = Option ℕ × Channel} (r, d) (r', d') = cc in
    subst (λ (q : Option ℕ × Channel). Called n c q.0 q.1) p h

-- What was true after the expansion was true before it.
Called-expand :
    (m : Bool) (n k : ℕ) (c : Channel) (r : Option ℕ) (d : Channel)
    → k ≡ n
    → Called k (expand m n c) r d
    → Called n c r d
unfolding expand
Called-expand m n k c r d e h = record {
  valid = h.valid;
  page = h.page;
  grown = omega (arith, h.grown);
  effect =
      subst (λ u. Effect n r u (used d.entries)) (used-expand m n c)
        (subst (λ j. Effect j r (used (expand m n c).entries) (used d.entries)) e h.effect);
  wiped = subst (λ j. Wiped j r c.page_size c.memory d.memory) e h.wiped;
}

-- A call that returns keeps the ring valid and the page size, and never shrinks the file. If it returns
-- an offset, the region there of the rounded length was added to those in use, and of the mapped
-- bytes just the last page of that region was zeroed; otherwise regions in use and bytes are as before.
pub alloc-Called :
    (rs : List Round) (len : ℤ) (c : Channel) {r : Option ℕ} {c' : Channel}
    → IsValid c
    → alloc rs len c ≡ some (r, c')
    → Called (round_up c.page_size len) c r c'
unfolding expand
alloc-Called [] len c v h = unfold alloc in cc
alloc-Called (q ∷ rs) len c {r} {c'} v h =
    let n = round_up c.page_size len in
    let pos_n : 0 < n = round_up_pos c.page_size len v.paged in
    elim (scan_cases (scan q.malloc_ok n c.entries)) [
      | is_found s es e ↦
          let d = scan-Served q.malloc_ok n c.entries s es pos_n e in
          Called-eq n c _ r _ c'
            (record {
              valid = record { ordered = d.ordered 0 c.size v.ordered; paged = v.paged };
              page = refl;
              grown = omega arith;
              effect = d.taken;
              wiped = refl;
            })
            (sym (alloc-found q rs len c s es e) ∙ h)
      | is_no_memory e ↦
          Called-eq n c none r c c' (Called-refl n c v) (sym (alloc-no_memory q rs len c e) ∙ h)
      | is_full e ↦ elim (Bool-cases (q.ftruncate_ok && q.mremap_ok)) [
        | inl ok ↦
            Called-expand q.malloc_ok n _ c r c' (round_up-round_up c.page_size len v.paged) (
              alloc-Called rs (pos n) (expand q.malloc_ok n c)
                (expand-IsValid q.malloc_ok n c pos_n v) (sym (alloc-grown q rs len c e ok) ∙ h))
        | inr bad ↦
            Called-eq n c none r c c' (Called-refl n c v) (sym (alloc-full q rs len c e bad) ∙ h)
      ]
    ]
