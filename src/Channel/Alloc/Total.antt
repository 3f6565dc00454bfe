-- ===== src/Channel/Alloc/Total.antt =====
-- `pfs_channel_alloc` always comes back: with memory for the new entry, after one expansion at most.
use mathlib.Core.Path.{subst}
use murphy.Base.{
  ℕ, ◌+◌, ◌<◌, ◌≡◌, refl, Bool, true, false, Option, none, some, List, [], ◌∷◌, ◌++◌, arith,
  Bool-cases, sym, ◌≢◌, inl, inr, ◌∙◌, ◌&&◌, All, ap, append-nil,
}
use murphy.Base.Int.{ℤ, pos}
use murphy.Channel.{
  Entry, Channel, Round, Scan, found, no_memory, full, behind, scan, alloc, expand, round_up,
}
use murphy.Channel.Alloc.Call.{
  alloc-found, alloc-no_memory, alloc-grown, alloc-full, scan_cases, is_found, is_no_memory,
  is_full,
}
use murphy.Channel.Alloc.Round.{scan-Served}
use murphy.Channel.Regions.{total, total-append}
use murphy.Channel.Rounding.{round_up-round_up, round_up_pos}

behind-full : (e : Entry) (r : Scan) → behind e r ≡ full → r ≡ full
behind-full e (found s es) h = cc
behind-full e no_memory h = cc
behind-full e full h = refl

behind-no_memory : (e : Entry) (r : Scan) → behind e r ≡ no_memory → r ≡ no_memory
behind-no_memory e (found s es) h = cc
behind-no_memory e no_memory h = refl
behind-no_memory e full h = cc

scan-ne-no_memory : (n : ℕ) (es : List Entry) → scan true n es ≢ no_memory
unfolding scan
scan-ne-no_memory n [] = λ h. cc
scan-ne-no_memory n (e ∷ es) =
    λ h. ground (arith, scan-ne-no_memory n es, behind-no_memory e (scan true n es))

-- A walk that found nothing finds an entry of the right length that is put behind.
scan-append :
    (m m' : Bool) (n at : ℕ) (es : List Entry)
    → scan m n es ≡ full
    → scan m' n (es ++ record { start = at; length = n; inuse = false } ∷ [])
      ≡ found at (es ++ record { start = at; length = n; inuse = true } ∷ [])
unfolding scan
scan-append m m' n at [] h = ground arith
scan-append m m' n at (e ∷ es) h =
    ground (arith, scan-append m m' n at es, behind-full e (scan m n es))

-- The round behind an expansion.
scan-expand :
    (m m' : Bool) (len : ℤ) (c : Channel)
    → 0 < c.page_size
    → m ≡ true
    → let n = round_up c.page_size len in
      scan m n c.entries ≡ full
      → scan m' (round_up c.page_size (pos n)) (expand m n c).entries
        ≡ found c.size (c.entries ++ record { start = c.size; length = n; inuse = true } ∷ [])
unfolding expand
scan-expand m m' len c p h e =
    rw (h, round_up-round_up c.page_size len p) (scan-append m m' _ c.size c.entries e)

-- With a first round in which memory and the system serve the call, it returns an offset.
pub alloc_served :
    (q q' : Round) (rs : List Round) (len : ℤ) (c : Channel)
    → 0 < c.page_size
    → q.malloc_ok ≡ true
    → (q.ftruncate_ok && q.mremap_ok) ≡ true
    → (s : ℕ) × (c' : Channel) × (alloc (q ∷ q' ∷ rs) len c ≡ some (some s, c'))
unfolding expand
alloc_served q q' rs len c p m ok =
    let n = round_up c.page_size len in
    elim (scan_cases (scan q.malloc_ok n c.entries)) [
      | is_found s es e ↦ (s, _, alloc-found q (q' ∷ rs) len c s es e)
      | is_no_memory e ↦ absurd (scan-ne-no_memory n c.entries (rw m at e))
      | is_full e ↦ (
        c.size,
        _,
        alloc-grown q (q' ∷ rs) len c e ok
            ∙ alloc-found q' rs (pos n) (expand q.malloc_ok n c) c.size _
                (scan-expand q.malloc_ok q'.malloc_ok len c p m e),
      )
    ]

-- With memory for the new entry the call returns, whatever the system answers.
pub alloc_returns :
    (q q' : Round) (rs : List Round) (len : ℤ) (c : Channel)
    → 0 < c.page_size
    → q.malloc_ok ≡ true
    → (r : Option ℕ) × (c' : Channel) × (alloc (q ∷ q' ∷ rs) len c ≡ some (r, c'))
alloc_returns q q' rs len c p m = elim (Bool-cases (q.ftruncate_ok && q.mremap_ok)) [
  | inl ok ↦ let (s, c', e) = alloc_served q q' rs len c p m ok in (some s, c', e)
  | inr bad ↦
      let n = round_up c.page_size len in
      elim (scan_cases (scan q.malloc_ok n c.entries)) [
        | is_found s es e ↦ (some s, _, alloc-found q (q' ∷ rs) len c s es e)
        | is_no_memory e ↦ (none, c, alloc-no_memory q (q' ∷ rs) len c e)
        | is_full e ↦ (none, c, alloc-full q (q' ∷ rs) len c e bad)
      ]
]

abbrev pub Served : Round → Type 0
Served q = q.malloc_ok ≡ true

abbrev pub Starved : Round → Type 0
Starved q = (q.malloc_ok ≡ false) × ((q.ftruncate_ok && q.mremap_ok) ≡ true)

scan-starved :
    (len : ℤ) (c : Channel)
    → 0 < c.page_size
    → let n = round_up c.page_size len in
      scan false n c.entries ≡ full
      → scan false (round_up c.page_size (pos n)) (expand false n c).entries ≡ full
unfolding expand
scan-starved len c p h = rw (append-nil, round_up-round_up c.page_size len p) h

-- The result of `entry_create` is not tested when the channel grows: while memory is short and the
-- system goes on extending the file, a call on a full ring never returns.
pub alloc-Starved :
    (rs : List Round) (len : ℤ) (c : Channel)
    → 0 < c.page_size
    → All Starved rs
    → scan false (round_up c.page_size len) c.entries ≡ full
    → alloc rs len c ≡ none
unfolding expand
alloc-Starved [] len c p hs h = unfold alloc in refl
alloc-Starved (q ∷ rs) len c p ((m, ok), hs) h =
    let n = round_up c.page_size len in
    alloc-grown q rs len c (rw m h) ok
    ∙ rw m (alloc-Starved rs (pos n) (expand false n c) p hs (scan-starved len c p h))

total-expand : (n : ℕ) (c : Channel) → total (expand true n c).entries ≡ total c.entries + n
unfolding expand
total-expand n c = total-append c.entries _ ∙ omega arith

abbrev pub Covers : Channel → Type 0
Covers c = total c.entries ≡ c.size

Covers-eq :
    (r r' : Option ℕ) (d d' : Channel)
    → Covers d
    → ◌≡◌ {A = Option (Option ℕ × Channel)} (some (r, d)) (some (r', d'))
    → Covers d'
Covers-eq r r' d d' h e = let p : d ≡ d' = cc in subst Covers p h

-- With memory for every new entry a call loses no byte: entries that cover the file still do.
pub alloc-Covers :
    (rs : List Round) (len : ℤ) (c : Channel) {r : Option ℕ} {c' : Channel}
    → All Served rs
    → 0 < c.page_size
    → Covers c
    → alloc rs len c ≡ some (r, c')
    → Covers c'
unfolding expand
alloc-Covers [] len c hs p v h = unfold alloc in cc
alloc-Covers (q ∷ rs) len c {r} {c'} (m, hs) p v h =
    let n = round_up c.page_size len in
    elim (scan_cases (scan q.malloc_ok n c.entries)) [
      | is_found s es e ↦
          Covers-eq _ r _ c'
            ((scan-Served q.malloc_ok n c.entries s es (round_up_pos c.page_size len p) e).total
              ∙ v)
            (sym (alloc-found q rs len c s es e) ∙ h)
      | is_no_memory e ↦ Covers-eq none r c c' v (sym (alloc-no_memory q rs len c e) ∙ h)
      | is_full e ↦ elim (Bool-cases (q.ftruncate_ok && q.mremap_ok)) [
        | inr bad ↦ Covers-eq none r c c' v (sym (alloc-full q rs len c e bad) ∙ h)
        | inl ok ↦
            alloc-Covers rs (pos n) (expand q.malloc_ok n c) hs p
              (rw m (total-expand n c ∙ ap (λ t. t + n) v)) (sym (alloc-grown q rs len c e ok) ∙ h)
      ]
    ]
