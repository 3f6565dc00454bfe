-- ===== src/Space/Root.antt =====
-- The search of chirp/src/chirp_alloc.c for the allocation that a directory belongs to.
use murphy.Base.{
  ℕ, zero, suc, ◌+◌, ◌<◌, ◌≡◌, ◌⊎◌, inl, inr, refl, sym, ap, ◌∙◌, none, some, [], ◌∷◌, ◌++◌,
  append_assoc, append-nil, Bytes, length, length-append, arith, Option-cases,
}
use murphy.Space.{AllocState, Allocs, climb, alloc_state_root}
use murphy.Text.Path.{slash, cut_last_slash}
use murphy.Text.Path.Split.{cut_last_slash_lem, cut_last_slash_below}

-- `r` is `path` or a directory above it.
abbrev pub IsAbove : Bytes → Bytes → Type 0
IsAbove r path =
    (rest : Bytes) × (path ≡ r ++ rest) × ((rest ≡ []) ⊎ ((t : Bytes) × (rest ≡ slash ∷ t)))

IsAbove-up : (r f t path : Bytes) → IsAbove r f → path ≡ f ++ slash ∷ t → IsAbove r path
IsAbove-up r f t path (rest, p, inl q) e =
    (slash ∷ t, e ∙ ap (λ l. l ++ slash ∷ t) (p ∙ ap (λ l. r ++ l) q ∙ append-nil r), inr (t, refl))
IsAbove-up r f t path (rest, p, inr (u, q)) e = (
  rest ++ slash ∷ t,
  e ∙ ap (λ l. l ++ slash ∷ t) p ∙ append_assoc r rest (slash ∷ t),
  inr (u ++ slash ∷ t, ap (λ l. l ++ slash ∷ t) q),
)

-- The search finds an allocation at the directory or above it.
climb-IsAbove :
    (allocs : Allocs) (n : ℕ) (path r : Bytes)
    → climb allocs n path ≡ some r
    → IsAbove r path × ((a : AllocState) × (allocs r ≡ some a))
unfolding climb
climb-IsAbove allocs zero path r e = cc
climb-IsAbove allocs (suc n) path r e = elim (Option-cases (allocs path)) [
  | inr (a, y) ↦
      let here : some path ≡ some r = sym (rw (y, climb) refl) ∙ e in
      let q : path ≡ r = cc in (([], q ∙ sym (append-nil r), inl refl), (a, sym (ap allocs q) ∙ y))
  | inl none_here ↦ elim (Option-cases (cut_last_slash path)) [
    | inl top ↦ let up : none ≡ some r = sym (rw (none_here, top, climb) refl) ∙ e in cc
    | inr (f, y) ↦
        let up : climb allocs n f ≡ some r = sym (rw (none_here, y, climb) refl) ∙ e in
        let (above, found) = climb-IsAbove allocs n f r up in
        let (t, p) = cut_last_slash_lem path f y in (IsAbove-up r f t path above p, found)
  ]
]

cut_last_slash_shorter : (s f : Bytes) → cut_last_slash s ≡ some f → length f < length s
cut_last_slash_shorter s f e =
    let (t, p) = cut_last_slash_lem s f e in
    let n : length s ≡ length f + length (slash ∷ t) = ap length p ∙ length-append f (slash ∷ t) in
    omega arith

IsAbove-cut : (d u : Bytes) → (g : Bytes) × (cut_last_slash (d ++ slash ∷ u) ≡ some g) × IsAbove d g
IsAbove-cut d u =
    let (g, e, place) = cut_last_slash_below d u in
    (
      g,
      e,
      elim place [
        | inl p ↦ ([], p ∙ sym (append-nil d), inl refl)
        | inr (v, p) ↦ (slash ∷ v, p, inr (v, refl))
      ],
    )

climb_nearest :
    (allocs : Allocs) (n : ℕ) (path d : Bytes) (a : AllocState)
    → length path < n
    → IsAbove d path
    → allocs d ≡ some a
    → (r : Bytes) × (climb allocs n path ≡ some r) × IsAbove d r
unfolding climb
climb_nearest allocs zero path d a h above at = absurd (omega arith)
climb_nearest allocs (suc n) path d a h (rest, e, which) at = elim (Option-cases (allocs path)) [
  | inr (b, here) ↦ (path, rw (here, climb) refl, (rest, e, which))
  | inl none_here ↦ elim which [
    | inl p ↦
        let same : path ≡ d = e ∙ ap (λ l. d ++ l) p ∙ append-nil d in
        let clash : none ≡ some a = sym none_here ∙ ap allocs same ∙ at in cc
    | inr (u, p) ↦
        let (g, c, up) = IsAbove-cut d u in
        let shape : path ≡ d ++ slash ∷ u = e ∙ ap (λ l. d ++ l) p in
        let cut : cut_last_slash path ≡ some g = ap cut_last_slash shape ∙ c in
        let shorter : length g < n = omega (arith, cut_last_slash_shorter path g cut) in
        let (r, found, nearer) = climb_nearest allocs n g d a shorter up at in
        (r, rw (none_here, cut, climb) found, nearer)
  ]
]

-- If there is an allocation at the directory or above it, then `alloc_state_root` finds a place at the
-- directory or above it where an allocation is, and that place is the given one or below it: no
-- allocation is nearer to the directory than the one that is found.
pub alloc_state_root_nearest :
    (allocs : Allocs) (path d : Bytes) (a : AllocState)
    → IsAbove d path
    → allocs d ≡ some a
    → (r : Bytes) × (alloc_state_root allocs path ≡ some r)
      × IsAbove r path
      × ((b : AllocState) × (allocs r ≡ some b))
      × IsAbove d r
alloc_state_root_nearest allocs path d a above at =
    let (r, found, nearer) =
      climb_nearest allocs (suc (length path)) path d a (omega arith) above at in
    let (below, held) = climb-IsAbove allocs (suc (length path)) path r found in
    (r, found, below, held, nearer)
