-- ===== src/Text/Path/Split.antt =====
-- `string_split_path` and `string_dirname` of dttools/src/stringtools.c.
use murphy.Base.{
  ◌≡◌, ◌⊎◌, inl, inr, refl, none, some, [], ◌∷◌, ◌++◌, Bytes, ◌==◌, ==_iff, sym, ap, ◌∙◌,
  append-nil, Bool-cases, Option-cases,
}
use murphy.Text.Path.{
  slash, dot, skip_slashes, copy_until, lead, is_slash, split_path, cut_last_slash, dirname,
}
use murphy.Text.Path.Collapse.Components.{NoSlash}

copy_until_lem :
    (s : Bytes)
    → NoSlash (copy_until is_slash s).0
      × ((copy_until is_slash s).0 ++ (copy_until is_slash s).1 ≡ s)
unfolding copy_until
copy_until_lem [] = (tt, refl)
copy_until_lem (c ∷ s) = elim (Bool-cases (c == slash)) [
  | inl t ↦ rw t (tt, refl)
  | inr t ↦ let (h, e) = copy_until_lem s in rw t ((t, h), ap (λ l. c ∷ l) e)
]

lead_lem :
    (s : Bytes)
    → ((t : Bytes) × (lead is_slash s ≡ slash ∷ t))
      × ((lead is_slash s ≡ s) ⊎ (lead is_slash s ≡ slash ∷ s))
unfolding lead
lead_lem [] = (([], refl), inr refl)
lead_lem (c ∷ s) = elim (Bool-cases (c == slash)) [
  | inl t ↦ rw t ((s, ap (λ a. a ∷ s) ((==_iff c slash).0 t)), inl refl)
  | inr t ↦ rw t ((c ∷ s, refl), inr refl)
]

-- The copy stops at a slash or at the end.
copy_until_stops :
    (s : Bytes)
    → ((copy_until is_slash s).1 ≡ []) ⊎ ((t : Bytes) × ((copy_until is_slash s).1 ≡ slash ∷ t))
unfolding copy_until
copy_until_stops [] = inl refl
copy_until_stops (c ∷ s) = elim (Bool-cases (c == slash)) [
  | inl t ↦ rw t (inr (s, ap (λ a. a ∷ s) ((==_iff c slash).0 t)))
  | inr t ↦ rw t (copy_until_stops s)
]

lead_stopped :
    (f r s : Bytes)
    → f ++ r ≡ s
    → (r ≡ []) ⊎ ((t : Bytes) × (r ≡ slash ∷ t))
    → (f ++ lead is_slash r ≡ s) ⊎ (f ++ lead is_slash r ≡ s ++ slash ∷ [])
unfolding lead
lead_stopped f r s e (inl p) = inr (
    ap (λ x. f ++ lead is_slash x) p
    ∙ ap (λ x. x ++ slash ∷ []) (sym (append-nil f) ∙ ap (λ x. f ++ x) (sym p) ∙ e))
lead_stopped f r s e (inr (t, p)) =
    inl (ap (λ x. f ++ lead is_slash x) p ∙ sym (ap (λ x. f ++ x) p) ∙ e)

-- `string_split_path` gives a first element with no slash and a rest that starts with one. Together
-- they spell the path without its leading slashes, with a slash added if the path has no other.
pub split_path_lem :
    (s : Bytes)
    → NoSlash (split_path s).0
      × ((t : Bytes) × ((split_path s).1 ≡ slash ∷ t))
      × (((split_path s).0 ++ (split_path s).1 ≡ skip_slashes s)
          ⊎ ((split_path s).0 ++ (split_path s).1 ≡ skip_slashes s ++ slash ∷ []))
unfolding split_path
split_path_lem s =
    let (h, e) = copy_until_lem (skip_slashes s) in
    let r = (copy_until is_slash (skip_slashes s)).1 in
    (
      h,
      (lead_lem r).0,
      lead_stopped (copy_until is_slash (skip_slashes s)).0 r (skip_slashes s) e
          (copy_until_stops (skip_slashes s)),
    )

cut_last_slash-none : (s : Bytes) → NoSlash s → cut_last_slash s ≡ none
unfolding cut_last_slash
cut_last_slash-none [] h = refl
cut_last_slash-none (c ∷ s) (hc, hs) = rw (cut_last_slash-none s hs, cut_last_slash, hc)

cut_last_slash-append :
    (dir base : Bytes) → NoSlash base → cut_last_slash (dir ++ slash ∷ base) ≡ some dir
unfolding cut_last_slash
cut_last_slash-append [] base h = rw (cut_last_slash-none base h, cut_last_slash)
cut_last_slash-append (c ∷ dir) base h = rw (cut_last_slash-append dir base h, cut_last_slash)

-- What is cut off is a slash and what follows it.
pub cut_last_slash_lem :
    (s f : Bytes) → cut_last_slash s ≡ some f → (t : Bytes) × (s ≡ f ++ slash ∷ t)
unfolding cut_last_slash
cut_last_slash_lem [] f e = cc
cut_last_slash_lem (c ∷ s) f e = elim (Option-cases (cut_last_slash s)) [
  | inr (g, y) ↦
      let (t, p) = cut_last_slash_lem s g y in
      let shape : some (c ∷ g) ≡ some f = sym (rw (y, cut_last_slash) refl) ∙ e in
      let q : c ∷ g ≡ f = cc in (t, ap (λ l. c ∷ l) p ∙ ap (λ l. l ++ slash ∷ t) q)
  | inl n ↦ elim (Bool-cases (c == slash)) [
    | inl b ↦
        let here : some [] ≡ some f = sym (rw (n, cut_last_slash, b) refl) ∙ e in
        let q : [] ≡ f = cc in
        let c_slash : c ≡ slash = (==_iff c slash).0 b in
        (s, ap (λ x. x ∷ s) c_slash ∙ ap (λ l. l ++ slash ∷ s) q)
    | inr b ↦ let here : none ≡ some f = sym (rw (n, cut_last_slash, b) refl) ∙ e in cc
  ]
]

-- A path that goes on behind `d` with a slash is cut at or behind the end of `d`.
pub cut_last_slash_below :
    (d u : Bytes)
    → (g : Bytes) × (cut_last_slash (d ++ slash ∷ u) ≡ some g)
      × ((g ≡ d) ⊎ ((v : Bytes) × (g ≡ d ++ slash ∷ v)))
unfolding cut_last_slash
cut_last_slash_below [] u = elim (Option-cases (cut_last_slash u)) [
  | inl n ↦ ([], rw (n, cut_last_slash) refl, inl refl)
  | inr (v, y) ↦ (slash ∷ v, rw (y, cut_last_slash) refl, inr (v, refl))
]
cut_last_slash_below (c ∷ d) u =
    let (g, e, place) = cut_last_slash_below d u in
    (
      c ∷ g,
      rw (e, cut_last_slash) refl,
      elim place [ inl p ↦ inl (ap (λ l. c ∷ l) p) | inr (v, p) ↦ inr (v, ap (λ l. c ∷ l) p) ],
    )

-- The root is not written as nothing.
abbrev pub or_root : Bytes → Bytes
or_root [] = slash ∷ []
or_root (c ∷ s) = c ∷ s

-- `string_dirname` is what stands before the last slash, or the root if that is empty, and `.` for a
-- path with no slash.
pub dirname_lem :
    (dir base : Bytes)
    → NoSlash base
    → (dirname (dir ++ slash ∷ base) ≡ or_root dir) × (dirname base ≡ dot ∷ [])
unfolding dirname
dirname_lem [] base h =
    (rw (cut_last_slash-append [] base h, dirname), rw (cut_last_slash-none base h, dirname))
dirname_lem (c ∷ dir) base h =
    (rw (cut_last_slash-append (c ∷ dir) base h, dirname), rw (cut_last_slash-none base h, dirname))
