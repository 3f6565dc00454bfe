-- ===== src/Text/Path/Collapse/Fixed.antt =====
-- `string_collapse_path` leaves a collapsed path as it is.
use mathlib.Core.List.{reverse-cons}
use mathlib.Core.Path.{subst, ap₂}
use murphy.Base.{
  ◌≡◌, refl, Bool, false, ◌&&◌, ◌||◌, List, [], ◌∷◌, ◌++◌, reverse, reverse-reverse, Bytes, codes,
  str_eq, All, All-append, ◌==◌, ==_iff, if◌then◌else◌, sym, ap, ◌∙◌, append_assoc, append-nil,
  Bool-cases, inl, inr,
}
use murphy.Text.Path.{slash, collapse_path}
use murphy.Text.Path.Collapse.Components.{NoSlash, join}
use murphy.Text.Path.Collapse.Spec.{
  Place, parent, visit, resolve, text, or_root, collapse_path-resolve,
}

-- Every string is some bytes before the first slash and components behind it.
abbrev pub Cut : Type 0
Cut = Bytes × List Bytes

cut : Bytes → Cut
cut [] = ([], [])
cut (c ∷ s) = let (f, cs) = cut s in if c == slash then ([], f ∷ cs) else (c ∷ f, cs)

cut_lem :
    (s : Bytes) → (s ≡ (cut s).0 ++ join (cut s).1) × NoSlash (cut s).0 × All NoSlash (cut s).1
unfolding cut
cut_lem [] = (refl, tt, tt)
cut_lem (c ∷ s) =
    let (e, hf, hs) = cut_lem s in
    elim (Bool-cases (c == slash)) [
      | inl t ↦ rw t (ap₂ ◌∷◌ ((==_iff c slash).0 t) e, tt, (hf, hs))
      | inr t ↦ rw t (ap (λ l. c ∷ l) e, (t, hf), hs)
    ]

-- A component that a walk keeps.
abbrev pub IsPlain : Bool → Bytes → Type 0
IsPlain d c =
    NoSlash c
    × ((str_eq c [] || str_eq c (codes ".")) ≡ false)
    × ((d && str_eq c (codes "..")) ≡ false)

abbrev IsCollapsed : Bool → Place → Type 0
IsCollapsed d p = NoSlash p.first × All (IsPlain d) p.names

visit-IsCollapsed :
    (d : Bool) (p : Place) (c : Bytes) → IsCollapsed d p → NoSlash c → IsCollapsed d (visit d p c)
visit-IsCollapsed d p c (hf, hn) hc = elim (Bool-cases (str_eq c [] || str_eq c (codes "."))) [
  | inl t ↦ rw t (hf, hn)
  | inr t ↦ elim (Bool-cases (d && str_eq c (codes ".."))) [
    | inl u ↦ rw (t, u) (parent-IsCollapsed p.first p.names hf hn)
    | inr u ↦ rw (t, u) (hf, ((hc, t, u), hn))
  ]
]
  where
    parent-IsCollapsed :
        (f : Bytes) (ns : List Bytes) → NoSlash f → All (IsPlain d) ns → IsCollapsed d (parent f ns)
    parent-IsCollapsed f [] hf' hn' = (tt, tt)
    parent-IsCollapsed f (n ∷ ns) hf' hn' = (hf', hn'.1)

resolve-IsCollapsed :
    (d : Bool) (p : Place) (cs : List Bytes)
    → IsCollapsed d p
    → All NoSlash cs
    → IsCollapsed d (resolve d p cs)
resolve-IsCollapsed d p [] h hs = h
resolve-IsCollapsed d p (c ∷ cs) h (hc, hs) =
    resolve-IsCollapsed d (visit d p c) cs (visit-IsCollapsed d p c h hc) hs

-- Plain components are all kept.
resolve_plain :
    (d : Bool) (first : Bytes) (ns cs : List Bytes)
    → All (IsPlain d) cs
    → resolve d (record { first = first; names = ns }) cs
      ≡ record { first = first; names = reverse cs ++ ns }
resolve_plain d first ns [] h = refl
resolve_plain d first ns (c ∷ cs) ((hc, t, u), hs) =
    rw (t, u)
      (resolve_plain d first (c ∷ ns) cs hs
        ∙ ap (λ l. record { first = first; names = l })
            (sym (ap (λ l. l ++ ns) (reverse-cons c cs) ∙ append_assoc (reverse cs) (c ∷ []) ns)))

IsPlain-NoSlash : (d : Bool) (cs : List Bytes) → All (IsPlain d) cs → All NoSlash cs
IsPlain-NoSlash d [] h = tt
IsPlain-NoSlash d (c ∷ cs) (hc, hs) = (hc.0, IsPlain-NoSlash d cs hs)

IsPlain-reverse : (d : Bool) (cs : List Bytes) → All (IsPlain d) cs → All (IsPlain d) (reverse cs)
IsPlain-reverse d [] h = tt
IsPlain-reverse d (c ∷ cs) (hc, hs) =
    subst (All (IsPlain d)) (sym (reverse-cons c cs))
      (All-append (IsPlain d) (reverse cs) (c ∷ []) (IsPlain-reverse d cs hs) (hc, tt))

-- The walk over the text of a collapsed place comes back to it.
collapse_path-text :
    (d : Bool) (p : Place) → IsCollapsed d p → collapse_path d (text p) ≡ or_root (text p)
collapse_path-text d p (hf, hn) =
    let plain = IsPlain-reverse d p.names hn in
    collapse_path-resolve d p.first (reverse p.names) hf (IsPlain-NoSlash d (reverse p.names) plain)
    ∙ ap (λ q. or_root (text q))
        (resolve_plain d p.first [] (reverse p.names) plain
          ∙ ap (λ l. record { first = p.first; names = l })
              (append-nil (reverse (reverse p.names)) ∙ reverse-reverse p.names))

collapse_path_root : (d : Bool) → collapse_path d (slash ∷ []) ≡ slash ∷ []
collapse_path_root d = collapse_path-resolve d [] ([] ∷ []) tt (tt, tt)

collapse_path-or_root :
    (d : Bool) (s : Bytes) → collapse_path d s ≡ or_root s → collapse_path d (or_root s) ≡ or_root s
collapse_path-or_root d [] h = collapse_path_root d
collapse_path-or_root d (c ∷ s) h = h

-- Collapsing a path twice is collapsing it once, for every path and both settings.
pub collapse_path-collapse_path :
    (d : Bool) (s : Bytes) → collapse_path d (collapse_path d s) ≡ collapse_path d s
collapse_path-collapse_path d s =
    let (e, hf, hs) = cut_lem s in
    let p = resolve d (record { first = (cut s).0; names = [] }) (cut s).1 in
    let once : collapse_path d s ≡ or_root (text p) =
      ap (collapse_path d) e ∙ collapse_path-resolve d (cut s).0 (cut s).1 hf hs in
    ap (collapse_path d) once
    ∙ collapse_path-or_root d (text p)
        (collapse_path-text d p (resolve-IsCollapsed d _ (cut s).1 (hf, tt) hs))
    ∙ sym once
