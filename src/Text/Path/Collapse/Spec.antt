-- ===== src/Text/Path/Collapse/Spec.antt =====
-- A path by its components, and `string_collapse_path` as the walk over them.
use mathlib.Core.List.{reverse-cons}
use mathlib.Core.Path.{subst}
use murphy.Base.{
  ℕ, ◌≡◌, refl, Bool, ◌&&◌, ◌||◌, List, [], ◌∷◌, ◌++◌, reverse, reverse-append, reverse-reverse,
  Bytes, codes, str_eq, All, All-append, if◌then◌else◌, sym, ap, ◌∙◌, append_assoc, append-nil,
  Bool-cases, inl, inr,
}
use murphy.Text.Ends.{remove_trailing_slashes}
use murphy.Text.Path.{slash, pop, collapse, collapse_path}
use murphy.Text.Path.Collapse.Components.{
  NoSlash, join, ends-join, enter, collapse-append, collapse-component,
}

-- What stands before the first slash, and the directories below it, the last first.
pub record Place : Type 0 where
  pub first : Bytes
  pub names : List Bytes

abbrev pub NoSlashes : Place → Type 0
NoSlashes p = NoSlash p.first × All NoSlash p.names

-- One directory up; above the topmost nothing is left.
abbrev pub parent : Bytes → List Bytes → Place
parent first [] = record { first = []; names = [] }
parent first (n ∷ ns) = record { first = first; names = ns }

-- Empty components and `.` stay where they are, and `..` goes up if it is to be resolved.
abbrev pub visit : Bool → Place → Bytes → Place
visit dotdot p c =
    if str_eq c [] || str_eq c (codes ".")
    then p
    else if dotdot && str_eq c (codes "..")
    then parent p.first p.names
    else record p { names = c ∷ p.names }

abbrev pub resolve : Bool → Place → List Bytes → Place
resolve dotdot p [] = p
resolve dotdot p (c ∷ cs) = resolve dotdot (visit dotdot p c) cs

abbrev pub text : Place → Bytes
text p = p.first ++ join (reverse p.names)

-- The root is not written as nothing.
abbrev pub or_root : Bytes → Bytes
or_root [] = slash ∷ []
or_root (c ∷ s) = c ∷ s

-- The text of a place, last byte first, as the loop builds it.
abbrev written : Bytes → List Bytes → Bytes
written first [] = reverse first
written first (n ∷ ns) = reverse n ++ slash ∷ written first ns

All-reverse : (w : Bytes) → NoSlash w → NoSlash (reverse w)
All-reverse [] h = tt
All-reverse (c ∷ w) (hc, hw) =
    subst NoSlash (sym (reverse-cons c w))
      (All-append _ (reverse w) (c ∷ []) (All-reverse w hw) (hc, tt))

pop-append : (w out : Bytes) → NoSlash w → pop (w ++ out) ≡ pop out
unfolding pop
pop-append [] out h = refl
pop-append (c ∷ w) out (hc, hw) = rw hc (pop-append w out hw)

pop-slash : (out : Bytes) → pop (slash ∷ out) ≡ out
unfolding pop
pop-slash out = refl

pop_all : (w : Bytes) → NoSlash w → pop w ≡ []
unfolding pop
pop_all [] h = refl
pop_all (c ∷ w) (hc, hw) = rw hc (pop_all w hw)

pop-written :
    (first : Bytes) (names : List Bytes)
    → NoSlash first
    → All NoSlash names
    → pop (written first names) ≡ written (parent first names).first (parent first names).names
pop-written first [] hf hn = pop_all (reverse first) (All-reverse first hf)
pop-written first (n ∷ ns) hf (hn, hns) =
    pop-append (reverse n) (slash ∷ written first ns) (All-reverse n hn)
    ∙ pop-slash (written first ns)

enter-written :
    (d : Bool) (p : Place) (c : Bytes)
    → NoSlashes p
    → enter d (written p.first p.names) c ≡ written (visit d p c).first (visit d p c).names
unfolding enter
enter-written d p c (hf, hn) = elim (Bool-cases (str_eq c [] || str_eq c (codes "."))) [
  | inl t ↦ rw t
  | inr t ↦ elim (Bool-cases (d && str_eq c (codes ".."))) [
    | inl u ↦ rw (t, u) (pop-written p.first p.names hf hn)
    | inr u ↦ rw (t, u)
  ]
]

visit-NoSlashes :
    (d : Bool) (p : Place) (c : Bytes) → NoSlashes p → NoSlash c → NoSlashes (visit d p c)
visit-NoSlashes d p c h hc = elim (Bool-cases (str_eq c [] || str_eq c (codes "."))) [
  | inl t ↦ rw t h
  | inr t ↦ elim (Bool-cases (d && str_eq c (codes ".."))) [
    | inl u ↦ rw (t, u) (parent-NoSlashes p.first p.names h.0 h.1)
    | inr u ↦ rw (t, u) (h.0, (hc, h.1))
  ]
]
  where
    parent-NoSlashes :
        (f : Bytes) (ns : List Bytes) → NoSlash f → All NoSlash ns → NoSlashes (parent f ns)
    parent-NoSlashes f [] hf hn = (tt, tt)
    parent-NoSlashes f (n ∷ ns) hf hn = (hf, hn.1)

collapse-resolve :
    (d : Bool) (p : Place) (cs : List Bytes)
    → NoSlashes p
    → All NoSlash cs
    → collapse d 0 (join cs) (written p.first p.names)
      ≡ written (resolve d p cs).first (resolve d p cs).names
collapse-resolve d p [] h hs = unfold collapse in refl
collapse-resolve d p (c ∷ cs) h (hc, hs) =
    collapse-component d c (join cs) (written p.first p.names) hc (ends-join cs)
    ∙ ap (collapse d 0 (join cs)) (enter-written d p c h)
    ∙ collapse-resolve d (visit d p c) cs (visit-NoSlashes d p c h hc) hs

join-append : (xs ys : List Bytes) → join (xs ++ ys) ≡ join xs ++ join ys
join-append [] ys = refl
join-append (x ∷ xs) ys =
    ap (λ l. slash ∷ (x ++ l)) (join-append xs ys)
    ∙ ap (λ l. slash ∷ l) (sym (append_assoc x (join xs) (join ys)))

reverse-written :
    (first : Bytes) (names : List Bytes)
    → reverse (written first names) ≡ first ++ join (reverse names)
reverse-written first [] = reverse-reverse first ∙ sym (append-nil first)
reverse-written first (n ∷ ns) =
    reverse-append (reverse n) (slash ∷ written first ns)
    ∙ ap (λ l. reverse (slash ∷ written first ns) ++ l) (reverse-reverse n)
    ∙ ap (λ l. l ++ n) (reverse-cons slash (written first ns))
    ∙ append_assoc (reverse (written first ns)) (slash ∷ []) n
    ∙ ap (λ l. l ++ slash ∷ n) (reverse-written first ns)
    ∙ append_assoc first (join (reverse ns)) (slash ∷ n)
    ∙ ap (λ l. first ++ l)
        (ap (λ l. join (reverse ns) ++ slash ∷ l) (sym (append-nil n))
          ∙ sym (join-append (reverse ns) (n ∷ []))
          ∙ ap join (sym (reverse-cons n ns)))

or_root-append : (s : Bytes) (c : ℕ) → or_root (s ++ c ∷ []) ≡ s ++ c ∷ []
or_root-append [] c = refl
or_root-append (x ∷ s) c = refl

-- How the code finishes what the loop has built.
collapse_path-reverse :
    (d : Bool) (l : Bytes) → collapse_path d l ≡ or_root (reverse (collapse d 0 l []))
unfolding collapse_path remove_trailing_slashes
collapse_path-reverse d l = go (collapse d 0 l [])
  where
    go :
        (o : Bytes)
        → (elim o [ [] ↦ slash ∷ [] | c ∷ out ↦ reverse (c ∷ out) ++ remove_trailing_slashes [] ])
          ≡ or_root (reverse o)
    go [] = refl
    go (c ∷ out) =
        append-nil (reverse (c ∷ out))
        ∙ reverse-cons c out
        ∙ sym (or_root-append (reverse out) c)
        ∙ sym (ap or_root (reverse-cons c out))

-- Whatever components a path has, `string_collapse_path` writes the place that the walk over them
-- reaches: empty components and `.` are passed over and, where it is asked for, `..` goes up.
pub collapse_path-resolve :
    (d : Bool) (first : Bytes) (cs : List Bytes)
    → NoSlash first
    → All NoSlash cs
    → collapse_path d (first ++ join cs)
      ≡ or_root (text (resolve d (record { first = first; names = [] }) cs))
collapse_path-resolve d first cs hf hs =
    let start : Place = record { first = first; names = [] } in
    let done = resolve d start cs in
    collapse_path-reverse d (first ++ join cs)
    ∙ ap (λ o. or_root (reverse o))
        (collapse-append d first (join cs) [] hf
          ∙ ap (collapse d 0 (join cs)) (append-nil (reverse first))
          ∙ collapse-resolve d start cs (hf, tt) hs)
    ∙ ap or_root (reverse-written done.first done.names)
