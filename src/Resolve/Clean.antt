-- ===== src/Resolve/Clean.antt =====
-- `clean_up_path` of parrot/src/pfs_resolve.c comes to an end.
use mathlib.Core.Path.{subst}
use murphy.Base.{
  ◌-◌, ℕ, zero, suc, ◌+◌, ◌≤◌, ◌<◌, ◌≡◌, refl, sym, ap, true, false, none, some, [], ◌∷◌, ◌++◌,
  Bytes, length, drop, arith, Bool-cases, Option-cases, inl, inr,
}
use murphy.Resolve.{}
use murphy.Text.Path.{slash}
use murphy.Resolve.Path.{
  cut_scheme, scan_scheme, buffer_prefix, clean_up_path, rounds, cleaned, or_same, renamed,
}
use murphy.Text.Match.{starts_with}

-- A path on which `clean_up_path` has nothing to do.
abbrev pub IsClean : Bytes → Type 0
IsClean path = (starts_with buffer_prefix path ≡ false) × (scan_scheme path ≡ none)

-- Such is every absolute path.
pub absolute-IsClean : (s : Bytes) → IsClean (slash ∷ s)
unfolding starts_with scan_scheme cut_scheme
absolute-IsClean s = (refl, refl)

clean-IsClean : (n : ℕ) (path : Bytes) → 0 < n → IsClean path → clean_up_path n path ≡ some path
unfolding clean_up_path
clean-IsClean zero path z h = absurd (omega arith)
clean-IsClean (suc n) path z (h, k) = rw (h, k) refl

starts_with-length : (h t : Bytes) → starts_with h t ≡ true → length h ≤ length t
unfolding starts_with
starts_with-length [] t e = omega arith
starts_with-length (c ∷ h) [] e = absurd (grind arith)
starts_with-length (c ∷ h) (d ∷ t) e =
    let k : starts_with h t ≡ true = ground arith in omega (arith, starts_with-length h t k)

length-drop : (n : ℕ) (s : Bytes) → length (drop n s) ≡ length s - n
length-drop zero s = omega arith
length-drop (suc n) [] = omega arith
length-drop (suc n) (c ∷ s) = omega (arith, length-drop n s)

clean_up_path-IsClean :
    (n : ℕ) (path : Bytes)
    → length path + 2 ≤ n
    → (q : Bytes) × (clean_up_path n path ≡ some q) × IsClean q
unfolding clean_up_path
clean_up_path-IsClean zero path h = absurd (omega arith)
clean_up_path-IsClean (suc n) path h = elim (Bool-cases (starts_with buffer_prefix path)) [
  | inl t ↦
      let l = starts_with-length buffer_prefix path t in
      rw t (clean_up_path-IsClean n (drop 7 path) (omega (arith, l, length-drop 7 path)))
  | inr t ↦ elim (Option-cases (scan_scheme path)) [
    | inl u ↦ rw (t, u) (path, refl, (t, u))
    | inr (p, u) ↦
        let next = slash ∷ renamed p.0 ++ slash ∷ p.1 in
        let k = absolute-IsClean (renamed p.0 ++ slash ∷ p.1) in
        rw (t, u) (next, clean-IsClean n next (omega arith) k, k)
  ]
]

-- `clean_up_path` ends on every path, within its length and two rounds, and leaves a path on which it
-- has nothing more to do.
pub clean_up_path_lem :
    (path : Bytes) → (q : Bytes) × (clean_up_path (rounds path) path ≡ some q) × IsClean q
clean_up_path_lem path = clean_up_path-IsClean (rounds path) path (omega arith)

pub cleaned-IsClean : (path : Bytes) → IsClean (cleaned path)
cleaned-IsClean path =
    let (q, e, k) = clean_up_path_lem path in subst IsClean (sym (ap (or_same path) e)) k

pub cleaned_clean : (path : Bytes) → IsClean path → cleaned path ≡ path
cleaned_clean path k = ap (or_same path) (clean-IsClean (rounds path) path (omega arith) k)
