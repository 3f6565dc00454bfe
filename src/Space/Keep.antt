-- ===== src/Space/Keep.antt =====
-- Facts about single allocations that the calls of chirp/src/chirp_alloc.c keep in all of them.
use mathlib.Core.Path.{subst}
use murphy.Base.{
  if_cases, ◌≡◌, ◌∙◌, sym, ap, refl, Bool, true, false, Option, none, some, Bytes, str_eq, arith,
  Bool-cases, Option-cases, inl, inr, if◌then◌else◌,
}
use murphy.Base.Int.{ℤ, ◌-ℤ◌, ◌≤ℤ◌, leb_ℤ}
use murphy.Space.{
  Cfs, AllocState, Allocs, Server, alloc_state_update, assign_state, alloc_state_root,
  alloc_state_cache_exact, space_consumed, is_negative, charge,
}
use murphy.Space.File.{resize}

-- What `alloc_state_cache_exact` returns is an allocation and its directory.
pub exact_state :
    (allocs : Allocs) (path d : Bytes) (a : AllocState)
    → alloc_state_cache_exact allocs path ≡ some (d, a)
    → allocs d ≡ some a
unfolding alloc_state_cache_exact
exact_state allocs path d a e = elim (Option-cases (alloc_state_root allocs path)) [
  | inl n ↦ let e' : none ≡ some (d, a) = sym (rw (n, alloc_state_cache_exact) refl) ∙ e in cc
  | inr (r, y) ↦ elim (Option-cases (allocs r)) [
    | inl n ↦ let e' : none ≡ some (d, a) = sym (rw (y, n, alloc_state_cache_exact) refl) ∙ e in cc
    | inr (b, z) ↦
        let e' : some (r, b) ≡ some (d, a) = sym (rw (y, z, alloc_state_cache_exact) refl) ∙ e in
        let p : r ≡ d = cc in let q : b ≡ a = cc in sym (ap allocs p) ∙ z ∙ ap some q
  ]
]

-- Every allocation has the property.
abbrev pub AllHave : (AllocState → Type 0) → Allocs → Type 0
AllHave P allocs = (d : Bytes) (a : AllocState) → allocs d ≡ some a → P a

abbrev pub Holds : (AllocState → Type 0) → Option AllocState → Type 0
Holds P none = Unit
Holds P (some a) = P a

-- The same, said of the state at each directory.
abbrev pub Every : (AllocState → Type 0) → Allocs → Type 0
Every P allocs = (d : Bytes) → Holds P (allocs d)

module _ (P : AllocState → Type 0) where
  to_Holds : (x : Option AllocState) → ((a : AllocState) → x ≡ some a → P a) → Holds P x
  to_Holds none h = tt
  to_Holds (some a) h = h a refl

  of_Holds : (x : Option AllocState) (a : AllocState) → Holds P x → x ≡ some a → P a
  of_Holds none a h e = cc
  of_Holds (some b) a h e = let p : b ≡ a = cc in subst P p h

  pub to_Every : (allocs : Allocs) → AllHave P allocs → Every P allocs
  to_Every allocs h d = to_Holds (allocs d) (h d)

  pub of_Every : (allocs : Allocs) → Every P allocs → AllHave P allocs
  of_Every allocs h d a e = of_Holds (allocs d) a (h d) e

  pub assign_state-AllHave :
      (allocs : Allocs) (d : Bytes) (a : AllocState)
      → P a
      → AllHave P allocs
      → AllHave P (assign_state allocs d (some a))
  assign_state-AllHave allocs d a p h q b e = elim (Bool-cases (str_eq d q)) [
    | inl t ↦ let e' : some a ≡ some b = sym (rw t refl) ∙ e in let s : a ≡ b = cc in subst P s p
    | inr t ↦ h q b (sym (rw t refl) ∙ e)
  ]

  pub unassign-AllHave :
      (allocs : Allocs) (d : Bytes) → AllHave P allocs → AllHave P (assign_state allocs d none)
  unassign-AllHave allocs d h q b e = elim (Bool-cases (str_eq d q)) [
    | inl t ↦ let e' : none ≡ some b = sym (rw t refl) ∙ e in cc
    | inr t ↦ h q b (sym (rw t refl) ∙ e)
  ]

  module _ {S : Type 0} where
    abbrev pub Keeps : ℤ × Server S → Type 0
    Keeps r = AllHave P r.1.allocs

    abbrev pub KeepsAny : Option (ℤ × Server S) → Type 0
    KeepsAny none = Unit
    KeepsAny (some r) = Keeps r

    -- An answer after which the state may have been charged.
    pub charge-Keeps :
        (b : Bool) (r : ℤ) (d : Bytes) (a : AllocState) (c : ℤ) (w w' : Server S)
        → P (alloc_state_update a c)
        → AllHave P w.allocs
        → AllHave P w'.allocs
        → Keeps (r, if b then charge d a c w else w')
    charge-Keeps true r d a c w w' p h k = assign_state-AllHave w.allocs d _ p h
    charge-Keeps false r d a c w w' p h k = k

    module _ (cfs : Cfs S)
        (step : (a : AllocState) (c : ℤ) → P a → c ≤ℤ a.avail → P (alloc_state_update a c)) where
      pub resize-Keeps :
          (ok : ℤ → Bool) (f : S → ℤ × S) (d : Bytes) (a : AllocState) (old new : ℤ) (w : Server S)
          → P a
          → AllHave P w.allocs
          → Keeps (resize cfs ok f d a old new w)
      unfolding resize
      resize-Keeps ok f d a old new w p h =
          let c = space_consumed new -ℤ space_consumed old in
          if_cases Keeps (is_negative old) _ _ (λ n. h)
            (λ n.
              if_cases Keeps (leb_ℤ c a.avail) _ _
                (λ fits.
                  charge-Keeps (ok (f w.world).0) (f w.world).0 d a c _ _ (step a c p (grind arith))
                    h h)
                (λ tight. h))
