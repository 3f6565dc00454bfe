-- ===== src/Table/Buckets.antt =====
-- The bucket vectors of dttools/src/hash_table.c and dttools/src/itable.c: where entries stand, what
-- the vector maps a key to, and writes to one bucket.
use mathlib.Core.Path.{subst}
use native.Mathlib.Decide.{ℕ_discrete}
use murphy.Base.{
  ℕ, zero, suc, ◌+◌, ◌<◌, ◌≡◌, refl, Bool, Option, none, List, [], ◌∷◌, arith, length, get_or, set,
  length-set, get_or-set_self, get_or-set_ne, replicate, get_or-replicate, flatten, length-append,
}
use murphy.Table.Chain.{find, ChainOk}

module _ {E : Type 0} where
  -- A write to a bucket changes the number of entries by what the two chains differ in.
  pub length-flatten-set :
      (table : List (List E)) (n : ℕ) (chain : List E)
      → n < length table
      → length chain + length (flatten table)
        ≡ length (get_or table n []) + length (flatten (set table n chain))
  unfolding flatten
  length-flatten-set [] n chain inside = absurd (omega arith)
  length-flatten-set (old ∷ table) zero chain inside = simp length-append (omega arith)
  length-flatten-set (old ∷ table) (suc n) chain inside =
      let rest = length-flatten-set table n chain (omega arith) in
      simp length-append (omega (arith, rest))

  pub flatten-replicate : (n : ℕ) → flatten {A = E} (replicate n []) ≡ []
  unfolding flatten
  flatten-replicate zero = refl
  flatten-replicate (suc n) = flatten-replicate n

-- `slot k n` is the bucket of the key `k` among `n`.
module _ {K E : Type 0} (test : K → E → Bool) (key : E → K) (Good : E → Type 0)
    (slot : K → ℕ → ℕ) where
  -- A good entry that stands in its bucket `i` of `n`.
  abbrev pub InPlace : ℕ → ℕ → E → Type 0
  InPlace n i e = Good e × (slot (key e) n ≡ i)

  abbrev pub IsPlaced : List (List E) → Type 0
  IsPlaced bs = (i : ℕ) → ChainOk key (InPlace (length bs) i) (get_or bs i [])

  abbrev pub home : List (List E) → K → ℕ
  home bs k = slot k (length bs)

  abbrev pub chain_at : List (List E) → K → List E
  chain_at bs k = get_or bs (home bs k) []

  -- The entry under a key.
  abbrev pub view : List (List E) → K → Option E
  view bs k = find test k (chain_at bs k)

  pub replicate-IsPlaced : (n : ℕ) → IsPlaced (replicate n [])
  replicate-IsPlaced n i = rw get_or-replicate (tt, tt)

  pub view-replicate : (n : ℕ) (k : K) → view (replicate n []) k ≡ none
  unfolding find
  view-replicate n k = rw get_or-replicate

  -- A write of the chain `c` to the bucket of `k`.
  module _ (bs : List (List E)) (k : K) (c : List E) (inside : home bs k < length bs) where
    pub set-IsPlaced :
        IsPlaced bs
        → ChainOk key (InPlace (length bs) (home bs k)) c
        → IsPlaced (set bs (home bs k) c)
    set-IsPlaced placed ok i = elim (ℕ_discrete (home bs k) i) [
      | yes e ↦
          subst
            (λ j.
              ChainOk key (InPlace (length (set bs (home bs k) c)) j)
                (get_or (set bs (home bs k) c) j []))
            e (rw (length-set, get_or-set_self bs (home bs k) c [] inside) ok)
      | no ne ↦ rw (length-set, get_or-set_ne bs (home bs k) i c [] ne) (placed i)
    ]

    pub view-set_self : view (set bs (home bs k) c) k ≡ find test k c
    view-set_self = rw (length-set, get_or-set_self bs (home bs k) c [] inside)

    pub view-set_ne :
        (q : K)
        → find test q c ≡ find test q (chain_at bs k)
        → view (set bs (home bs k) c) q ≡ view bs q
    view-set_ne q h = elim (ℕ_discrete (home bs k) (home bs q)) [
      | yes e ↦ rw (length-set, ← e, get_or-set_self bs (home bs k) c [] inside) h
      | no ne ↦ rw (length-set, get_or-set_ne bs (home bs k) (home bs q) c [] ne)
    ]
