-- ===== src/Table/Chain.antt =====
-- One chain of a table: the loops `while(e) { if(…) …; e = e->next; }` of dttools/src/hash_table.c
-- and dttools/src/itable.c over the test that each of them makes.
use murphy.Base.{
  suc, ◌≡◌, ◌≢◌, ◌↔◌, refl, Bool, true, false, Option, none, some, List, [], ◌∷◌, arith,
  if◌then◌else◌, Bool-cases, inl, inr, All, length, ap, sym, ◌∙◌,
}

module _ {K E : Type 0} (test : K → E → Bool) where
  -- the entry at which the loop of `lookup` stops
  unfoldable pub find : K → List E → Option E
  find k [] = none
  find k (e ∷ c) = if test k e then some e else find k c

  -- the entry at which the loop of `remove` stops, unlinked
  unfoldable pub erase : K → List E → List E
  erase k [] = []
  erase k (e ∷ c) = if test k e then c else e ∷ erase k c

  -- the entry at which the loop of `insert` stops, changed in place
  unfoldable pub assign : K → (E → E) → List E → List E
  assign k f [] = []
  assign k f (e ∷ c) = if test k e then f e ∷ c else e ∷ assign k f c

  pub find_hit : (k : K) (e : E) (c : List E) → test k e ≡ true → find k (e ∷ c) ≡ some e
  unfolding find
  find_hit k e c t = rw t

  pub find_miss : (k : K) (e : E) (c : List E) → test k e ≡ false → find k (e ∷ c) ≡ find k c
  unfolding find
  find_miss k e c t = rw t

  pub length-erase :
      (k : K) (c : List E) (e : E) → find k c ≡ some e → suc (length (erase k c)) ≡ length c
  unfolding find erase
  length-erase k [] e h = cc
  length-erase k (x ∷ c) e h = ground (arith, length-erase k c e)

  pub erase-eq : (k : K) (c : List E) → find k c ≡ none → erase k c ≡ c
  unfolding find erase
  erase-eq k [] h = refl
  erase-eq k (x ∷ c) h = ground (arith, erase-eq k c)

  pub length-assign : (k : K) (f : E → E) (c : List E) → length (assign k f c) ≡ length c
  unfolding assign
  length-assign k f [] = refl
  length-assign k f (x ∷ c) = ground (arith, length-assign k f c)

some-ne-none : {A : Type 0} (a : A) → some a ≢ none
some-ne-none a = λ h. cc

pub true-ne-false : true ≢ false
true-ne-false = λ h. cc

-- What the entries of a chain have in common, and no two entries under one key.
module _ {K E : Type 0} (key : E → K) (Good : E → Type 0) where
  abbrev pub Distinct : List E → Type 0
  Distinct [] = Unit
  Distinct (e ∷ c) = All (λ x. key x ≢ key e) c × Distinct c

  abbrev pub ChainOk : List E → Type 0
  ChainOk c = All Good c × Distinct c

-- The laws, for a test that decides the key of a good entry.
module _ {K E : Type 0} (test : K → E → Bool) (key : E → K) (Good : E → Type 0)
    (hit : (k : K) (e : E) → Good e → (test k e ≡ true) ↔ (key e ≡ k)) where
  pub find_absent :
      (k : K) (c : List E) → All Good c → All (λ e. key e ≢ k) c → find test k c ≡ none
  unfolding find
  find_absent k [] g h = refl
  find_absent k (e ∷ c) (ge, gc) (he, hc) = elim (Bool-cases (test k e)) [
    | inl t ↦ absurd (he ((hit k e ge).0 t))
    | inr t ↦ rw t (find_absent k c gc hc)
  ]

  pub absent_of_find :
      (k : K) (c : List E) → All Good c → find test k c ≡ none → All (λ e. key e ≢ k) c
  unfolding find
  absent_of_find k [] g h = tt
  absent_of_find k (e ∷ c) (ge, gc) h = elim (Bool-cases (test k e)) [
    | inl t ↦ absurd (some-ne-none e (sym (find_hit test k e c t) ∙ h))
    | inr t ↦ (
      λ same. absurd (true-ne-false (sym ((hit k e ge).1 same) ∙ t)),
      absent_of_find k c gc (sym (find_miss test k e c t) ∙ h),
    )
  ]

  pub find-erase_self :
      (k : K) (c : List E) → ChainOk key Good c → find test k (erase test k c) ≡ none
  unfolding find erase
  find-erase_self k [] h = refl
  find-erase_self k (e ∷ c) ((ge, gc), (de, dc)) = elim (Bool-cases (test k e)) [
    | inl t ↦ rw (t, ← (hit k e ge).0 t) (find_absent (key e) c gc de)
    | inr t ↦ rw (t, t) (find-erase_self k c (gc, dc))
  ]

  miss_other : (q k : K) (e : E) → Good e → q ≢ k → test k e ≡ true → test q e ≡ false
  miss_other q k e g ne t = elim (Bool-cases (test q e)) [
    | inl s ↦ absurd (ne (sym ((hit q e g).0 s) ∙ (hit k e g).0 t))
    | inr s ↦ s
  ]

  pub find-erase_ne :
      (k q : K) (c : List E)
      → ChainOk key Good c
      → q ≢ k
      → find test q (erase test k c) ≡ find test q c
  unfolding find erase
  find-erase_ne k q [] h ne = refl
  find-erase_ne k q (e ∷ c) ((ge, gc), (de, dc)) ne = elim (Bool-cases (test k e)) [
    | inl t ↦ rw (t, miss_other q k e ge ne t)
    | inr t ↦ rw t (ap (λ r. if test q e then some e else r) (find-erase_ne k q c (gc, dc) ne))
  ]

  All-erase {ℓ} : (P : E → Type ℓ) (k : K) (c : List E) → All P c → All P (erase test k c)
  unfolding erase
  All-erase P k [] h = tt
  All-erase P k (e ∷ c) (he, hc) = elim (Bool-cases (test k e)) [
    | inl t ↦ rw t hc
    | inr t ↦ rw t (he, All-erase P k c hc)
  ]

  pub erase-ChainOk : (k : K) (c : List E) → ChainOk key Good c → ChainOk key Good (erase test k c)
  unfolding erase
  erase-ChainOk k [] h = (tt, tt)
  erase-ChainOk k (e ∷ c) ((ge, gc), (de, dc)) = elim (Bool-cases (test k e)) [
    | inl t ↦ rw t (gc, dc)
    | inr t ↦ rw t (
        let (g, d) = erase-ChainOk k c (gc, dc) in
        ((ge, g), (All-erase (λ x. key x ≢ key e) k c de, d)))
  ]

  -- An assignment that keeps keys and good entries.
  module _ (f : E → E) (keeps : (e : E) → key (f e) ≡ key e) where
    pub find-assign_self :
        (k : K) (c : List E) (e : E)
        → ((x : E) → Good x → Good (f x))
        → ChainOk key Good c
        → find test k c ≡ some e
        → find test k (assign test k f c) ≡ some (f e)
    unfolding find assign
    find-assign_self k [] e good h p = cc
    find-assign_self k (x ∷ c) e good ((gx, gc), (dx, dc)) p = elim (Bool-cases (test k x)) [
      | inl t ↦
          let same : x ≡ e = ground (arith, find_hit test k x c t) in
          rw (t, (hit k (f x) (good x gx)).1 (keeps x ∙ (hit k x gx).0 t), same)
      | inr t ↦ rw (t, t) (find-assign_self k c e good (gc, dc) (sym (find_miss test k x c t) ∙ p))
    ]

    pub find-assign_ne :
        (k q : K) (c : List E)
        → ((x : E) → Good x → Good (f x))
        → ChainOk key Good c
        → q ≢ k
        → find test q (assign test k f c) ≡ find test q c
    unfolding find assign
    find-assign_ne k q [] good h ne = refl
    find-assign_ne k q (e ∷ c) good ((ge, gc), (de, dc)) ne = elim (Bool-cases (test k e)) [
      | inl t ↦ rw (
        t,
        miss_other q k e ge ne t,
        miss_other q k (f e) (good e ge) ne
            ((hit k (f e) (good e ge)).1 (keeps e ∙ (hit k e ge).0 t)),
      )
      | inr t ↦
          rw t (ap (λ r. if test q e then some e else r) (find-assign_ne k q c good (gc, dc) ne))
    ]

    All-assign {ℓ} :
        (P : E → Type ℓ) (k : K) (c : List E)
        → ((x : E) → P x → P (f x))
        → All P c
        → All P (assign test k f c)
    unfolding assign
    All-assign P k [] h p = tt
    All-assign P k (e ∷ c) h (pe, pc) = elim (Bool-cases (test k e)) [
      | inl t ↦ rw t (h e pe, pc)
      | inr t ↦ rw t (pe, All-assign P k c h pc)
    ]

    pub assign-ChainOk :
        (k : K) (c : List E)
        → ((x : E) → Good x → Good (f x))
        → ChainOk key Good c
        → ChainOk key Good (assign test k f c)
    unfolding assign
    assign-ChainOk k [] good h = (tt, tt)
    assign-ChainOk k (e ∷ c) good ((ge, gc), (de, dc)) = elim (Bool-cases (test k e)) [
      | inl t ↦ rw t ((good e ge, gc), (rw (keeps e) de, dc))
      | inr t ↦ rw t (
          let (g, d) = assign-ChainOk k c good (gc, dc) in
          ((ge, g), (All-assign (λ x. key x ≢ key e) k c (λ x p. rw (keeps x) p) de, d)))
    ]
