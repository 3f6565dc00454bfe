-- ===== src/Space/Bounds.antt =====
-- What calls of chirp/src/chirp_alloc.c, one behind the other, keep true of every allocation.
use mathlib.Core.Path.{subst}
use murphy.Base.{
  sym, ◌∙◌, Option-cases, inl, inr, ◌≡◌, refl, Option, none, some, arith, List, [], ◌∷◌, All,
}
use murphy.Base.Int.{ℤ, pos, ◌≤ℤ◌, int_laws}
use murphy.Space.{Cfs, AllocState, Server, alloc_state_update, new_state}
use murphy.Space.Amount.{IsBalanced, IsWithin, update-IsBalanced, update-IsWithin}
use murphy.Space.Call.{
  Call, run, pwrites, ftruncates, truncates, opens, closes, unlinks, putfiles, renames, mkallocs,
  rmdirs,
}
use murphy.Space.File.{negated}
use murphy.Space.Keep.{AllHave, KeepsAny, Every, to_Every, of_Every}
use murphy.Space.Invariant.{
  pwrite-Keeps, ftruncate-Keeps, truncate-Keeps, close-Keeps, unlink-Keeps, open-Keeps, rmdir-Keeps,
  mkalloc-Keeps, putfile-Keeps, rename-Keeps,
}

-- The calls that compare what they are about to use with the free space.
abbrev pub IsCareful : Call → Type 0
IsCareful (putfiles path length) = ⊥
IsCareful (renames oldpath newpath) = ⊥
IsCareful (mkallocs path size) = pos 0 ≤ℤ size
IsCareful c = Unit

new-IsBalanced : (size : ℤ) → IsBalanced (new_state size)
new-IsBalanced size = (refl, omega arith)

new-IsWithin : (size : ℤ) → pos 0 ≤ℤ size → IsWithin (new_state size)
new-IsWithin size h = (new-IsBalanced size, h)

step-IsBalanced :
    (a : AllocState) (c : ℤ) → IsBalanced a → c ≤ℤ a.avail → IsBalanced (alloc_state_update a c)
step-IsBalanced a c p q = update-IsBalanced a c p

lower-IsBalanced :
    (a : AllocState) (n : ℤ)
    → IsBalanced a
    → pos 0 ≤ℤ n
    → IsBalanced (alloc_state_update a (negated n))
lower-IsBalanced a n p q = update-IsBalanced a (negated n) p

lower-IsWithin :
    (a : AllocState) (n : ℤ) → IsWithin a → pos 0 ≤ℤ n → IsWithin (alloc_state_update a (negated n))
lower-IsWithin a n ((e, p), q) h =
    update-IsWithin a (negated n) ((e, p), q) (subst (λ x. negated n ≤ℤ x) (sym e) (omega int_laws))

module _ {S : Type 0} (cfs : Cfs S) where
  kept-IsBalanced :
      (c : Call) (w : Server S) → AllHave IsBalanced w.allocs → KeepsAny IsBalanced (run cfs c w)
  unfolding run
  kept-IsBalanced (pwrites fd bytes length offset) w h =
      pwrite-Keeps cfs IsBalanced step-IsBalanced fd bytes length offset w h
  kept-IsBalanced (ftruncates fd length) w h =
      ftruncate-Keeps cfs IsBalanced step-IsBalanced fd length w h
  kept-IsBalanced (truncates path length) w h =
      truncate-Keeps cfs IsBalanced step-IsBalanced path length w h
  kept-IsBalanced (opens path flags trunc) w h =
      open-Keeps cfs IsBalanced step-IsBalanced lower-IsBalanced path flags trunc w h
  kept-IsBalanced (closes fd) w h = close-Keeps cfs IsBalanced step-IsBalanced fd w h
  kept-IsBalanced (unlinks path) w h =
      unlink-Keeps cfs IsBalanced step-IsBalanced lower-IsBalanced path w h
  kept-IsBalanced (putfiles path length) w h =
      putfile-Keeps cfs IsBalanced update-IsBalanced path length w h
  kept-IsBalanced (renames oldpath newpath) w h =
      rename-Keeps cfs IsBalanced update-IsBalanced oldpath newpath w h
  kept-IsBalanced (mkallocs path size) w h =
      mkalloc-Keeps cfs IsBalanced step-IsBalanced path size w (new-IsBalanced size) h
  kept-IsBalanced (rmdirs path) w h =
      rmdir-Keeps cfs IsBalanced step-IsBalanced lower-IsBalanced path w
        (λ a b p q. update-IsBalanced a (negated b.size) p) h

  kept-IsWithin :
      (c : Call) (w : Server S)
      → IsCareful c
      → AllHave IsWithin w.allocs
      → KeepsAny IsWithin (run cfs c w)
  unfolding run
  kept-IsWithin (pwrites fd bytes length offset) w k h =
      pwrite-Keeps cfs IsWithin update-IsWithin fd bytes length offset w h
  kept-IsWithin (ftruncates fd length) w k h =
      ftruncate-Keeps cfs IsWithin update-IsWithin fd length w h
  kept-IsWithin (truncates path length) w k h =
      truncate-Keeps cfs IsWithin update-IsWithin path length w h
  kept-IsWithin (opens path flags trunc) w k h =
      open-Keeps cfs IsWithin update-IsWithin lower-IsWithin path flags trunc w h
  kept-IsWithin (closes fd) w k h = close-Keeps cfs IsWithin update-IsWithin fd w h
  kept-IsWithin (unlinks path) w k h =
      unlink-Keeps cfs IsWithin update-IsWithin lower-IsWithin path w h
  kept-IsWithin (putfiles path length) w k h = absurd k
  kept-IsWithin (renames oldpath newpath) w k h = absurd k
  kept-IsWithin (mkallocs path size) w k h =
      mkalloc-Keeps cfs IsWithin update-IsWithin path size w (new-IsWithin size k) h
  kept-IsWithin (rmdirs path) w k h =
      rmdir-Keeps cfs IsWithin update-IsWithin lower-IsWithin path w
        (λ a b p q. lower-IsWithin a b.size p (omega (arith, q))) h

  -- If before a call each allocation has as free space what its size leaves, and its space in use is not
  -- negative, then that is so behind the call, whichever call it is and whatever `cfs` answers.
  pub run-IsBalanced :
      (c : Call) (w : Server S) {r : ℤ} {w' : Server S}
      → Every IsBalanced w.allocs
      → run cfs c w ≡ some (r, w')
      → Every IsBalanced w'.allocs
  run-IsBalanced c w {r} {w'} h e =
      to_Every IsBalanced w'.allocs
        (subst (KeepsAny IsBalanced) e (kept-IsBalanced c w (of_Every IsBalanced w.allocs h)))

  run-IsWithin :
      (c : Call) (w : Server S) (r : ℤ) (w' : Server S)
      → IsCareful c
      → Every IsWithin w.allocs
      → run cfs c w ≡ some (r, w')
      → Every IsWithin w'.allocs
  run-IsWithin c w r w' k h e =
      to_Every IsWithin w'.allocs
        (subst (KeepsAny IsWithin) e (kept-IsWithin c w k (of_Every IsWithin w.allocs h)))

  -- Calls one behind the other.
  unfoldable pub run_all : List Call → Server S → Option (Server S)
  run_all [] w = some w
  run_all (c ∷ cs) w = elim (run cfs c w) [ none ↦ none | some r ↦ run_all cs r.1 ]

  -- However many careful calls are made and whatever `cfs` answers: if every allocation has what its
  -- size leaves as free space and no more in use than its size, then that is so behind them. Careful
  -- are all calls but `putfile`, `rename` and an `mkalloc` of negative size.
  pub run_all-IsWithin :
      (cs : List Call) (w : Server S) {w' : Server S}
      → All IsCareful cs
      → Every IsWithin w.allocs
      → run_all cs w ≡ some w'
      → Every IsWithin w'.allocs
  unfolding run_all
  run_all-IsWithin [] w {w'} k h e =
      let p : w ≡ w' = cc in subst (λ (v : Server S). Every IsWithin v.allocs) p h
  run_all-IsWithin (c ∷ cs) w {w'} (k, ks) h e = elim (Option-cases (run cfs c w)) [
    | inl n ↦ let clash : none ≡ some w' = sym (rw (n, run_all) refl) ∙ e in cc
    | inr ((r, v), y) ↦
        let rest : run_all cs v ≡ some w' = sym (rw (y, run_all) refl) ∙ e in
        run_all-IsWithin cs v ks (run-IsWithin c w r v k h y) rest
  ]
