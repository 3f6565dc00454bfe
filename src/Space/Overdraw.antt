-- ===== src/Space/Overdraw.antt =====
-- Where chirp/src/chirp_alloc.c lets an allocation have more in use than its size.
use mathlib.Core.Path.{subst}
use murphy.Base.{ℕ, ◌<◌, ◌≡◌, refl, true, false, some, Bytes, str_eq_refl, arith, false}
use murphy.Base.Int.{as_int, ℤ, pos, negsuc, ◌+ℤ◌, ◌-ℤ◌, ◌≤ℤ◌, ◌<ℤ◌, ltb_ℤ, int_laws}
use murphy.Space.{
  Cfs, AllocState, Server, alloc_state_update, alloc_state_cache, space_consumed, not_below_zero,
  is_zero,
}
use murphy.Space.Amount.{IsBalanced}
use murphy.Space.File.{put, is_positive}

le-not_below_zero : (x : ℤ) → x ≤ℤ not_below_zero x
le-not_below_zero (pos n) = omega arith
le-not_below_zero (negsuc n) = omega arith

is_zero-false : (c : ℤ) → pos 0 <ℤ c → is_zero c ≡ false
is_zero-false (pos n) h = grind arith
is_zero-false (negsuc n) h = refl

overdrawn :
    (a : AllocState) (c : ℤ)
    → IsBalanced a
    → pos 0 <ℤ c
    → a.avail <ℤ c
    → (alloc_state_update a c).size <ℤ (alloc_state_update a c).inuse
unfolding alloc_state_update
overdrawn a c (e, p) h tight =
    let short : a.size -ℤ a.inuse <ℤ c = subst (λ x. x <ℤ c) e tight in
    let least : a.inuse +ℤ c ≤ℤ not_below_zero (a.inuse +ℤ c) = le-not_below_zero (a.inuse +ℤ c) in
    rw (is_zero-false c h) (omega (int_laws, least))

-- A number that fits an `int`.
as_int_small : (n : ℕ) → n < 2147483648 → as_int (pos n) ≡ pos n
as_int_small n h = ground arith

module _ {S : Type 0} (cfs : Cfs S) where
  -- A file of less than 2 GiB whose length is less than the free space, but which consumes more, is
  -- accepted: behind its delivery in full the allocation has more in use than its size.
  pub put_overdraws :
      (path d : Bytes) (n : ℕ) (a : AllocState) (w : Server S)
      → alloc_state_cache w.allocs path ≡ some (d, a)
      → IsBalanced a
      → 0 < n
      → n < 2147483648
      → pos n <ℤ a.avail
      → a.avail <ℤ space_consumed (pos n)
      → (cfs.putfile path (pos n) w.world).0 ≡ pos n
      → (b : AllocState) × ((put cfs path (pos n) w).1.allocs d ≡ some b) × (b.size <ℤ b.inuse)
  unfolding put
  put_overdraws path d n a w found bal h small fits tight whole =
      let fits_test : ltb_ℤ (pos n) a.avail ≡ true = grind arith in
      let positive : is_positive (pos n) ≡ true = grind arith in
      (
        alloc_state_update a (space_consumed (pos n)),
        rw (found, put, fits_test, whole, as_int_small n small, positive, str_eq_refl d) refl,
        overdrawn a (space_consumed (pos n)) bal (omega (arith, fits, tight)) tight,
      )
