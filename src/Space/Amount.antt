-- ===== src/Space/Amount.antt =====
-- The amounts of chirp/src/chirp_alloc.c: the space that a file consumes, and the update of a state.
use mathlib.Core.Path.{subst}
use murphy.Base.{
  ℕ, if◌then◌else◌, ◌==◌, ◌/◌, ◌+◌, ◌*◌, ◌%◌, ◌≤◌, ◌<◌, ◌≡◌, refl, false, arith, Bool-cases, inl,
  inr,
}
use murphy.Base.Int.{ℤ, pos, negsuc, ◌+ℤ◌, ◌-ℤ◌, ◌≤ℤ◌, int_laws}
use murphy.Space.{
  AllocState, is_negative, block_size, space_consumed, not_below_zero, is_zero, alloc_state_update,
}

-- The space that a file of a size consumes is whole blocks, holds the file, and is less than a block
-- larger; a file that is not longer does not consume more.
pub space_consumed_lem :
    (m n : ℕ)
    → m ≤ n
    → (k : ℕ) × (space_consumed (pos n) ≡ pos (k * block_size))
      × (n ≤ k * block_size)
      × (k * block_size < n + block_size)
      × (space_consumed (pos m) ≤ℤ space_consumed (pos n))
unfolding space_consumed
space_consumed_lem m n h = (
  n / block_size + (if n % block_size == 0 then 0 else 1),
  refl,
  grind arith,
  grind arith,
  grind arith,
)

not_below_zero_nonneg : (x : ℤ) → pos 0 ≤ℤ not_below_zero x
not_below_zero_nonneg (pos n) = omega arith
not_below_zero_nonneg (negsuc n) = omega arith

not_below_zero-le : (x b : ℤ) → x ≤ℤ b → pos 0 ≤ℤ b → not_below_zero x ≤ℤ b
not_below_zero-le (pos n) b h p = h
not_below_zero-le (negsuc n) b h p = p

-- The free space is what the size leaves, and the space in use is not negative.
abbrev pub IsBalanced : AllocState → Type 0
IsBalanced a = (a.avail ≡ a.size -ℤ a.inuse) × (pos 0 ≤ℤ a.inuse)

-- No more is in use than the size allows.
abbrev pub IsWithin : AllocState → Type 0
IsWithin a = IsBalanced a × (a.inuse ≤ℤ a.size)

pub update-IsBalanced :
    (a : AllocState) (c : ℤ) → IsBalanced a → IsBalanced (alloc_state_update a c)
unfolding alloc_state_update
update-IsBalanced a c (e, p) = elim (Bool-cases (is_zero c)) [
  | inl z ↦ rw z (e, p)
  | inr z ↦ rw z (refl, not_below_zero_nonneg (a.inuse +ℤ c))
]

pub update-IsWithin :
    (a : AllocState) (c : ℤ) → IsWithin a → c ≤ℤ a.avail → IsWithin (alloc_state_update a c)
unfolding alloc_state_update
update-IsWithin a c ((e, p), q) h =
    let room : c ≤ℤ a.size -ℤ a.inuse = subst (λ x. c ≤ℤ x) e h in
    elim (Bool-cases (is_zero c)) [
      | inl z ↦ rw z ((e, p), q)
      | inr z ↦ rw z (
        (refl, not_below_zero_nonneg (a.inuse +ℤ c)),
        not_below_zero-le (a.inuse +ℤ c) a.size (omega int_laws) (omega int_laws),
      )
    ]

-- The space of a file whose size is known.
pub space_consumed_nonneg : (n : ℤ) → is_negative n ≡ false → pos 0 ≤ℤ space_consumed n
unfolding space_consumed
space_consumed_nonneg (pos n) h = omega arith
space_consumed_nonneg (negsuc n) h = cc

pub not_below_zero_consumed : (n : ℤ) → pos 0 ≤ℤ space_consumed (not_below_zero n)
unfolding space_consumed
not_below_zero_consumed (pos n) = omega arith
not_below_zero_consumed (negsuc n) = omega arith
