-- ===== src/Channel/Rounding.antt =====
-- `round_up` of parrot/src/pfs_channel.c.
use murphy.Base.{ℕ, ◌+◌, ◌*◌, ◌/◌, ◌%◌, ◌≤◌, ◌<◌, ◌≡◌, arith}
use murphy.Base.Int.{ℤ, pos, negsuc}
use native.Mathlib.Decide.{dec_lt}
use native.Mathlib.Nat.{mod-eq_of_lt}
use murphy.Channel.{round_up}

mul-mod : (p k : ℕ) → p * k % p ≡ 0
mul-mod p k = grind arith

pub round_up-mod : (p : ℕ) (x : ℤ) → 0 < p → round_up p x % p ≡ 0
unfolding round_up
round_up-mod p (negsuc n) h = grind arith
round_up-mod p (pos x) h = ground (arith, mul-mod p (x / p + 1), mul-mod p 1)

pub round_up_pos : (p : ℕ) (x : ℤ) → 0 < p → 0 < round_up p x
unfolding round_up
round_up_pos p (negsuc n) h = h
round_up_pos p (pos x) h = grind arith

pub le-round_up : (p x : ℕ) → 0 < p → x ≤ round_up p (pos x)
unfolding round_up
le-round_up p x h = grind arith

pub round_up-lt : (p x : ℕ) → 0 < x → 0 < p → round_up p (pos x) < x + p
unfolding round_up
round_up-lt p x hx h = grind arith

le_of_mod : (p y : ℕ) → 0 < p → y % p ≡ 0 → 0 < y → p ≤ y
le_of_mod p y hp h hy = elim (dec_lt y p) [
  | yes lt ↦ absurd (omega (arith, mod-eq_of_lt lt))
  | no ge ↦ omega arith
]

pub page-le-round_up : (p : ℕ) (x : ℤ) → 0 < p → p ≤ round_up p x
page-le-round_up p x h = le_of_mod p (round_up p x) h (round_up-mod p x h) (round_up_pos p x h)

round_up_fixed : (p y : ℕ) → y % p ≡ 0 → 0 < y → round_up p (pos y) ≡ y
unfolding round_up
round_up_fixed p y h hy = ground arith

-- Rounding again changes nothing.
pub round_up-round_up : (p : ℕ) (x : ℤ) → 0 < p → round_up p (pos (round_up p x)) ≡ round_up p x
round_up-round_up p x h = round_up_fixed p (round_up p x) (round_up-mod p x h) (round_up_pos p x h)

-- What the allocator asks of a rounded size: whole pages, at least one, enough for the request and
-- less than a page too much.
pub round_up_lem :
    (p x : ℕ)
    → 0 < p
    → 0 < x
    → let n = round_up p (pos x) in (n % p ≡ 0) × (p ≤ n) × (x ≤ n) × (n < x + p)
round_up_lem p x hp hx = (
  round_up-mod p (pos x) hp,
  page-le-round_up p (pos x) hp,
  le-round_up p x hp,
  round_up-lt p x hx hp,
)
