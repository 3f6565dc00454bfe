-- ===== src/Space.antt =====
-- chirp/src/chirp_alloc.c: space allocations, the directories of a chirp server that hold no more than
-- a size given in advance. The file system below it (`cfs` of chirp/src/chirp_filesystem.h) and
-- the C library are a parameter.
-- The caches of `alloc_state_root_cached` and `alloc_state_cache_exact` and the files `.__alloc`
-- behind them are one map from directories to states, in which `chirp_alloc_flush` changes nothing:
-- loading such a file is taken to succeed when it is there. Sums are taken not to overflow. The
-- results of `cfs->pwrite` and `cfs->putfile` are kept in an `int`; of other calls, which return 0, -1 or
-- a descriptor, that changes nothing. A renamed directory holds no allocation.
pub mod Amount
pub mod File
pub mod Tree
pub mod Call
pub mod Keep
pub mod Invariant
pub mod Bounds
pub mod Root
pub mod Overdraw
mod Tests
use murphy.Base.{
  ℕ, zero, suc, ◌+◌, ◌*◌, ◌/◌, ◌%◌, Bool, true, false, Option, none, some, List, [], ◌∷◌, Bytes,
  str_eq, length, ◌==◌, if◌then◌else◌,
}
use murphy.Base.Int.{ℤ, pos, negsuc, ◌+ℤ◌, ◌-ℤ◌, ltb_ℤ, leb_ℤ, sub_ℕ}
use murphy.Text.Path.{cut_last_slash, dirname}

-- The calls of `cfs` and of the C library, over the state `S` of everything outside the server,
-- `errno` included. `stat` and `fstat` give the size of the file, or `none` where they fail.
pub record Cfs (S : Type 0) : Type 0 where
  pub errno : S → ℕ
  pub set_errno : ℕ → S → S
  pub stat : Bytes → S → Option ℤ × S
  pub fstat : ℤ → S → Option ℤ × S
  pub open_file : Bytes → ℤ → S → ℤ × S
  pub close_file : ℤ → S → ℤ × S
  pub pwrite : ℤ → Bytes → ℤ → ℤ → S → ℤ × S
  pub ftruncate : ℤ → ℤ → S → ℤ × S
  pub truncate : Bytes → ℤ → S → ℤ × S
  pub putfile : Bytes → ℤ → S → ℤ × S
  pub unlink : Bytes → S → ℤ × S
  pub rename : Bytes → Bytes → S → ℤ × S
  pub libc_rename : Bytes → Bytes → S → ℤ × S
  pub mkdir : Bytes → S → ℤ × S
  pub rmdir : Bytes → S → ℤ × S
  pub create_state : Bytes → ℤ → S → ℤ × S

-- `struct alloc_state`, less its open file.
pub record AllocState : Type 0 where
  pub size : ℤ
  pub inuse : ℤ
  pub avail : ℤ
  pub dirty : Bool

-- `block_size` of `space_consumed`
abbrev pub block_size : ℕ
block_size = 4096

-- C's division rounds towards zero, so a size below zero comes to more blocks, not to fewer.
unfoldable pub space_consumed : ℤ → ℤ
space_consumed (pos n) =
    pos ((n / block_size + (if n % block_size == 0 then 0 else 1)) * block_size)
space_consumed (negsuc n) =
    sub_ℕ (if suc n % block_size == 0 then 0 else block_size) (suc n / block_size * block_size)

abbrev pub not_below_zero : ℤ → ℤ
not_below_zero (pos n) = pos n
not_below_zero (negsuc n) = pos 0

abbrev pub is_zero : ℤ → Bool
is_zero (pos n) = n == 0
is_zero (negsuc n) = false

abbrev pub is_negative : ℤ → Bool
is_negative (pos n) = false
is_negative (negsuc n) = true

abbrev pub minus_one : ℤ
minus_one = negsuc 0

-- `alloc_state_update`
unfoldable pub alloc_state_update : AllocState → ℤ → AllocState
alloc_state_update a change =
    let inuse = not_below_zero (a.inuse +ℤ change) in
    if is_zero change then a else record a { inuse = inuse; avail = a.size -ℤ inuse; dirty = true }

-- The state of an allocation that `alloc_state_create` has written and `alloc_state_load` reads.
abbrev pub new_state : ℤ → AllocState
new_state size = record { size = size; inuse = pos 0; avail = size -ℤ pos 0; dirty = false }

-- The allocations, by the directory that holds the file `.__alloc`.
abbrev pub Allocs : Type 0
Allocs = Bytes → Option AllocState

abbrev pub assign_state : Allocs → Bytes → Option AllocState → Allocs
assign_state allocs path a q = if str_eq path q then a else allocs q

-- The static variables of the file, with the world outside.
pub record Server (S : Type 0) : Type 0 where
  pub enabled : Bool
  pub allocs : Allocs
  pub fd_table : ℤ → Option Bytes
  pub world : S

-- The loop of `alloc_state_root`, from a directory upwards, with the rounds that are left.
pub climb : Allocs → ℕ → Bytes → Option Bytes
climb allocs zero path = none
climb allocs (suc n) path =
    let up : Option Bytes = elim (cut_last_slash path) [
      | none ↦ none
      | some d ↦ climb allocs n d
    ] in
    elim (allocs path) [ some a ↦ some path | none ↦ up ]

-- `alloc_state_root`: each round takes off at least the slash.
abbrev pub alloc_state_root : Allocs → Bytes → Option Bytes
alloc_state_root allocs path = climb allocs (suc (length path)) path

-- `alloc_state_cache_exact`: the state, with the directory that stands for its address.
pub alloc_state_cache_exact : Allocs → Bytes → Option (Bytes × AllocState)
alloc_state_cache_exact allocs path = elim (alloc_state_root allocs path) [
  | none ↦ none
  | some d ↦ elim (allocs d) [ none ↦ none | some a ↦ some (d, a) ]
]

-- `alloc_state_cache`
abbrev pub alloc_state_cache : Allocs → Bytes → Option (Bytes × AllocState)
alloc_state_cache allocs path = alloc_state_cache_exact allocs (dirname path)

abbrev pub size_or : Option ℤ → ℤ
size_or none = minus_one
size_or (some n) = n

-- `errno` values
abbrev pub enoent : ℕ
enoent = 2

abbrev pub enospc : ℕ
enospc = 28

abbrev pub enosys : ℕ
enosys = 38

module _ {S : Type 0} where
  -- A call that is passed on as it is.
  abbrev pub pass : (S → ℤ × S) → Server S → ℤ × Server S
  pass f w = let (r, s) = f w.world in (r, record w { world = s })

  -- `alloc_state_update(a, change)`, with `a` found at `d`.
  abbrev pub charge : Bytes → AllocState → ℤ → Server S → Server S
  charge d a change w = record w {
    allocs = assign_state w.allocs d (some (alloc_state_update a change));
  }

  abbrev pub refuse : Cfs S → ℕ → Server S → ℤ × Server S
  refuse cfs e w = (minus_one, record w { world = cfs.set_errno e w.world })
