-- ===== src/Channel.antt =====
-- parrot/src/pfs_channel.c: the shared-memory channel between the tracer and its children, an
-- allocator over one mapped file.
-- The circular list behind `head` is the list of its entries from `head` on, in `next` order; the
-- `prev` of the first is the last and the `next` of the last is the first, as in the code.
-- The mapping is a function from offsets to bytes: its address, which `mremap` may change, is not
-- kept. Sizes are `INT64_T` in the code, whose signed sums are taken not to overflow.
pub mod Rounding
pub mod Regions
pub mod Alloc
pub mod Free
pub mod Held
pub mod Run
mod Tests
use murphy.Base.{
  ℕ, ◌+◌, ◌-◌, ◌*◌, ◌/◌, ◌%◌, Bool, true, false, not, ◌&&◌, Option, none, some, List, [], ◌∷◌, ◌++◌,
  reverse, ltb, leb, ◌==◌, if◌then◌else◌,
}
use murphy.Base.Int.{ℤ, pos, negsuc}

-- `struct entry`
pub record Entry : Type 0 where
  pub start : ℕ
  pub length : ℕ
  pub inuse : Bool

-- The file's static variables.
pub record Channel : Type 0 where
  pub entries : List Entry
  pub size : ℕ
  pub page_size : ℕ
  pub memory : ℕ → ℕ

-- What the system answers in one round of `pfs_channel_alloc`: `malloc` (called at most once in a
-- round), `ftruncate64` and `mremap`.
pub record Round : Type 0 where
  pub malloc_ok : Bool
  pub ftruncate_ok : Bool
  pub mremap_ok : Bool

-- `pfs_channel_init`, once the file is mapped; the new entry is free.
pub init : ℕ → ℕ → (ℕ → ℕ) → Bool → Option Channel
init page size memory malloc_ok =
    if malloc_ok
    then some (record {
      entries = record { start = 0; length = size; inuse = false } ∷ [];
      size = size;
      page_size = page;
      memory = memory;
    })
    else none

-- C's division rounds towards zero, so a negative size comes to at most one page, then to one page.
pub round_up : ℕ → ℤ → ℕ
round_up page (negsuc n) = page
round_up page (pos x) =
    let y = if x % page == 0 then x else page * (x / page + 1) in if y == 0 then page else y

-- How the walk over the ring ends.
pub data Scan : Type 0 where
  found : ℕ → List Entry → Scan
  no_memory : Scan
  full : Scan

abbrev pub behind : Entry → Scan → Scan
behind e (found s es) = found s (e ∷ es)
behind e no_memory = no_memory
behind e full = full

-- The `do … while(e != head)` of `pfs_channel_alloc`: the first free entry that is long enough, split
-- by `entry_create` if it is longer.
pub scan : Bool → ℕ → List Entry → Scan
scan malloc_ok n [] = full
scan malloc_ok n (e ∷ es) =
    let next = behind e (scan malloc_ok n es) in
    if e.inuse
    then next
    else if e.length == n
    then found e.start (record e { inuse = true } ∷ es)
    else if ltb n e.length
    then if malloc_ok
      then found e.start (
          record e { length = n; inuse = true }
          ∷ record { start = e.start + n; length = e.length - n; inuse = false }
          ∷ es)
      else no_memory
    else next

-- `memset(channel_base + at, 0, count)`
pub clear : (ℕ → ℕ) → ℕ → ℕ → ℕ → ℕ
clear memory at count i = if leb at i && ltb i (at + count) then 0 else memory i

-- The channel after the file and the mapping have grown. The code does not test what `entry_create`
-- returns here: without memory the size grows and the ring does not.
pub expand : Bool → ℕ → Channel → Channel
expand malloc_ok n c = record c {
  entries =
      c.entries
      ++ (if malloc_ok then record { start = c.size; length = n; inuse = false } ∷ [] else []);
  size = c.size + n;
}

-- `pfs_channel_alloc`: the offset, or `none` where the code returns 0. Each call of itself takes the
-- next round; the result is `none` when the rounds run out.
pub alloc : List Round → ℤ → Channel → Option (Option ℕ × Channel)
alloc [] length c = none
alloc (r ∷ rs) length c =
    let n = round_up c.page_size length in
    let again = alloc rs (pos n) (expand r.malloc_ok n c) in
    elim (scan r.malloc_ok n c.entries) [
      | found s es ↦ some (
        some s,
        record c { entries = es; memory = clear c.memory (s + n - c.page_size) c.page_size },
      )
      | no_memory ↦ some (none, c)
      | full ↦ if r.ftruncate_ok && r.mremap_ok then again else some (none, c)
    ]

-- A place in the ring: the entries before it, nearest first, the entry, and those behind it.
pub record Place : Type 0 where
  pub before : List Entry
  pub at : Entry
  pub after : List Entry

abbrev pub ring : Place → List Entry
ring p = reverse p.before ++ p.at ∷ p.after

abbrev pub absorb : Entry → Entry → Entry
absorb f e = record f { length = f.length + e.length }

abbrev pub joins : Entry → Entry → Bool
joins f e = ltb f.start e.start && not f.inuse

-- The first merge of `pfs_channel_free`, at the head of the ring: the entry before is the last one.
pub merge_last : List Entry → Entry → List Entry → Place
merge_last [] e after = record { before = []; at = e; after = after }
merge_last (f ∷ fs) e after =
    if joins f e
    then record { before = fs; at = absorb f e; after = [] }
    else record { before = []; at = e; after = after }

-- The first merge elsewhere.
pub merge_prev : List Entry → Entry → List Entry → Place
merge_prev [] e after = merge_last (reverse after) e after
merge_prev (f ∷ fs) e after =
    if joins f e
    then record { before = fs; at = absorb f e; after = after }
    else record { before = f ∷ fs; at = e; after = after }

abbrev pub joins_next : Entry → Entry → Bool
joins_next e f = ltb e.start f.start && not f.inuse

abbrev pub absorb_next : Entry → Entry → Entry
absorb_next e f = record f { start = e.start; length = f.length + e.length }

-- The second merge, at the end of the ring: the entry behind is the head.
pub merge_head : List Entry → List Entry → Entry → Place
merge_head before [] e = record { before = before; at = e; after = [] }
merge_head before (f ∷ fs) e =
    if joins_next e f
    then record { before = []; at = absorb_next e f; after = fs }
    else record { before = before; at = e; after = [] }

pub merge_next : List Entry → Entry → List Entry → Place
merge_next before e [] = merge_head before (reverse before) e
merge_next before e (f ∷ fs) =
    if joins_next e f
    then record { before = before; at = absorb_next e f; after = fs }
    else record { before = before; at = e; after = f ∷ fs }

abbrev pub merge : List Entry → Entry → List Entry → List Entry
merge before e after =
    let p = merge_prev before (record e { inuse = false }) after in
    ring (merge_next p.before p.at p.after)

-- The loop of `pfs_channel_free`; the first argument holds the entries passed, nearest first.
pub release : List Entry → ℕ → List Entry → List Entry
release before start [] = reverse before
release before start (e ∷ es) =
    let rest = release (e ∷ before) start es in if e.start == start then merge before e es else rest

-- `pfs_channel_free`
pub free : ℕ → Channel → Channel
free start c = record c { entries = release [] start c.entries }
