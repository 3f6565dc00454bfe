-- ===== src/Space/Tests.antt =====
-- chirp/src/chirp_alloc.c at work over a file system whose calls succeed and whose files have 100 bytes.
use murphy.Base.{
  ℕ, ◌+◌, ◌*◌, ◌≤◌, ◌<◌, ◌≡◌, refl, true, false, Option, none, some, [], ◌∷◌, Bytes, codes, arith,
  inr, if◌then◌else◌,
}
use murphy.Base.Int.{ℤ, pos, ◌+ℤ◌, ◌-ℤ◌, ◌≤ℤ◌, ◌<ℤ◌}
use murphy.Space.{
  Cfs, AllocState, Allocs, Server, block_size, space_consumed, alloc_state_update, assign_state,
  is_zero, climb, alloc_state_root, alloc_state_cache_exact, minus_one,
}
use murphy.Space.Amount.{space_consumed_lem, IsBalanced, IsWithin}
use murphy.Space.Bounds.{run-IsBalanced, run_all, run_all-IsWithin}
use murphy.Space.Call.{run, pwrites}
use murphy.Space.File.{resize, pwrite, put, putfile, unlink}
use murphy.Space.Keep.{Every, to_Every, assign_state-AllHave}
use murphy.Space.Overdraw.{put_overdraws}
use murphy.Space.Root.{IsAbove, alloc_state_root_nearest}
use murphy.Text.Path.{dirname, cut_last_slash}

-- The state is `errno`.
abbrev disk : Cfs ℕ
disk = record {
  errno = λ s. s;
  set_errno = λ e s. e;
  stat = λ path s. (some (pos 100), s);
  fstat = λ fd s. (some (pos 100), s);
  open_file = λ path flags s. (pos 3, s);
  close_file = λ fd s. (pos 0, s);
  pwrite = λ fd bytes length offset s. (length, s);
  ftruncate = λ fd length s. (pos 0, s);
  truncate = λ path length s. (pos 0, s);
  putfile = λ path length s. (length, s);
  unlink = λ path s. (pos 0, s);
  rename = λ oldpath newpath s. (pos 0, s);
  libc_rename = λ oldpath newpath s. (pos 0, s);
  mkdir = λ path s. (pos 0, s);
  rmdir = λ path s. (pos 0, s);
  create_state = λ path size s. (pos 0, s);
}

-- Two blocks of three are in use.
abbrev state : AllocState
state = record { size = pos 12288; inuse = pos 8192; avail = pos 4096; dirty = false }

abbrev allocs : Allocs
allocs = assign_state (λ q. none) (codes "/a") (some state)

abbrev home : Server ℕ
home = record {
  enabled = true;
  allocs = allocs;
  fd_table = λ fd. if is_zero (fd -ℤ pos 3) then some (codes "/a/b/f") else none;
  world = 0;
}

abbrev at_a : Option (ℤ × Server ℕ) → Option (ℤ × ℤ × ℕ)
at_a none = none
at_a (some (r, w)) = elim (w.allocs (codes "/a")) [
  | none ↦ none
  | some a ↦ some (r, a.avail, w.world)
]

-- A write that fits, one that does not (`ENOSPC` is 28), and an unknown descriptor.
pwrite_runs :
    (at_a (pwrite disk (pos 3) [] (pos 4000) (pos 200) home) ≡ some (pos 4000, pos 0, 0))
    × (at_a (pwrite disk (pos 3) [] (pos 4000) (pos 4200) home) ≡ some (minus_one, pos 4096, 28))
    × (pwrite disk (pos 4) [] (pos 1) (pos 0) home ≡ none)
unfolding pwrite resize space_consumed alloc_state_update alloc_state_cache_exact climb dirname
    cut_last_slash ◌+ℤ◌ ◌-ℤ◌
pwrite_runs = (refl, refl, refl)

-- An empty file is removed again.
empty_run : at_a (some (putfile disk (codes "/a/f") (pos 0) home)) ≡ some (pos 0, pos 8192, 0)
unfolding putfile put unlink space_consumed alloc_state_update alloc_state_cache_exact climb dirname
    cut_last_slash ◌+ℤ◌ ◌-ℤ◌
empty_run = refl

space_consumed_lem_example :
    (k : ℕ) × (space_consumed (pos 5000) ≡ pos (k * block_size))
    × (5000 ≤ k * block_size)
    × (k * block_size < 5000 + block_size)
    × (space_consumed (pos 4096) ≤ℤ space_consumed (pos 5000))
space_consumed_lem_example = space_consumed_lem 4096 5000 (omega arith)

state-IsWithin : IsWithin state
unfolding ◌-ℤ◌
state-IsWithin = ((refl, omega arith), omega arith)

balanced : Every IsBalanced allocs
balanced =
    to_Every IsBalanced allocs (
      assign_state-AllHave IsBalanced (λ q. none) (codes "/a") state state-IsWithin.0 (λ d a e. cc))

within : Every IsWithin allocs
within =
    to_Every IsWithin allocs
      (assign_state-AllHave IsWithin (λ q. none) (codes "/a") state state-IsWithin (λ d a e. cc))

abbrev written : Server ℕ
written = record home {
  allocs = assign_state allocs (codes "/a") (some (alloc_state_update state (pos 4096)));
}

write_run : run disk (pwrites (pos 3) [] (pos 4000) (pos 200)) home ≡ some (pos 4000, written)
unfolding run pwrite resize space_consumed alloc_state_cache_exact climb dirname cut_last_slash ◌+ℤ◌
    ◌-ℤ◌
write_run = refl

run-IsBalanced_example : Every IsBalanced written.allocs
run-IsBalanced_example =
    run-IsBalanced disk (pwrites (pos 3) [] (pos 4000) (pos 200)) home balanced write_run

one_run : run_all disk (pwrites (pos 3) [] (pos 4000) (pos 200) ∷ []) home ≡ some written
unfolding run_all
one_run = rw (write_run, run_all) refl

run_all-IsWithin_example : Every IsWithin written.allocs
run_all-IsWithin_example =
    run_all-IsWithin disk (pwrites (pos 3) [] (pos 4000) (pos 200) ∷ []) home (tt, tt) within
      one_run

-- 4200 bytes consume two blocks.
abbrev last_block : AllocState
last_block = record { size = pos 12288; inuse = pos 8000; avail = pos 4288; dirty = false }

last_block-IsBalanced : IsBalanced last_block
unfolding ◌-ℤ◌
last_block-IsBalanced = (refl, omega arith)

abbrev nearly_full : Server ℕ
nearly_full = record home { allocs = assign_state (λ q. none) (codes "/a") (some last_block) }

last_block_at :
    alloc_state_cache_exact nearly_full.allocs (dirname (codes "/a/f"))
    ≡ some (codes "/a", last_block)
unfolding alloc_state_cache_exact climb dirname cut_last_slash
last_block_at = refl

two_blocks : pos 4288 <ℤ space_consumed (pos 4200)
unfolding space_consumed
two_blocks = omega arith

put_overdraws_example :
    (b : AllocState) × ((put disk (codes "/a/f") (pos 4200) nearly_full).1.allocs (codes "/a")
      ≡ some b)
    × (b.size <ℤ b.inuse)
put_overdraws_example =
    put_overdraws disk (codes "/a/f") (codes "/a") 4200 last_block nearly_full last_block_at
      last_block-IsBalanced (omega arith) (omega arith) (omega arith) two_blocks refl

root_run : alloc_state_root allocs (codes "/a/b") ≡ some (codes "/a")
unfolding climb cut_last_slash
root_run = refl

alloc_state_root_nearest_example :
    (r : Bytes) × (alloc_state_root allocs (codes "/a/b") ≡ some r)
    × IsAbove r (codes "/a/b")
    × ((b : AllocState) × (allocs r ≡ some b))
    × IsAbove (codes "/a") r
alloc_state_root_nearest_example =
    alloc_state_root_nearest allocs (codes "/a/b") (codes "/a") state
      (codes "/b", refl, inr (codes "b", refl)) refl
