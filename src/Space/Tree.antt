-- ===== src/Space/Tree.antt =====
-- The calls of chirp/src/chirp_alloc.c that move a file or make and remove a directory.
use murphy.Base.{none, some, Bytes, str_eq, if◌then◌else◌}
use murphy.Base.Int.{ℤ, pos, ltb_ℤ, leb_ℤ}
use murphy.Space.{
  Cfs, AllocState, Server, space_consumed, alloc_state_cache, alloc_state_cache_exact, assign_state,
  new_state, size_or, minus_one, is_zero, is_negative, enospc, enosys, pass, charge, refuse,
}
use murphy.Space.File.{negated}

module _ {S : Type 0} (cfs : Cfs S) where
  -- `chirp_alloc_rename` between the allocations `a` at `d` and `b` at `e`.
  unfoldable pub move :
      Bytes → Bytes → Bytes → AllocState → Bytes → AllocState → Server S → ℤ × Server S
  move oldpath newpath d a e b w =
      let (size, s) = cfs.stat oldpath w.world in
      let filesize = size_or size in
      let looked = record w { world = s } in
      let (r, s') = cfs.rename oldpath newpath s in
      let moved = record w { world = s' } in
      if is_negative filesize
      then (minus_one, looked)
      else if leb_ℤ filesize b.avail
      then (
        r,
        if is_zero r
            then charge e b (space_consumed filesize)
                (charge d a (negated (space_consumed filesize)) moved)
            else moved,
      )
      else refuse cfs enospc looked

  -- `chirp_alloc_rename`. Inside one allocation the code calls the C library, not `cfs`.
  unfoldable pub rename : Bytes → Bytes → Server S → ℤ × Server S
  rename oldpath newpath w =
      if w.enabled
      then elim (alloc_state_cache w.allocs oldpath) [
        | none ↦ (minus_one, w)
        | some (d, a) ↦ elim (alloc_state_cache w.allocs newpath) [
          | none ↦ (minus_one, w)
          | some (e, b) ↦
              if str_eq d e
              then pass (cfs.libc_rename oldpath newpath) w
              else move oldpath newpath d a e b w
        ]
      ]
      else pass (cfs.rename oldpath newpath) w

  -- `chirp_alloc_mkalloc`; `create_state` is the `fopen` of `alloc_state_create`, with
  -- 0 for a file that was opened.
  unfoldable pub mkalloc : Bytes → ℤ → Server S → ℤ × Server S
  mkalloc path size w =
      if w.enabled
      then elim (alloc_state_cache w.allocs path) [
        | none ↦ (minus_one, w)
        | some (d, a) ↦
            let (r, s) = cfs.mkdir path w.world in
            let (created, s') = cfs.create_state path size s in
            let made = record w {
              world = s';
              allocs = assign_state w.allocs path (some (new_state size));
            } in
            if ltb_ℤ size a.avail
            then if is_zero r
              then if is_zero created
                then (r, charge d a size made)
                else (minus_one, record w { world = s' })
              else (r, record w { world = s })
            else refuse cfs enospc w
      ]
      else refuse cfs enosys w

  -- `chirp_alloc_rmdir`. The file `.__alloc` of an allocation goes with its directory.
  unfoldable pub rmdir : Bytes → Server S → ℤ × Server S
  rmdir path w =
      if w.enabled
      then elim (alloc_state_cache_exact w.allocs path) [
        | none ↦ (minus_one, w)
        | some (e, b) ↦ elim (alloc_state_cache w.allocs path) [
          | none ↦ (minus_one, w)
          | some (d, a) ↦
              let (r, s) = cfs.rmdir path w.world in
              let gone = record w { world = s } in
              if is_zero r
              then (
                pos 0,
                if str_eq e d
                    then gone
                    else charge d a (negated b.size)
                        (record gone { allocs = assign_state w.allocs e none }),
              )
              else (minus_one, gone)
        ]
      ]
      else pass (cfs.rmdir path) w
