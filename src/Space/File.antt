-- ===== src/Space/File.antt =====
-- The calls of chirp/src/chirp_alloc.c that change the size of one file.
use murphy.Base.{Bool, Option, none, some, Bytes, ◌==◌, if◌then◌else◌}
use murphy.Base.Int.{as_int, ℤ, pos, ◌+ℤ◌, ◌-ℤ◌, ltb_ℤ, leb_ℤ}
use murphy.Space.{
  Cfs, AllocState, Server, space_consumed, alloc_state_cache, size_or, minus_one, not_below_zero,
  is_zero, is_negative, enospc, enoent, pass, charge, refuse,
}

abbrev pub larger : ℤ → ℤ → ℤ
larger a b = if ltb_ℤ b a then a else b

abbrev pub negated : ℤ → ℤ
negated a = pos 0 -ℤ a

abbrev pub is_positive : ℤ → Bool
is_positive r = ltb_ℤ (pos 0) r

-- `int result = …;`
abbrev pub int_result : {S : Type 0} → ℤ × S → ℤ × S
int_result (r, s) = (as_int r, s)

module _ {S : Type 0} (cfs : Cfs S) where
  -- A call `f` that is to change a file of `old` bytes into one of `new`, in the allocation `a` at
  -- `d`; `ok` tells from what it returns whether it did.
  unfoldable pub resize :
      (ℤ → Bool) → (S → ℤ × S) → Bytes → AllocState → ℤ → ℤ → Server S → ℤ × Server S
  resize ok f d a old new w =
      let change = space_consumed new -ℤ space_consumed old in
      let (r, s) = f w.world in
      let done = record w { world = s } in
      if is_negative old
      then (minus_one, w)
      else if leb_ℤ change a.avail
      then (r, if ok r then charge d a change done else done)
      else refuse cfs enospc w

  -- `chirp_alloc_pwrite`, or `none` where the code reads the name of a descriptor that is not open.
  unfoldable pub pwrite : ℤ → Bytes → ℤ → ℤ → Server S → Option (ℤ × Server S)
  pwrite fd bytes length offset w =
      if w.enabled
      then elim (w.fd_table fd) [
        | none ↦ none
        | some path ↦ elim (alloc_state_cache w.allocs path) [
          | none ↦ some (minus_one, w)
          | some (d, a) ↦
              let (size, s) = cfs.fstat fd w.world in
              let old = size_or size in
              some (
                resize is_positive (λ q. int_result (cfs.pwrite fd bytes length offset q)) d a old
                  (larger (length +ℤ offset) old) (record w { world = s }))
        ]
      ]
      else some (pass (cfs.pwrite fd bytes length offset) w)

  -- `chirp_alloc_ftruncate`
  unfoldable pub ftruncate : ℤ → ℤ → Server S → Option (ℤ × Server S)
  ftruncate fd length w =
      if w.enabled
      then elim (w.fd_table fd) [
        | none ↦ none
        | some path ↦ elim (alloc_state_cache w.allocs path) [
          | none ↦ some (minus_one, w)
          | some (d, a) ↦
              let (size, s) = cfs.fstat fd w.world in
              some (
                resize is_zero (cfs.ftruncate fd length) d a (size_or size) length
                  (record w { world = s }))
        ]
      ]
      else some (pass (cfs.ftruncate fd length) w)

  -- `chirp_alloc_truncate`
  unfoldable pub truncate : Bytes → ℤ → Server S → ℤ × Server S
  truncate path length w =
      if w.enabled
      then elim (alloc_state_cache w.allocs path) [
        | none ↦ (minus_one, w)
        | some (d, a) ↦
            let (size, s) = cfs.stat path w.world in
            resize is_zero (cfs.truncate path length) d a (size_or size) length
              (record w { world = s })
      ]
      else pass (cfs.truncate path length) w

  -- `chirp_alloc_open`; `truncates` is the flag `O_TRUNC`, which is one bit of `flags`.
  unfoldable pub open_file : Bytes → ℤ → Bool → Server S → ℤ × Server S
  open_file path flags truncates w =
      if w.enabled
      then elim (alloc_state_cache w.allocs path) [
        | none ↦ (minus_one, w)
        | some (d, a) ↦
            let (size, s) = cfs.stat path w.world in
            let (fd, s') = cfs.open_file path flags s in
            let opened = record w {
              world = s';
              fd_table = λ q. if is_zero (q -ℤ fd) then some path else w.fd_table q;
            } in
            if is_negative fd
            then (fd, record w { world = s' })
            else if truncates
            then (fd, charge d a (negated (space_consumed (not_below_zero (size_or size)))) opened)
            else (fd, opened)
      ]
      else pass (cfs.open_file path flags) w

  -- `chirp_alloc_close`
  unfoldable pub close_file : ℤ → Server S → ℤ × Server S
  close_file fd w =
      if w.enabled
      then (
        pos 0,
        record w {
          world = (cfs.close_file fd w.world).1;
          fd_table = λ q. if is_zero (q -ℤ fd) then none else w.fd_table q;
        },
      )
      else pass (cfs.close_file fd) w

  -- `chirp_alloc_unlink`
  unfoldable pub unlink : Bytes → Server S → ℤ × Server S
  unlink path w =
      if w.enabled
      then elim (alloc_state_cache w.allocs path) [
        | none ↦ (minus_one, w)
        | some (d, a) ↦
            let (size, s) = cfs.stat path w.world in
            let (r, s') = cfs.unlink path s in
            let gone = record w { world = s' } in
            if is_negative (size_or size)
            then (minus_one, record w { world = s })
            else if is_zero r
            then (r, charge d a (negated (space_consumed (size_or size))) gone)
            else (r, gone)
      ]
      else pass (cfs.unlink path) w

  -- The part of `chirp_alloc_putfile` behind the removal of what was there.
  unfoldable pub put : Bytes → ℤ → Server S → ℤ × Server S
  put path length w = elim (alloc_state_cache w.allocs path) [
    | none ↦ (minus_one, w)
    | some (d, a) ↦
        let (r, s) = int_result (cfs.putfile path length w.world) in
        if ltb_ℤ length a.avail
        then if is_positive r
          then (r, charge d a (space_consumed r) (record w { world = s }))
          else (r, record w { world = (cfs.unlink path s).1 })
        else refuse cfs enospc w
  ]

  -- `chirp_alloc_putfile`
  unfoldable pub putfile : Bytes → ℤ → Server S → ℤ × Server S
  putfile path length w =
      let (r, w') = unlink path w in
      if w.enabled
      then if is_negative r
        then if cfs.errno w'.world == enoent then put path length w' else (r, w')
        else put path length w'
      else pass (cfs.putfile path length) w
