-- ===== src/Space/Call.antt =====
-- The calls of a client to chirp/src/chirp_alloc.c that may change an allocation, as one type.
use murphy.Base.{Bool, Option, some, Bytes}
use murphy.Base.Int.{ℤ}
use murphy.Space.{Cfs, Server}
use murphy.Space.File.{pwrite, ftruncate, truncate, open_file, close_file, unlink, putfile}
use murphy.Space.Tree.{rename, mkalloc, rmdir}

pub data Call : Type 0 where
  pwrites : ℤ → Bytes → ℤ → ℤ → Call
  ftruncates : ℤ → ℤ → Call
  truncates : Bytes → ℤ → Call
  opens : Bytes → ℤ → Bool → Call
  closes : ℤ → Call
  unlinks : Bytes → Call
  putfiles : Bytes → ℤ → Call
  renames : Bytes → Bytes → Call
  mkallocs : Bytes → ℤ → Call
  rmdirs : Bytes → Call

module _ {S : Type 0} (cfs : Cfs S) where
  -- The call of `chirp_alloc_…` that belongs to it.
  unfoldable pub run : Call → Server S → Option (ℤ × Server S)
  run (pwrites fd bytes length offset) w = pwrite cfs fd bytes length offset w
  run (ftruncates fd length) w = ftruncate cfs fd length w
  run (truncates path length) w = some (truncate cfs path length w)
  run (opens path flags trunc) w = some (open_file cfs path flags trunc w)
  run (closes fd) w = some (close_file cfs fd w)
  run (unlinks path) w = some (unlink cfs path w)
  run (putfiles path length) w = some (putfile cfs path length w)
  run (renames oldpath newpath) w = some (rename cfs oldpath newpath w)
  run (mkallocs path size) w = some (mkalloc cfs path size w)
  run (rmdirs path) w = some (rmdir cfs path w)
