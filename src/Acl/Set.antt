-- ===== src/Acl/Set.antt =====
-- The writing of lists of rights: `chirp_acl_set` and `chirp_acl_init_copy` of chirp/src/chirp_acl.c.
-- Lines and names are taken to fit their buffers.
pub mod Written
pub mod Laws
pub mod Others
pub mod Stored
pub mod Removed
mod Tests
use murphy.Acl.Check.{Store, Settings, no_flags, base_name, acl_open, flags_within}
use murphy.Acl.Entries.{entries}
use murphy.Acl.Flags.{Flags, flags_to_text, text_to_flags, outside}
use murphy.Base.{
  ℕ, Bool, true, false, ◌||◌, Option, none, some, List, [], ◌∷◌, ◌++◌, Bytes, codes, str_eq, length,
  if◌then◌else◌,
}
use murphy.Controller.Log.{◌>>=◌}

-- `cfs_fprintf(…, "%s %s\n", subject, chirp_acl_flags_to_text(flags))`
abbrev pub entry_line : Bytes → Flags → Bytes
entry_line subject flags = subject ++ 32 ∷ (flags_to_text flags ++ b'\n' ∷ [])

-- `if(aclflags != 0)` with the write behind it.
abbrev pub kept_line : Bytes → Flags → Bytes
kept_line subject flags = if flags_within flags no_flags then [] else entry_line subject flags

-- The loop of `chirp_acl_set`: what is written for the entries of the old list; `none` as for `acl_get`.
unfoldable pub rewritten : Bytes → Flags → List (Bytes × Bytes) → Option Bytes
rewritten subject flags [] = some []
rewritten subject flags ((aclsubject, acl) ∷ es) = do
  f ← text_to_flags outside no_flags acl
  out ← rewritten subject flags es
  some (kept_line aclsubject (if str_eq subject aclsubject then flags else f) ++ out)

-- `replaced_acl_entry` after the loop.
unfoldable pub replaced : Bytes → List (Bytes × Bytes) → Bool
replaced subject [] = false
replaced subject ((aclsubject, acl) ∷ es) = str_eq subject aclsubject || replaced subject es

-- The text of the new list, from that of the old one.
unfoldable pub set_text : Bytes → Flags → Bytes → Option Bytes
set_text subject flags text =
    let es = entries (length text) text in
    rewritten subject flags es
    >>= (λ out. some (out ++ (if replaced subject es then [] else entry_line subject flags)))

-- The text that `chirp_acl_set` starts from; `missing` tells where `errno` is ENOENT for a file that does
-- not open.
unfoldable pub old_text : Store → Settings → (Bytes → Bool) → Bytes → Bool → Option Bytes
old_text store settings missing aclname reset_acl =
    if reset_acl then store.open_file (codes "/dev/null") else elim (store.open_file aclname) [
      | some text ↦ some text
      | none ↦
          if missing aclname
          then elim settings.default_acl [
            | none ↦ store.open_file (codes "/dev/null")
            | some d ↦ store.open_file d
          ]
          else none
    ]

-- The new file on the disk: whether it opens for writing, is written without an error, and is renamed.
pub record Disk : Type 0 where
  pub opens : Bool
  pub writes : Bool
  pub renames : Bool

-- `chirp_acl_set` returns -1 with an `errno`, or 0 with the new text in place of the list.
pub data Answer : Type 0 where
  enotdir : Answer
  eacces : Answer
  stored : Bytes → Answer

unfoldable pub store_text : Disk → Bytes → Answer
store_text disk text = if disk.writes then if disk.renames then stored text else eacces else eacces

unfoldable pub write_over : Disk → Bytes → Flags → Option Bytes → Option Answer
write_over disk subject flags none = some eacces
write_over disk subject flags (some text) =
    if disk.opens
    then set_text subject flags text >>= (λ new. some (store_text disk new))
    else some eacces

-- `chirp_acl_set`
unfoldable pub acl_set :
    Store → Settings → (Bytes → Bool) → Disk → Bytes → Bytes → Flags → Bool → Option Answer
acl_set store settings missing disk dirname subject flags reset_acl =
    if store.is_dir dirname
    then write_over disk subject flags
        (old_text store settings missing (dirname ++ b'/' ∷ base_name) reset_acl)
    else some enotdir

-- The loop of `chirp_acl_init_copy`.
unfoldable pub copied : List (Bytes × Bytes) → Option Bytes
copied [] = some []
copied ((subject, acl) ∷ es) = do
  f ← text_to_flags outside no_flags acl
  out ← copied es
  some (entry_line subject f ++ out)
