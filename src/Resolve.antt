-- ===== src/Resolve.antt =====
-- parrot/src/pfs_resolve.c: the mount list, which turns the names that traced processes use into physical
-- names. Names are taken to fit their buffers.
pub mod Path
pub mod Clean
pub mod First
pub mod Again
pub mod Denied
mod Tests
use murphy.Resolve.Path.{
  cut_scheme, scheme_at, scan_scheme, renamed, buffer_prefix, clean_up_path, rounds, or_same,
  cleaned,
}
use murphy.Base.{
  ℕ, zero, suc, ◌+◌, Bool, true, false, ◌&&◌, ◌||◌, Option, none, some, List, [], ◌∷◌, ◌++◌, Bytes,
  codes, str_eq, length, drop, get_or, leb, ltb, ◌==◌, if◌then◌else◌, reverse,
}
use murphy.Base.Map.{Map, put_at, empty_map}
use murphy.Controller.Line.{cut_at, is_space}
use murphy.Controller.Log.{cut_line, take_word}
use murphy.Text.Ends.{chomp, drop_while}
use murphy.Text.Path.{slash}
use murphy.Text.Match.{starts_with}

-- What the functions ask the system: `fnmatch` of a pattern and a name; `popen`, the first line and
-- `pclose` for a command, with `none` where it cannot be run, the line, if there is one, and whether the
-- status is 0; `stat64`, with `none` where it fails and whether the name is a directory; the name of
-- the directory of temporary files; and what the memory holds as far behind the end of a name as a longer
-- pattern reaches.
pub record System : Type 0 where
  pub fnmatch : Bytes → Bytes → Bool
  pub run_command : Bytes → Option (Option Bytes × Bool)
  pub is_dir : Bytes → Option Bool
  pub temp_dir : Bytes
  pub stray : Bytes → Bytes → Bytes

-- `pfs_resolve_t`
pub data Result : Type 0 where
  unchanged : Result
  changed : Result
  denied : Result
  enoent : Result
  failed : Result

-- `struct mount_entry`
pub record MountEntry : Type 0 where
  pub prefix : Bytes
  pub redirect : Bytes

-- The static variables: the mount list and the cache of physical names.
pub record Resolver : Type 0 where
  pub mount_list : List MountEntry
  pub resolve_cache : Map Bytes

abbrev pub new_resolver : Resolver
new_resolver = record { mount_list = []; resolve_cache = empty_map }

-- `add_mount_entry`
abbrev pub add_mount_entry : Bytes → Bytes → Resolver → Resolver
add_mount_entry prefix redirect r = record r {
  mount_list = record { prefix = prefix; redirect = redirect } ∷ r.mount_list;
}

-- `pfs_resolve_manual_config`; `none` where it ends by `fatal`.
unfoldable pub manual_config : Bytes → Resolver → Option Resolver
manual_config str r =
    let (prefix, rest) = cut_at b'=' str in
    elim rest [ none ↦ none | some redirect ↦ some (add_mount_entry prefix redirect r) ]

-- `sscanf(line, "%s %s", …)`: the two words, empty where the text ends before.
abbrev pub two_words : Bytes → Bytes × Bytes
two_words line =
    let (prefix, rest) = take_word (drop_while is_space line) in
    (prefix, (take_word (drop_while is_space rest)).0)

-- One line of a mount file; `none` where `pfs_resolve_file_config` ends by `fatal`. On a line of blanks
-- `sscanf` gives EOF, which is less than 2 and not 0.
unfoldable pub config_line : Bytes → Resolver → Option Resolver
config_line line r = if get_or line 0 0 == b'#' then some r else elim (chomp line) [
  | [] ↦ some r
  | c ∷ s ↦ elim (two_words (c ∷ s)).1 [
    | [] ↦ none
    | d ∷ redirect ↦ some (add_mount_entry (two_words (c ∷ s)).0 (d ∷ redirect) r)
  ]
]

-- The loop of `pfs_resolve_file_config`, with the lines that may still be read: a text has no more lines
-- than bytes.
unfoldable pub config_lines : ℕ → Bytes → Resolver → Option Resolver
config_lines zero text r = some r
config_lines (suc n) [] r = some r
config_lines (suc n) (c ∷ s) r =
    let (line, rest) = cut_line (c ∷ s) in
    elim (config_line line r) [ none ↦ none | some r' ↦ config_lines n rest r' ]

-- `prefix[plen-1]=='/'`; of an empty prefix the code reads the byte in front of it, which is taken to be no
-- slash. For a name that begins with a slash that byte does not matter: `logical_name[plen]=='/'` holds.
abbrev pub ends_in_slash : Bytes → Bool
ends_in_slash prefix = get_or (reverse prefix) 0 0 == slash

-- The condition of `mount_entry_check`.
unfoldable pub matches : System → Bytes → Bytes → Bool
matches sys prefix name =
    sys.fnmatch prefix name
    || (starts_with prefix name
        && (ends_in_slash prefix
            || (get_or name (length prefix) 0 == slash || length prefix == length name)))

-- What of a name stands behind its prefix.
abbrev pub behind_prefix : Bytes → Bytes → Bytes
behind_prefix prefix name = drop (length prefix) name

-- `&logical_name[strlen(prefix)]`, which for a pattern that is longer than the name that it matches is
-- behind the end of the name.
abbrev pub text_at : System → Bytes → Bytes → Bytes
text_at sys prefix name =
    if leb (length prefix) (length name) then behind_prefix prefix name else sys.stray prefix name

-- A name below another one, if there is more of it than its prefix.
abbrev pub below : Bytes → Bytes → Bytes → Bytes
below directory prefix name =
    if ltb (length prefix) (length name)
    then directory ++ slash ∷ behind_prefix prefix name
    else directory

-- `pfs_resolve_external`: the result and `physical_name`, which held `old` before.
unfoldable pub external : System → Bytes → Bytes → Bytes → Bytes → Result × Bytes
external sys name prefix command old =
    elim (sys.run_command (command ++ 32 ∷ text_at sys prefix name)) [
      | none ↦ (failed, old)
      | some (line, ok) ↦
          let physical : Bytes = elim line [ none ↦ [] | some l ↦ chomp l ] in
          if ok then (changed, physical) else (failed, physical)
    ]

-- The branch `lcache:/local/path|/remote/path`: names below the local path and the directory of
-- temporary files stay, other names are local where there is a file there that is no directory.
unfoldable pub lcache : System → Bytes → Bytes → Bytes → Bytes → Bytes
lcache sys name prefix local remote =
    let there = below local prefix name in
    if starts_with local name || starts_with sys.temp_dir name
    then name
    else elim (sys.is_dir there) [
      | none ↦ below remote prefix name
      | some dir ↦ if dir then below remote prefix name else there
    ]

-- `lcache:` and a bar: what stands between them and behind the bar.
abbrev pub lcache_paths : Bytes → Option (Bytes × Bytes)
lcache_paths redirect =
    if starts_with (codes "lcache:") redirect
    then (let (local, rest) = cut_at b'|' (drop 7 redirect) in
        elim rest [ none ↦ none | some remote ↦ some (local, remote) ])
    else none

-- What an entry that matches makes of a name.
unfoldable pub redirected : System → Bytes → Bytes → Bytes → Bytes → Result × Bytes
redirected sys name prefix redirect old =
    if str_eq redirect (codes "DENY")
    then (denied, old)
    else if str_eq redirect (codes "ENOENT")
    then (enoent, old)
    else if str_eq redirect (codes "LOCAL")
    then (changed, name)
    else if starts_with (codes "resolver:") redirect
    then external sys name prefix (drop 9 redirect) old
    else elim (lcache_paths redirect) [
      | some (local, remote) ↦ (changed, lcache sys name prefix local remote)
      | none ↦ (changed, below redirect prefix name)
    ]

-- `mount_entry_check`
unfoldable pub mount_entry_check : System → Bytes → MountEntry → Bytes → Result × Bytes
mount_entry_check sys name e old =
    if matches sys e.prefix name
    then redirected sys name e.prefix e.redirect old
    else (unchanged, old)

abbrev pub is_unchanged : Result → Bool
is_unchanged unchanged = true
is_unchanged changed = false
is_unchanged denied = false
is_unchanged enoent = false
is_unchanged failed = false

-- The loop of `pfs_resolve` over the mount list.
unfoldable pub check_mounts : System → Bytes → List MountEntry → Bytes → Result × Bytes
check_mounts sys name [] old = (unchanged, old)
check_mounts sys name (e ∷ es) old =
    let rest = check_mounts sys name es (mount_entry_check sys name e old).1 in
    if is_unchanged (mount_entry_check sys name e old).0
    then rest
    else mount_entry_check sys name e old

-- What `pfs_resolve` makes of the result of the cache or the loop.
abbrev pub finished : Bytes → Result × Bytes → Result × Bytes
finished name (unchanged, p) = (unchanged, name)
finished name (changed, p) = (changed, cleaned p)
finished name (denied, p) = (denied, p)
finished name (enoent, p) = (enoent, p)
finished name (failed, p) = (failed, p)

abbrev pub keep : Bytes → Bytes → Resolver → Resolver
keep name p r = elim (r.resolve_cache name) [
  | none ↦ record r { resolve_cache = put_at r.resolve_cache name (some p) }
  | some t ↦ r
]

-- A result that is kept, unless one is kept for the name already.
abbrev pub remembered : Bytes → Result × Bytes → Resolver → Resolver
remembered name (unchanged, p) r = keep name p r
remembered name (changed, p) r = keep name p r
remembered name (denied, p) r = r
remembered name (enoent, p) r = r
remembered name (failed, p) r = r

-- `pfs_resolve`: the result, `physical_name`, which held `old` before, and the state.
unfoldable pub resolve : System → Bytes → Bytes → Resolver → (Result × Bytes) × Resolver
resolve sys name old r =
    let found : Result × Bytes = elim (r.resolve_cache name) [
      | none ↦ check_mounts sys name r.mount_list old
      | some t ↦ (changed, t)
    ] in
    (finished name found, remembered name (finished name found) r)
