-- ===== src/Resolve/Tests.antt =====
-- parrot/src/pfs_resolve.c at work on a small mount list.
use murphy.Base.{
  ◌≡◌, refl, false, Option, none, some, List, [], ◌∷◌, Bytes, codes, str_eq, if◌then◌else◌,
}
use murphy.Controller.Line.{cut_at}
use murphy.Controller.Log.{cut_line, take_word}
use murphy.Resolve.{
  System, unchanged, changed, denied, MountEntry, Resolver, new_resolver, add_mount_entry,
  config_line, config_lines, matches, redirected, external, lcache, mount_entry_check, check_mounts,
  resolve,
}
use murphy.Resolve.Path.{cut_scheme, scan_scheme, clean_up_path, cleaned}
use murphy.Resolve.Again.{IsNamed, same, resolved_again, mounted, resolve-resolve}
use murphy.Resolve.Clean.{IsClean, clean_up_path_lem}
use murphy.Resolve.Denied.{IsDenied, Reached, configured, resolved, resolve_always_denied}
use murphy.Resolve.First.{added, last_match, by_entry, check_mounts-added}
use murphy.Text.Ends.{chomp, drop_while}
use murphy.Text.Match.{starts_with}

-- No patterns; one resolver that answers one line; `/tmp/a` is a file.
abbrev system : System
system = record {
  fnmatch = λ pattern name. false;
  run_command = λ command. some (some (codes "/there\n"), str_eq command (codes "find /x"));
  is_dir = λ path. if str_eq path (codes "/tmp/a") then some false else none;
  temp_dir = codes "/var";
  stray = λ prefix name. [];
}

abbrev elsewhere : System
elsewhere = record system { run_command = λ command. none }

abbrev mount_file : Bytes
mount_file =
    codes
      "# mounts\n\n/data /chirp/host\n/data/own DENY\n/home lcache:/tmp|/http/h\n/r resolver:find\n"

abbrev mounts : List MountEntry
mounts =
    record { prefix = codes "/r"; redirect = codes "resolver:find" }
    ∷ record { prefix = codes "/home"; redirect = codes "lcache:/tmp|/http/h" }
    ∷ record { prefix = codes "/data/own"; redirect = codes "DENY" }
    ∷ record { prefix = codes "/data"; redirect = codes "/chirp/host" }
    ∷ []

abbrev mounted_all : Resolver
mounted_all = record new_resolver { mount_list = mounts }

-- The mounts in the order of the file.
abbrev in_order : List MountEntry
in_order =
    record { prefix = codes "/data"; redirect = codes "/chirp/host" }
    ∷ record { prefix = codes "/data/own"; redirect = codes "DENY" }
    ∷ []

abbrev list_of : Option Resolver → List MountEntry
list_of none = []
list_of (some r) = r.mount_list

config_run : list_of (config_lines 200 mount_file new_resolver) ≡ mounts
unfolding config_lines config_line cut_line chomp drop_while take_word
config_run = refl

-- A line of blanks is a fault.
blank_run : config_line (codes "  \n") new_resolver ≡ none
unfolding config_line chomp drop_while take_word
blank_run = refl

clean_run :
    (cleaned (codes "buffer:remote:/biz/foo") ≡ codes "/chirp/CONDOR/biz/foo")
    × (cleaned (codes "http://host/x") ≡ codes "/http//host/x")
    × (cleaned (codes "/a:/b") ≡ codes "/a:/b")
unfolding clean_up_path starts_with scan_scheme cut_scheme drop_while
clean_run = (refl, refl, refl)

resolve_run :
    ((resolve system (codes "/data/x") [] mounted_all).0 ≡ (changed, codes "/chirp/host//x"))
    × ((resolve system (codes "/data/own/x") [] mounted_all).0 ≡ (denied, []))
    × ((resolve system (codes "/home") [] mounted_all).0 ≡ (changed, codes "/http/h"))
    × ((resolve system (codes "/r/x") [] mounted_all).0 ≡ (changed, codes "/there"))
    × ((resolve system (codes "/database") [] mounted_all).0 ≡ (unchanged, codes "/database"))
unfolding resolve check_mounts mount_entry_check matches redirected lcache external starts_with
    cut_at clean_up_path scan_scheme cut_scheme drop_while chomp
resolve_run = (refl, refl, refl, refl, refl)

clean_up_path_lem_example :
    (q : Bytes) × (clean_up_path 24 (codes "buffer:remote:/biz/foo") ≡ some q) × IsClean q
clean_up_path_lem_example = clean_up_path_lem (codes "buffer:remote:/biz/foo")

check_mounts-added_example :
    check_mounts system (codes "/data/own/x") (added in_order new_resolver).mount_list []
    ≡ by_entry system (codes "/data/own/x") [] (last_match system (codes "/data/own/x") in_order)
check_mounts-added_example = check_mounts-added system (codes "/data/own/x") in_order []

found_there : IsNamed (resolve system (codes "/r/x") [] mounted_all).0.0
unfolding resolve check_mounts mount_entry_check matches redirected external starts_with
found_there = tt

-- Another name is resolved and a mount added in between.
abbrev much_later : Resolver
much_later =
    add_mount_entry (codes "/r") (codes "DENY")
      (resolve system (codes "/data/x") [] (resolve system (codes "/r/x") [] mounted_all).1).1

resolve-resolve_example :
    resolve elsewhere (codes "/r/x") (codes "old") much_later
    ≡ ((changed, (resolve system (codes "/r/x") [] mounted_all).0.1), much_later)
resolve-resolve_example =
    resolve-resolve system elsewhere (codes "r/x") [] (codes "old") mounted_all much_later
      found_there
      (mounted (codes "/r") (codes "DENY") _ (resolved_again system (codes "/data/x") [] _ same))

abbrev later : Resolver
later = (resolve system (codes "/data/x") [] mounted_all).1

later_reached : Reached system mounts later
later_reached = resolved system (codes "/data/x") [] mounted_all refl configured

own-IsDenied : IsDenied system mounts (codes "/data/own/x")
unfolding matches starts_with
own-IsDenied = (record { prefix = codes "/data/own"; redirect = codes "DENY" }, refl, refl)

resolve_always_denied_example :
    resolve elsewhere (codes "/data/own/x") (codes "old") later ≡ ((denied, codes "old"), later)
resolve_always_denied_example =
    resolve_always_denied system elsewhere mounts (codes "/data/own/x") (codes "old") later refl
      later_reached own-IsDenied
