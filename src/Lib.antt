-- ===== src/Lib.antt =====
-- A model of parts of Murphy, a C program that runs unmodified programs on remote storage and injects
-- faults into their system calls: dttools (its library of data structures and text routines), chirp (a
-- file server with access control and space allocation) and parrot (the tracer that redirects system
-- calls). Paths below are from the repository's directory murphy-1.0 on.
--
-- Acl: chirp/src/chirp_acl.c, of which Flags has the rights and their text, `chirp_acl_flags_to_text`
--   and `chirp_acl_text_to_flags`, and Check the check of a subject's rights: `acl_get` is
--   `do_chirp_acl_get`, `check_dir` `chirp_acl_check_dir` and `check` `do_chirp_acl_check`. `Store` is
--   the file system, the groups and the tickets below it. `acl_get` calls itself for the subject of a
--   ticket; two rounds are enough where no ticket stands for another. Results are `none` where the code
--   reads outside of a string, which a pattern or flags of a list can make it do. Set is the writing of
--   lists, `acl_set` for `chirp_acl_set`, with what becomes of the new file as a `Disk`; Reserve is
--   `chirp_acl_init_reserve` and the rights that flags of `access` and `open` ask for. The other lists of
--   new directories, and making or changing tickets, are not modelled.
-- Base: names that every file shares: the native numbers, their Boolean tests, lists, byte strings
--   as C has them (without the final NUL), signed integers.
-- Channel: parrot/src/pfs_channel.c, the allocator of regions in the file that tracer and traced
--   processes share. `Channel` is the record of its static variables; the circular list is the list
--   of its entries from `head` on. `init`, `round_up`, `alloc` and `free` are the `pfs_channel_…`
--   functions of these names; `scan` is the loop of `pfs_channel_alloc`, `expand` what it does when no
--   entry fits. `alloc` calls itself after an expansion, as the code does; each of these calls takes
--   one `Round`, what memory and system answered in it. Two rounds are enough when the first one
--   finds memory.
-- Controller: parrot/src/controller.cc, which decides whether a gremlin acts on a system call. `Controller`
--   is the record of its tables and static variables, with the tables as maps. Config has
--   `process_config_line`, `setconfig` and `init`, Evil `doevil` in the steps `find_config`,
--   `replay_decision` or `random_decision`, `constraint_holds` and `record_decision`, Log
--   `write_log_entry` and `read_log`, Line the routines of parrot/src/MyString.cc that these read
--   lines with, Run a sequence of calls of `doevil`. The ClassAd library and `rand_r` are the
--   argument `Library`. The loops over the lines of a text take its length as their rounds, since each
--   line has a byte at least.
-- Radix: ftp_lite/src/radix.c, base 64. `Phase` and `Place` are the position in a group of three
--   bytes or four digits, with the bits that are left over.
-- Resolve: parrot/src/pfs_resolve.c, the mount list. `Resolver` holds its static variables and `System`
--   what it asks the system; `resolve` is `pfs_resolve` and the other functions have the code's names,
--   `redirected` being what `mount_entry_check` does with an entry that matches. `clean_up_path` takes
--   the length of the path and two as its rounds.
-- Space: chirp/src/chirp_alloc.c, directories with a limit on their space. `Cfs` is the file system
--   below it, an argument of every call; `Server` holds the static variables, with the allocations
--   as a map from directories to their states. File has the calls on one file, Tree those on
--   names and directories, each named as in the code without its prefix `chirp_alloc_`; `climb` is
--   the loop of `alloc_state_root`, for which the length of the path and one are rounds enough, since
--   each round makes the path shorter. Call collects the calls in one type. pwrite, ftruncate and
--   truncate share `resize`.
-- Table: dttools/src/hash_table.c and dttools/src/itable.c, chained tables from strings and from
--   integers to pointers. Chain and Buckets hold what the two share; `Hash` and `Int` declare one
--   function for each function of the file, and `seek` is the loop of `firstkey` and `nextkey`, given
--   the number of buckets that are left.
-- Text: routines of dttools/src/stringtools.c: `chomp`, `remove_trailing_slashes`, `dirname`,
--   `split_path`, `split_multipath`, `collapse_path` (the functions `string_…` of these names) and
--   `string_match`, which access control lists use for their patterns; and dttools/src/url_encode.c.
--
-- A `malloc` is a flag that tells whether it finds memory. A pointer that is only stored is a number,
-- with 0 for NULL. Sizes and counters are natural numbers: signed overflow of them is not modelled.
-- Reading and writing files, sockets, child processes, the authentication methods, the traced
-- processes themselves and the third-party copies (classads, MD5, SHA-1, getopt) are not modelled.
pub mod Acl
pub mod Base
pub mod Channel
pub mod Controller
pub mod Radix
pub mod Resolve
pub mod Space
pub mod Table
pub mod Text
