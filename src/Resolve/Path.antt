-- ===== src/Resolve/Path.antt =====
-- `clean_up_path` of parrot/src/pfs_resolve.c.
use murphy.Base.{
  ℕ, zero, suc, ◌+◌, ◌||◌, Option, none, some, [], ◌∷◌, ◌++◌, Bytes, codes, str_eq, length, drop,
  ◌==◌, if◌then◌else◌,
}
use murphy.Controller.Line.{is_space}
use murphy.Text.Ends.{drop_while}
use murphy.Text.Path.{slash}
use murphy.Text.Match.{starts_with}

-- The bytes that `%[^:/]` takes, and what follows.
unfoldable pub cut_scheme : Bytes → Bytes × Bytes
cut_scheme [] = ([], [])
cut_scheme (c ∷ s) =
    let (prefix, rest) = cut_scheme s in
    if c == b':' || c == slash then ([], c ∷ s) else (c ∷ prefix, rest)

-- What `:%s` finds behind a prefix that is not empty.
abbrev pub scheme_at : Bytes → Bytes → Option (Bytes × Bytes)
scheme_at [] s = none
scheme_at (c ∷ prefix) [] = none
scheme_at (c ∷ prefix) (d ∷ s) =
    if d == b':'
    then elim (drop_while is_space s) [ [] ↦ none | x ∷ rest ↦ some (c ∷ prefix, drop 1 s) ]
    else none

-- `sscanf(path, "%[^:/]:%s", prefix, rest) == 2`: the prefix, and what stands behind the byte after the
-- colon.
unfoldable pub scan_scheme : Bytes → Option (Bytes × Bytes)
scan_scheme path = scheme_at (cut_scheme path).0 (cut_scheme path).1

abbrev pub renamed : Bytes → Bytes
renamed prefix = if str_eq prefix (codes "remote") then codes "chirp/CONDOR" else prefix

abbrev pub buffer_prefix : Bytes
buffer_prefix = codes "buffer:"

-- `clean_up_path`, on fuel; `none` where it does not suffice.
unfoldable pub clean_up_path : ℕ → Bytes → Option Bytes
clean_up_path zero path = none
clean_up_path (suc n) path =
    if starts_with buffer_prefix path
    then clean_up_path n (drop 7 path)
    else elim (scan_scheme path) [
      | none ↦ some path
      | some (prefix, rest) ↦ clean_up_path n (slash ∷ renamed prefix ++ slash ∷ rest)
    ]

-- Every round but one makes the path shorter, and behind that one no more follows.
abbrev pub rounds : Bytes → ℕ
rounds path = length path + 2

abbrev pub or_same : Bytes → Option Bytes → Bytes
or_same path none = path
or_same path (some p) = p

abbrev pub cleaned : Bytes → Bytes
cleaned path = or_same path (clean_up_path (rounds path) path)
