-- ===== src/Resolve/First.antt =====
-- The loop of `pfs_resolve` of parrot/src/pfs_resolve.c: the mount that was added last and matches decides.
use murphy.Text.Match.{starts_with}
use murphy.Base.{
  str_eq, codes, drop, ◌≡◌, refl, ap, ◌∙◌, Bool, true, false, Option, none, some, List, [], ◌∷◌,
  ◌++◌, Bytes, if◌then◌else◌, Bool-cases, inl, inr, option_cases, if_cases,
}
use murphy.Resolve.{
  System, Result, unchanged, MountEntry, Resolver, new_resolver, add_mount_entry, mount_entry_check,
  check_mounts, matches, redirected, is_unchanged, external, lcache_paths, text_at,
}

IsDecided : Result × Bytes → Type 0
IsDecided x = is_unchanged x.0 ≡ false

IsDecided-by : (x : Result × Bytes) → is_unchanged x.0 ≡ false → IsDecided x
unfolding IsDecided
IsDecided-by x h = h

external-IsDecided :
    (sys : System) (name prefix command old : Bytes)
    → IsDecided (external sys name prefix command old)
unfolding external
external-IsDecided sys name prefix command old =
    option_cases IsDecided (sys.run_command (command ++ 32 ∷ text_at sys prefix name)) _ _
      (IsDecided-by _ refl)
      (λ r e. if_cases IsDecided r.1 _ _ (λ x. IsDecided-by _ refl) (λ x. IsDecided-by _ refl))

redirected-IsDecided :
    (sys : System) (name prefix redirect old : Bytes)
    → IsDecided (redirected sys name prefix redirect old)
unfolding redirected
redirected-IsDecided sys name prefix redirect old =
    if_cases IsDecided (str_eq redirect (codes "DENY")) _ _ (λ t. IsDecided-by _ refl)
      (λ t.
        if_cases IsDecided (str_eq redirect (codes "ENOENT")) _ _ (λ u. IsDecided-by _ refl)
          (λ u.
            if_cases IsDecided (str_eq redirect (codes "LOCAL")) _ _ (λ v. IsDecided-by _ refl)
              (λ v.
                if_cases IsDecided (starts_with (codes "resolver:") redirect) _ _
                  (λ w. external-IsDecided sys name prefix (drop 9 redirect) old)
                  (λ w.
                    option_cases IsDecided (lcache_paths redirect) _ _ (IsDecided-by _ refl)
                      (λ p e. IsDecided-by _ refl)))))

-- An entry that matches always decides.
redirected_decides :
    (sys : System) (name prefix redirect old : Bytes)
    → is_unchanged (redirected sys name prefix redirect old).0 ≡ false
unfolding IsDecided
redirected_decides sys name prefix redirect old = redirected-IsDecided sys name prefix redirect old

-- The first entry of a list that matches a name.
abbrev pub first_match : System → Bytes → List MountEntry → Option MountEntry
first_match sys name [] = none
first_match sys name (e ∷ es) =
    if matches sys e.prefix name then some e else first_match sys name es

abbrev pub by_entry : System → Bytes → Bytes → Option MountEntry → Result × Bytes
by_entry sys name old none = (unchanged, old)
by_entry sys name old (some e) = redirected sys name e.prefix e.redirect old

-- The mount list decides by its first entry that matches, alone.
pub check_mounts_lem :
    (sys : System) (name : Bytes) (es : List MountEntry) (old : Bytes)
    → check_mounts sys name es old ≡ by_entry sys name old (first_match sys name es)
unfolding check_mounts mount_entry_check
check_mounts_lem sys name [] old = refl
check_mounts_lem sys name (e ∷ es) old = elim (Bool-cases (matches sys e.prefix name)) [
  | inl t ↦ rw (t, redirected_decides sys name e.prefix e.redirect old) refl
  | inr t ↦ rw t (check_mounts_lem sys name es old)
]

-- Calls of `add_mount_entry`, in their order.
abbrev pub added : List MountEntry → Resolver → Resolver
added [] r = r
added (e ∷ es) r = added es (add_mount_entry e.prefix e.redirect r)

-- The last entry that matches a name.
abbrev or_else : Option MountEntry → Option MountEntry → Option MountEntry
or_else none y = y
or_else (some x) y = some x

abbrev pub last_match : System → Bytes → List MountEntry → Option MountEntry
last_match sys name [] = none
last_match sys name (e ∷ es) =
    or_else (last_match sys name es) (if matches sys e.prefix name then some e else none)

or_else-if :
    (x y : Option MountEntry) (b : Bool) (e : MountEntry)
    → or_else x (if b then some e else y) ≡ or_else (or_else x (if b then some e else none)) y
or_else-if (some x) y b e = refl
or_else-if none y true e = refl
or_else-if none y false e = refl

first_match-added :
    (sys : System) (name : Bytes) (es : List MountEntry) (r : Resolver)
    → first_match sys name (added es r).mount_list
      ≡ or_else (last_match sys name es) (first_match sys name r.mount_list)
first_match-added sys name [] r = refl
first_match-added sys name (e ∷ es) r =
    first_match-added sys name es (add_mount_entry e.prefix e.redirect r)
    ∙ or_else-if (last_match sys name es) (first_match sys name r.mount_list)
        (matches sys e.prefix name) e

or_else-none : (x : Option MountEntry) → or_else x none ≡ x
or_else-none none = refl
or_else-none (some x) = refl

-- When mounts have been added to an empty list by `add_mount_entry`, one after the other, the one that was
-- added last of those that match a name decides on it, alone. Without such a mount the name stays.
pub check_mounts-added :
    (sys : System) (name : Bytes) (es : List MountEntry) (old : Bytes)
    → check_mounts sys name (added es new_resolver).mount_list old
      ≡ by_entry sys name old (last_match sys name es)
check_mounts-added sys name es old =
    check_mounts_lem sys name (added es new_resolver).mount_list old
    ∙ ap (by_entry sys name old)
        (first_match-added sys name es new_resolver ∙ or_else-none (last_match sys name es))
