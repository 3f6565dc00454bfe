-- ===== src/Resolve/Denied.antt =====
-- `DENY` in the mount list of parrot/src/pfs_resolve.c.
use mathlib.Core.Path.{subst}
use murphy.Text.Match.{starts_with}
use murphy.Base.{
  length, get_or, ◌==◌, ◌&&◌, ◌≡◌, refl, sym, ap, ◌∙◌, Bool, none, some, List, [], ◌∷◌, Bytes,
  if◌then◌else◌, Bool-cases, inl, inr, str_eq, str_eq_sound, codes, Option-cases, ◌||◌,
}
use murphy.Resolve.{
  System, Result, unchanged, changed, denied, enoent, failed, MountEntry, Resolver, matches,
  ends_in_slash, redirected, remembered, keep, resolve, new_resolver,
}
use murphy.Text.Path.{slash}
use murphy.Resolve.First.{first_match, by_entry, check_mounts_lem}
use murphy.Resolve.Again.{uncached, cached, keep_new, keep_known, remembered_other}

-- The first mount that matches the name says `DENY`.
abbrev pub IsDenied : System → List MountEntry → Bytes → Type 0
IsDenied sys mounts name =
    (e : MountEntry) × (first_match sys name mounts ≡ some e) × (e.redirect ≡ codes "DENY")

redirected_denied :
    (sys : System) (name prefix redirect old : Bytes)
    → redirect ≡ codes "DENY"
    → redirected sys name prefix redirect old ≡ (denied, old)
unfolding redirected
redirected_denied sys name prefix redirect old h = rw h refl

resolve_denied :
    (sys : System) (name old : Bytes) (r : Resolver)
    → r.resolve_cache name ≡ none
    → IsDenied sys r.mount_list name
    → resolve sys name old r ≡ ((denied, old), r)
resolve_denied sys name old r e (m, f, d) =
    uncached sys name old r (denied, old) e
      (check_mounts_lem sys name r.mount_list old
        ∙ ap (by_entry sys name old) f
        ∙ redirected_denied sys name m.prefix m.redirect old d)

matches-same :
    (sys sys' : System) (prefix name : Bytes)
    → sys.fnmatch ≡ sys'.fnmatch
    → matches sys prefix name ≡ matches sys' prefix name
unfolding matches
matches-same sys sys' prefix name h =
    ap
      (λ (f : Bytes → Bytes → Bool).
        f prefix name
        || (starts_with prefix name
            && (ends_in_slash prefix
                || (get_or name (length prefix) 0 == slash || length prefix == length name))))
      h

-- The mounts depend on the system by its patterns alone.
first_match-same :
    (sys sys' : System) (name : Bytes) (es : List MountEntry)
    → sys.fnmatch ≡ sys'.fnmatch
    → first_match sys name es ≡ first_match sys' name es
first_match-same sys sys' name [] h = refl
first_match-same sys sys' name (e ∷ es) h =
    ap (λ b. if b then some e else first_match sys name es) (matches-same sys sys' e.prefix name h)
    ∙ ap (λ o. if matches sys' e.prefix name then some e else o)
        (first_match-same sys sys' name es h)

-- The states after the configuration: names are resolved, while everything but the patterns may change.
pub data Reached (sys : System) (mounts : List MountEntry) : Resolver → Type 0 where
  configured : Reached sys mounts (record new_resolver { mount_list = mounts })
  resolved :
      (sys' : System) (name old : Bytes) (r : Resolver)
      → sys.fnmatch ≡ sys'.fnmatch
      → Reached sys mounts r
      → Reached sys mounts (resolve sys' name old r).1

-- No name that is denied is in the cache.
record IsGuarded (sys : System) (mounts : List MountEntry) (r : Resolver) : Type 0 where
  mounted : r.mount_list ≡ mounts
  hidden : (n : Bytes) → IsDenied sys mounts n → r.resolve_cache n ≡ none

keep-mounts : (name p : Bytes) (r : Resolver) → (keep name p r).mount_list ≡ r.mount_list
keep-mounts name p r = elim (Option-cases (r.resolve_cache name)) [
  | inl e ↦ ap (λ (r' : Resolver). r'.mount_list) (keep_new name p r e)
  | inr (t, e) ↦ ap (λ (r' : Resolver). r'.mount_list) (keep_known name p t r e)
]

remembered-mounts :
    (name : Bytes) (x : Result × Bytes) (r : Resolver)
    → (remembered name x r).mount_list ≡ r.mount_list
remembered-mounts name (unchanged, p) r = keep-mounts name p r
remembered-mounts name (changed, p) r = keep-mounts name p r
remembered-mounts name (denied, p) r = refl
remembered-mounts name (enoent, p) r = refl
remembered-mounts name (failed, p) r = refl

IsDenied-same :
    (sys sys' : System) (mounts mounts' : List MountEntry) (name : Bytes)
    → sys.fnmatch ≡ sys'.fnmatch
    → mounts' ≡ mounts
    → IsDenied sys mounts name
    → IsDenied sys' mounts' name
IsDenied-same sys sys' mounts mounts' name h m (e, f, d) =
    (e, ap (first_match sys' name) m ∙ sym (first_match-same sys sys' name mounts h) ∙ f, d)

resolved-IsGuarded :
    (sys sys' : System) (mounts : List MountEntry) (name old : Bytes) (r : Resolver)
    → sys.fnmatch ≡ sys'.fnmatch
    → IsGuarded sys mounts r
    → IsGuarded sys mounts (resolve sys' name old r).1
resolved-IsGuarded sys sys' mounts name old r h g = elim (Option-cases (r.resolve_cache name)) [
  | inr (t, e) ↦
      subst (λ (x : (Result × Bytes) × Resolver). IsGuarded sys mounts x.1)
        (sym (cached sys' name old t r e)) g
  | inl e ↦
      let u = uncached sys' name old r _ e refl in
      let state = λ (x : (Result × Bytes) × Resolver). x.1 in
      record {
        mounted =
            ap (λ (x : (Result × Bytes) × Resolver). x.1.mount_list) u
            ∙ remembered-mounts name _ r
            ∙ g.mounted;
        hidden = λ n d. elim (Bool-cases (str_eq name n)) [
          | inl t ↦
              let d' =
                subst (IsDenied sys' r.mount_list) (sym (str_eq_sound name n t))
                  (IsDenied-same sys sys' mounts r.mount_list n h g.mounted d) in
              ap (λ (x : (Result × Bytes) × Resolver). x.1.resolve_cache n)
                (resolve_denied sys' name old r e d')
              ∙ g.hidden n d
          | inr t ↦
              ap (λ (x : (Result × Bytes) × Resolver). x.1.resolve_cache n) u
              ∙ remembered_other name n _ r e t
              ∙ g.hidden n d
        ];
      }
]

Reached-IsGuarded :
    (sys : System) (mounts : List MountEntry) (r : Resolver)
    → Reached sys mounts r
    → IsGuarded sys mounts r
Reached-IsGuarded sys mounts _ configured = record { mounted = refl; hidden = λ n d. refl }
Reached-IsGuarded sys mounts _ (resolved sys' name old r h p) =
    resolved-IsGuarded sys sys' mounts name old r h (Reached-IsGuarded sys mounts r p)

-- A name whose first matching mount says `DENY` is denied, after any calls for any names and whatever
-- the system answers besides its patterns, and the call changes nothing.
pub resolve_always_denied :
    (sys sys' : System) (mounts : List MountEntry) (name old : Bytes) (r : Resolver)
    → sys.fnmatch ≡ sys'.fnmatch
    → Reached sys mounts r
    → IsDenied sys mounts name
    → resolve sys' name old r ≡ ((denied, old), r)
resolve_always_denied sys sys' mounts name old r h p d =
    let g = Reached-IsGuarded sys mounts r p in
    resolve_denied sys' name old r (g.hidden name d)
      (IsDenied-same sys sys' mounts r.mount_list name h g.mounted d)
