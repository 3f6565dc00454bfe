-- ===== src/Resolve/Again.antt =====
-- The cache of `pfs_resolve` of parrot/src/pfs_resolve.c.
use mathlib.Core.Path.{subst}
use murphy.Base.{
  ◌≡◌, refl, sym, ap, ◌∙◌, false, str_eq, str_eq_sound, Bool-cases, Option, none, some, ◌∷◌, Bytes,
  inl, inr, str_eq_refl, Option-cases,
}
use murphy.Base.Map.{put_at}
use murphy.Resolve.{
  System, Result, unchanged, changed, denied, enoent, failed, Resolver, check_mounts, finished,
  remembered, keep, resolve, add_mount_entry,
}
use murphy.Text.Path.{slash}
use murphy.Resolve.Path.{cleaned}
use murphy.Resolve.Clean.{absolute-IsClean, cleaned-IsClean, cleaned_clean}

-- A result with a physical name.
abbrev pub IsNamed : Result → Type 0
IsNamed unchanged = Unit
IsNamed changed = Unit
IsNamed denied = ⊥
IsNamed enoent = ⊥
IsNamed failed = ⊥

pub keep_known :
    (name p t : Bytes) (r : Resolver) → r.resolve_cache name ≡ some t → keep name p r ≡ r
keep_known name p t r e =
    ap
      (λ (o : Option Bytes). elim o [
        | none ↦ record r { resolve_cache = put_at r.resolve_cache name (some p) }
        | some t ↦ r
      ])
      e

pub keep_new :
    (name p : Bytes) (r : Resolver)
    → r.resolve_cache name ≡ none
    → keep name p r ≡ record r { resolve_cache = put_at r.resolve_cache name (some p) }
keep_new name p r e =
    ap
      (λ (o : Option Bytes). elim o [
        | none ↦ record r { resolve_cache = put_at r.resolve_cache name (some p) }
        | some t ↦ r
      ])
      e

pub cached :
    (sys : System) (name old t : Bytes) (r : Resolver)
    → r.resolve_cache name ≡ some t
    → resolve sys name old r ≡ ((changed, cleaned t), r)
unfolding resolve
cached sys name old t r e =
    ap
      (λ (o : Option Bytes).
        let x : Result × Bytes = elim o [
          | none ↦ check_mounts sys name r.mount_list old
          | some t ↦ (changed, t)
        ] in
        (finished name x, remembered name (finished name x) r))
      e
    ∙ ap (λ r'. ((changed, cleaned t), r')) (keep_known name (cleaned t) t r e)

pub uncached :
    (sys : System) (name old : Bytes) (r : Resolver) (x : Result × Bytes)
    → r.resolve_cache name ≡ none
    → check_mounts sys name r.mount_list old ≡ x
    → resolve sys name old r ≡ (finished name x, remembered name (finished name x) r)
unfolding resolve
uncached sys name old r x e f = rw (e, f) refl

-- A new name in the cache.
kept :
    (name p : Bytes) (r : Resolver)
    → r.resolve_cache name ≡ none
    → (keep name p r).resolve_cache name ≡ some p
kept name p r e =
    ap (λ (r' : Resolver). r'.resolve_cache name) (keep_new name p r e) ∙ rw (str_eq_refl name) refl

keep_other :
    (name n p : Bytes) (r : Resolver)
    → r.resolve_cache name ≡ none
    → str_eq name n ≡ false
    → (keep name p r).resolve_cache n ≡ r.resolve_cache n
keep_other name n p r e t =
    ap (λ (r' : Resolver). r'.resolve_cache n) (keep_new name p r e) ∙ rw t refl

pub remembered_other :
    (name n : Bytes) (x : Result × Bytes) (r : Resolver)
    → r.resolve_cache name ≡ none
    → str_eq name n ≡ false
    → (remembered name x r).resolve_cache n ≡ r.resolve_cache n
remembered_other name n (unchanged, p) r e t = keep_other name n p r e t
remembered_other name n (changed, p) r e t = keep_other name n p r e t
remembered_other name n (denied, p) r e t = refl
remembered_other name n (enoent, p) r e t = refl
remembered_other name n (failed, p) r e t = refl

-- The name is in the cache, and what is kept for it cleans up to `p`.
abbrev Has : Bytes → Bytes → Resolver → Type 0
Has name p r = (t : Bytes) × (r.resolve_cache name ≡ some t) × (cleaned t ≡ p)

Has-resolve :
    (sys : System) (name p old : Bytes) (r : Resolver)
    → Has name p r
    → resolve sys name old r ≡ ((changed, p), r)
Has-resolve sys name p old r (t, e, k) = cached sys name old t r e ∙ ap (λ q. ((changed, q), r)) k

-- The states that later calls lead to: names are resolved in any systems, and mounts are added.
pub data Later (r : Resolver) : Resolver → Type 0 where
  same : Later r r
  resolved_again :
      (sys : System) (name old : Bytes) (r' : Resolver)
      → Later r r'
      → Later r (resolve sys name old r').1
  mounted :
      (prefix redirect : Bytes) (r' : Resolver)
      → Later r r'
      → Later r (add_mount_entry prefix redirect r')

-- A call for any name leaves what is kept for this one.
asked-Has :
    (sys : System) (name n p old : Bytes) (r : Resolver)
    → Has name p r
    → Has name p (resolve sys n old r).1
asked-Has sys name n p old r (t, e, k) = elim (Option-cases (r.resolve_cache n)) [
  | inr (u, f) ↦
      subst (λ (y : (Result × Bytes) × Resolver). Has name p y.1) (sym (cached sys n old u r f))
        (t, e, k)
  | inl f ↦ elim (Bool-cases (str_eq n name)) [
    | inl q ↦
        let clash : none ≡ some t = sym f ∙ ap r.resolve_cache (str_eq_sound n name q) ∙ e in cc
    | inr q ↦
        subst (λ (y : (Result × Bytes) × Resolver). Has name p y.1)
          (sym (uncached sys n old r _ f refl)) (t, remembered_other n name _ r f q ∙ e, k)
  ]
]

Later-Has : (name p : Bytes) (r r' : Resolver) → Later r r' → Has name p r → Has name p r'
Later-Has name p r _ same h = h
Later-Has name p r _ (resolved_again sys n old r' l) h =
    asked-Has sys name n p old r' (Later-Has name p r r' l h)
Later-Has name p r _ (mounted prefix redirect r' l) h = Later-Has name p r r' l h

finished-Has :
    (s : Bytes) (r : Resolver) (x : Result × Bytes)
    → r.resolve_cache (slash ∷ s) ≡ none
    → IsNamed (finished (slash ∷ s) x).0
    → Has (slash ∷ s) (finished (slash ∷ s) x).1 (remembered (slash ∷ s) (finished (slash ∷ s) x) r)
finished-Has s r (unchanged, p) e h =
    (slash ∷ s, kept (slash ∷ s) (slash ∷ s) r e, cleaned_clean (slash ∷ s) (absolute-IsClean s))
finished-Has s r (changed, p) e h =
    (cleaned p, kept (slash ∷ s) (cleaned p) r e, cleaned_clean (cleaned p) (cleaned-IsClean p))
finished-Has s r (denied, p) e h = absurd h
finished-Has s r (enoent, p) e h = absurd h
finished-Has s r (failed, p) e h = absurd h

resolve-Has :
    (sys : System) (s old : Bytes) (r : Resolver)
    → IsNamed (resolve sys (slash ∷ s) old r).0.0
    → Has (slash ∷ s) (resolve sys (slash ∷ s) old r).0.1 (resolve sys (slash ∷ s) old r).1
resolve-Has sys s old r h = elim (Option-cases (r.resolve_cache (slash ∷ s))) [
  | inl e ↦
      let t = uncached sys (slash ∷ s) old r _ e refl in
      subst (λ (y : (Result × Bytes) × Resolver). Has (slash ∷ s) y.0.1 y.1) (sym t)
        (finished-Has s r _ e (subst (λ (y : (Result × Bytes) × Resolver). IsNamed y.0.0) t h))
  | inr (p, e) ↦
      subst (λ (y : (Result × Bytes) × Resolver). Has (slash ∷ s) y.0.1 y.1)
        (sym (cached sys (slash ∷ s) old p r e)) (p, e, refl)
]

-- A name that was resolved keeps its physical name: where `pfs_resolve` gives one for an absolute name,
-- a call for the name after any calls for any names, and after any mounts were added, gives the same and
-- changes nothing, whatever the resolvers and files of the system say by then.
pub resolve-resolve :
    (sys sys' : System) (s old old' : Bytes) (r r' : Resolver)
    → IsNamed (resolve sys (slash ∷ s) old r).0.0
    → Later (resolve sys (slash ∷ s) old r).1 r'
    → resolve sys' (slash ∷ s) old' r' ≡ ((changed, (resolve sys (slash ∷ s) old r).0.1), r')
resolve-resolve sys sys' s old old' r r' h l =
    Has-resolve sys' (slash ∷ s) _ old' r'
      (Later-Has (slash ∷ s) _ _ r' l (resolve-Has sys s old r h))
