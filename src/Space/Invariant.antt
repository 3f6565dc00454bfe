-- ===== src/Space/Invariant.antt =====
-- What each call of chirp/src/chirp_alloc.c keeps true of every allocation.
use murphy.Base.{if_cases, option_cases, ◌≡◌, Bool, none, some, Bytes, arith, str_eq, ◌==◌}
use murphy.Base.Int.{as_int, ℤ, pos, ◌≤ℤ◌, leb_ℤ, ltb_ℤ}
use murphy.Space.{
  Cfs, AllocState, Server, alloc_state_update, assign_state, alloc_state_cache_exact,
  alloc_state_cache, space_consumed, is_negative, is_zero, new_state, size_or,
}
use murphy.Space.File.{
  negated, is_positive, pwrite, ftruncate, truncate, open_file, close_file, unlink, put, putfile,
}
use murphy.Space.Amount.{space_consumed_nonneg, not_below_zero_consumed}
use murphy.Space.Tree.{move, rename, mkalloc, rmdir}
use murphy.Space.Keep.{
  AllHave, exact_state, assign_state-AllHave, unassign-AllHave, Keeps, KeepsAny, resize-Keeps,
}

module _ {S : Type 0} (cfs : Cfs S) (P : AllocState → Type 0)
    (step : (a : AllocState) (c : ℤ) → P a → c ≤ℤ a.avail → P (alloc_state_update a c)) where
  -- The property of the state that a search finds.
  at_hand :
      (w : Server S) (path : Bytes) (x : Bytes × AllocState)
      → AllHave P w.allocs
      → alloc_state_cache_exact w.allocs path ≡ some x
      → P x.1
  at_hand w path x h e = h x.0 x.1 (exact_state w.allocs path x.0 x.1 e)

  pub pwrite-Keeps :
      (fd : ℤ) (bytes : Bytes) (length offset : ℤ) (w : Server S)
      → AllHave P w.allocs
      → KeepsAny P (pwrite cfs fd bytes length offset w)
  unfolding pwrite
  pwrite-Keeps fd bytes length offset w h =
      if_cases (KeepsAny P) w.enabled _ _
        (λ on. option_cases (KeepsAny P) (w.fd_table fd) _ _ tt (λ path is_open.
          option_cases (KeepsAny P) (alloc_state_cache w.allocs path) _ _ h
            (λ x e. resize-Keeps P cfs step _ _ x.0 x.1 _ _ _ (at_hand w _ x h e) h)))
        (λ off. h)

  pub ftruncate-Keeps :
      (fd length : ℤ) (w : Server S) → AllHave P w.allocs → KeepsAny P (ftruncate cfs fd length w)
  unfolding ftruncate
  ftruncate-Keeps fd length w h =
      if_cases (KeepsAny P) w.enabled _ _
        (λ on. option_cases (KeepsAny P) (w.fd_table fd) _ _ tt (λ path is_open.
          option_cases (KeepsAny P) (alloc_state_cache w.allocs path) _ _ h
            (λ x e. resize-Keeps P cfs step _ _ x.0 x.1 _ _ _ (at_hand w _ x h e) h)))
        (λ off. h)

  pub truncate-Keeps :
      (path : Bytes) (length : ℤ) (w : Server S)
      → AllHave P w.allocs
      → Keeps P (truncate cfs path length w)
  unfolding truncate
  truncate-Keeps path length w h =
      if_cases (Keeps P) w.enabled _ _
        (λ on.
          option_cases (Keeps P) (alloc_state_cache w.allocs path) _ _ h
            (λ x e. resize-Keeps P cfs step _ _ x.0 x.1 _ _ _ (at_hand w _ x h e) h))
        (λ off. h)

  pub close-Keeps : (fd : ℤ) (w : Server S) → AllHave P w.allocs → Keeps P (close_file cfs fd w)
  unfolding close_file
  close-Keeps fd w h = if_cases (Keeps P) w.enabled _ _ (λ on. h) (λ off. h)

  -- Calls that may give space back.
  module _
      (lower : (a : AllocState) (n : ℤ)
        → P a
        → pos 0 ≤ℤ n
        → P (alloc_state_update a (negated n))) where
    pub unlink-Keeps :
        (path : Bytes) (w : Server S) → AllHave P w.allocs → Keeps P (unlink cfs path w)
    unfolding unlink
    unlink-Keeps path w h =
        if_cases (Keeps P) w.enabled _ _
          (λ on. option_cases (Keeps P) (alloc_state_cache w.allocs path) _ _ h (λ x e.
            if_cases (Keeps P) (is_negative (size_or (cfs.stat path w.world).0)) _ _ (λ n. h)
              (λ n.
                if_cases (Keeps P) (is_zero (cfs.unlink path (cfs.stat path w.world).1).0) _ _
                  (λ z.
                    assign_state-AllHave P w.allocs x.0 _
                      (lower x.1 _ (at_hand w _ x h e) (space_consumed_nonneg _ n)) h)
                  (λ z. h))))
          (λ off. h)

    pub open-Keeps :
        (path : Bytes) (flags : ℤ) (trunc : Bool) (w : Server S)
        → AllHave P w.allocs
        → Keeps P (open_file cfs path flags trunc w)
    unfolding open_file
    open-Keeps path flags trunc w h =
        if_cases (Keeps P) w.enabled _ _
          (λ on. option_cases (Keeps P) (alloc_state_cache w.allocs path) _ _ h (λ x e.
            if_cases (Keeps P) (is_negative (cfs.open_file path flags (cfs.stat path w.world).1).0)
              _ _ (λ n. h)
              (λ n.
                if_cases (Keeps P) trunc _ _
                  (λ t.
                    assign_state-AllHave P w.allocs x.0 _
                      (lower x.1 _ (at_hand w _ x h e) (not_below_zero_consumed _)) h)
                  (λ t. h))))
          (λ off. h)

    pub rmdir-Keeps :
        (path : Bytes) (w : Server S)
        → ((a b : AllocState) → P a → P b → P (alloc_state_update a (negated b.size)))
        → AllHave P w.allocs
        → Keeps P (rmdir cfs path w)
    unfolding rmdir
    rmdir-Keeps path w credit h =
        if_cases (Keeps P) w.enabled _ _
          (λ on. option_cases (Keeps P) (alloc_state_cache_exact w.allocs path) _ _ h (λ y f.
            option_cases (Keeps P) (alloc_state_cache w.allocs path) _ _ h (λ x e.
              if_cases (Keeps P) (is_zero (cfs.rmdir path w.world).0) _ _
                (λ z.
                  if_cases (λ (v : Server S). AllHave P v.allocs) (str_eq y.0 x.0) _ _ (λ t. h)
                    (λ t.
                      assign_state-AllHave P (assign_state w.allocs y.0 none) x.0 _
                        (credit x.1 y.1 (at_hand w _ x h e) (at_hand w _ y h f))
                        (unassign-AllHave P w.allocs y.0 h)))
                (λ z. h))))
          (λ off. h)

  pub mkalloc-Keeps :
      (path : Bytes) (size : ℤ) (w : Server S)
      → P (new_state size)
      → AllHave P w.allocs
      → Keeps P (mkalloc cfs path size w)
  unfolding mkalloc
  mkalloc-Keeps path size w new h =
      if_cases (Keeps P) w.enabled _ _
        (λ on. option_cases (Keeps P) (alloc_state_cache w.allocs path) _ _ h (λ x e.
          if_cases (Keeps P) (ltb_ℤ size x.1.avail) _ _
            (λ fits.
              if_cases (Keeps P) (is_zero (cfs.mkdir path w.world).0) _ _
                (λ z.
                  if_cases (Keeps P)
                    (is_zero (cfs.create_state path size (cfs.mkdir path w.world).1).0) _ _
                    (λ c.
                      assign_state-AllHave P (assign_state w.allocs path (some (new_state size)))
                        x.0 _ (step x.1 size (at_hand w _ x h e) (grind arith))
                        (assign_state-AllHave P w.allocs path _ new h))
                    (λ c. h))
                (λ z. h))
            (λ tight. h)))
        (λ off. h)

-- The calls that add what a file consumes without having compared it with the free space.
module _ {S : Type 0} (cfs : Cfs S) (P : AllocState → Type 0)
    (any : (a : AllocState) (c : ℤ) → P a → P (alloc_state_update a c)) where
  put-Keeps :
      (path : Bytes) (length : ℤ) (w : Server S)
      → AllHave P w.allocs
      → Keeps P (put cfs path length w)
  unfolding put
  put-Keeps path length w h = option_cases (Keeps P) (alloc_state_cache w.allocs path) _ _ h (λ x e.
      if_cases (Keeps P) (ltb_ℤ length x.1.avail) _ _
        (λ fits.
          if_cases (Keeps P) (is_positive (as_int (cfs.putfile path length w.world).0)) _ _
            (λ got.
              assign_state-AllHave P w.allocs x.0 _
                (any x.1 _ (h x.0 x.1 (exact_state w.allocs _ x.0 x.1 e))) h)
            (λ none_got. h))
        (λ tight. h))

  pub putfile-Keeps :
      (path : Bytes) (length : ℤ) (w : Server S)
      → AllHave P w.allocs
      → Keeps P (putfile cfs path length w)
  unfolding putfile
  putfile-Keeps path length w h =
      let gone =
        unlink-Keeps cfs P (λ a c p q. any a c p) (λ a n p q. any a (negated n) p) path w h in
      let r = unlink cfs path w in
      if_cases (Keeps P) w.enabled _ _
        (λ on.
          if_cases (Keeps P) (is_negative r.0) _ _
            (λ n.
              if_cases (Keeps P) (cfs.errno r.1.world == 2) _ _
                (λ t. put-Keeps path length r.1 gone) (λ t. gone))
            (λ n. put-Keeps path length r.1 gone))
        (λ off. h)

  pub rename-Keeps :
      (oldpath newpath : Bytes) (w : Server S)
      → AllHave P w.allocs
      → Keeps P (rename cfs oldpath newpath w)
  unfolding rename move
  rename-Keeps oldpath newpath w h =
      if_cases (Keeps P) w.enabled _ _
        (λ on. option_cases (Keeps P) (alloc_state_cache w.allocs oldpath) _ _ h (λ x e.
          option_cases (Keeps P) (alloc_state_cache w.allocs newpath) _ _ h (λ y f.
            if_cases (Keeps P) (str_eq x.0 y.0) _ _ (λ t. h)
              (λ t.
                let n = size_or (cfs.stat oldpath w.world).0 in
                if_cases (Keeps P) (is_negative n) _ _ (λ bad. h)
                  (λ good.
                    if_cases (Keeps P) (leb_ℤ n y.1.avail) _ _
                      (λ fits.
                        if_cases (λ (v : Server S). AllHave P v.allocs)
                          (is_zero (cfs.rename oldpath newpath (cfs.stat oldpath w.world).1).0) _ _
                          (λ z.
                            assign_state-AllHave P
                              (assign_state w.allocs x.0
                                (some (alloc_state_update x.1 (negated (space_consumed n)))))
                              y.0 _ (any y.1 _ (h y.0 y.1 (exact_state w.allocs _ y.0 y.1 f)))
                              (assign_state-AllHave P w.allocs x.0 _
                                (any x.1 _ (h x.0 x.1 (exact_state w.allocs _ x.0 x.1 e))) h))
                          (λ z. h))
                      (λ tight. h))))))
        (λ off. h)
