-- ===== src/Channel/Regions.antt =====
-- What the ring of parrot/src/pfs_channel.c promises: its entries lie one behind the other inside
-- the file, and the regions in use are what a client holds.
use murphy.Base.{
  ℕ, ◌+◌, ◌≤◌, ◌<◌, ◌≡◌, refl, Bool, true, false, List, [], ◌∷◌, ◌++◌, arith, if◌then◌else◌,
}
use murphy.Channel.{Entry, Channel}

-- The entries have positive lengths, follow one another from `lo` on and end by `hi`.
abbrev pub Ordered : ℕ → List Entry → ℕ → Type 0
Ordered lo [] hi = lo ≤ hi
Ordered lo (e ∷ es) hi = (lo ≤ e.start) × (0 < e.length) × Ordered (e.start + e.length) es hi

pub record IsValid (c : Channel) : Type 0 where
  pub ordered : Ordered 0 c.entries c.size
  pub paged : 0 < c.page_size

-- The regions in use, as (offset, length).
abbrev pub Regions : Type 0
Regions = List (ℕ × ℕ)

abbrev pub used : List Entry → Regions
used [] = []
used (e ∷ es) = if e.inuse then (e.start, e.length) ∷ used es else used es

-- The bytes that the entries cover.
abbrev pub total : List Entry → ℕ
total [] = 0
total (e ∷ es) = e.length + total es

pub used-append : (xs ys : List Entry) → used (xs ++ ys) ≡ used xs ++ used ys
used-append [] ys = refl
used-append (x ∷ xs) ys = ground (arith, used-append xs ys)

pub total-append : (xs ys : List Entry) → total (xs ++ ys) ≡ total xs + total ys
total-append [] ys = omega arith
total-append (x ∷ xs) ys = omega (arith, total-append xs ys)

pub Ordered-le : (lo : ℕ) (es : List Entry) (hi : ℕ) → Ordered lo es hi → lo ≤ hi
Ordered-le lo [] hi h = h
Ordered-le lo (e ∷ es) hi h = omega (arith, Ordered-le (e.start + e.length) es hi h.2)

pub Ordered-weaken :
    (lo lo' : ℕ) (es : List Entry) (hi hi' : ℕ)
    → lo' ≤ lo
    → hi ≤ hi'
    → Ordered lo es hi
    → Ordered lo' es hi'
Ordered-weaken lo lo' [] hi hi' p q h = omega arith
Ordered-weaken lo lo' (e ∷ es) hi hi' p q h = (
  omega arith,
  h.1,
  Ordered-weaken (e.start + e.length) (e.start + e.length) es hi hi' (omega arith) q h.2,
)

pub Ordered-append :
    (lo : ℕ) (xs ys : List Entry) (mid hi : ℕ)
    → Ordered lo xs mid
    → Ordered mid ys hi
    → Ordered lo (xs ++ ys) hi
Ordered-append lo [] ys mid hi h k = Ordered-weaken mid lo ys hi hi h (omega arith) k
Ordered-append lo (x ∷ xs) ys mid hi h k =
    (h.0, h.1, Ordered-append (x.start + x.length) xs ys mid hi h.2 k)

-- A split point of an ordered list.
pub Ordered-split :
    (lo : ℕ) (xs ys : List Entry) (hi : ℕ)
    → Ordered lo (xs ++ ys) hi
    → (mid : ℕ) × Ordered lo xs mid × Ordered mid ys hi
Ordered-split lo [] ys hi h = (lo, omega arith, h)
Ordered-split lo (x ∷ xs) ys hi h =
    let (mid, p, q) = Ordered-split (x.start + x.length) xs ys hi h.2 in (mid, (h.0, h.1, p), q)

-- Regions that follow one another from `lo` on and end by `hi`: no two overlap.
abbrev pub Apart : ℕ → Regions → ℕ → Type 0
Apart lo [] hi = lo ≤ hi
Apart lo (r ∷ rs) hi = (lo ≤ r.0) × (0 < r.1) × Apart (r.0 + r.1) rs hi

Apart-weaken : (lo lo' : ℕ) (rs : Regions) (hi : ℕ) → lo' ≤ lo → Apart lo rs hi → Apart lo' rs hi
Apart-weaken lo lo' [] hi p h = omega arith
Apart-weaken lo lo' (r ∷ rs) hi p h = (omega arith, h.1, h.2)

used-Apart : (lo : ℕ) (es : List Entry) (hi : ℕ) → Ordered lo es hi → Apart lo (used es) hi
used-Apart lo [] hi h = h
used-Apart lo (e ∷ es) hi h =
    let rest = used-Apart (e.start + e.length) es hi h.2 in go e.inuse rest
  where
    go :
        (b : Bool)
        → Apart (e.start + e.length) (used es) hi
        → Apart lo (if b then (e.start, e.length) ∷ used es else used es) hi
    go true rest = (h.0, h.1, rest)
    go false rest = Apart-weaken (e.start + e.length) lo (used es) hi (omega arith) rest

-- The regions that a valid channel has handed out lie inside the file and do not overlap.
pub IsValid-Apart : (c : Channel) → IsValid c → Apart 0 (used c.entries) c.size
IsValid-Apart c v = used-Apart 0 c.entries c.size v.ordered
