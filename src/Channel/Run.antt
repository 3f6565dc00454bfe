-- ===== src/Channel/Run.antt =====
-- Channels of parrot/src/pfs_channel.c as a client gets them: `pfs_channel_init`, and then calls of
-- `pfs_channel_alloc` and `pfs_channel_free` in any order.
use murphy.Base.{ℕ, ◌<◌, ◌≡◌, sym, true, false, none, some, List, [], ◌∷◌, arith, All}
use mathlib.Core.Path.{subst}
use murphy.Base.Int.{ℤ}
use murphy.Channel.{Channel, Round, init, alloc, free, round_up}
use murphy.Channel.Alloc.Call.{alloc-Called}
use murphy.Channel.Free.Call.{free_lem}
use murphy.Channel.Held.{
  In, Disjoint, given_back, Within, Apart-Within, Taken-In, Taken-In_self, Taken-Clear, All-map,
  given_back-In, given_back-Disjoint,
}
use murphy.Channel.Regions.{IsValid, IsValid-Apart, Regions, used}

-- The channels that calls lead to, with what the client holds by its calls: at every offset that it was
-- given and did not give back since, its length in whole pages. It may also free offsets it does not hold.
pub data Reached (page size : ℕ) : Channel → Regions → Type 0 where
  started :
      (memory : ℕ → ℕ) (c : Channel) → init page size memory true ≡ some c → Reached page size c []
  given :
      (rs : List Round) (len : ℤ) (s : ℕ) (c c' : Channel) (held : Regions)
      → Reached page size c held
      → alloc rs len c ≡ some (some s, c')
      → Reached page size c' ((s, round_up c.page_size len) ∷ held)
  refused :
      (rs : List Round) (len : ℤ) (c c' : Channel) (held : Regions)
      → Reached page size c held
      → alloc rs len c ≡ some (none, c')
      → Reached page size c' held
  freed :
      (s : ℕ) (c : Channel) (held : Regions)
      → Reached page size c held
      → Reached page size (free s c) (given_back s held)

init-IsValid :
    (page size : ℕ) (memory : ℕ → ℕ) (c : Channel)
    → 0 < page
    → 0 < size
    → init page size memory true ≡ some c
    → IsValid c
unfolding init
init-IsValid page size memory c p s h =
    let e : record {
      entries = record { start = 0; length = size; inuse = false } ∷ [];
      size = size;
      page_size = page;
      memory = memory;
    }
        ≡ c =
      cc in
    subst IsValid e (record { ordered = (omega arith, s, omega arith); paged = p })

-- The ring is valid, and has all that the client holds as regions in use, apart from each other.
record IsKept (c : Channel) (held : Regions) : Type 0 where
  valid : IsValid c
  mine : All (λ r. In r (used c.entries)) held
  apart : Disjoint held

given-IsKept :
    (rs : List Round) (len : ℤ) (s : ℕ) (c c' : Channel) (held : Regions)
    → IsKept c held
    → alloc rs len c ≡ some (some s, c')
    → IsKept c' ((s, round_up c.page_size len) ∷ held)
given-IsKept rs len s c c' held k h =
    let d = alloc-Called rs len c k.valid h in
    let r : ℕ × ℕ = (s, round_up c.page_size len) in
    record {
      valid = d.valid;
      mine = (
        Taken-In_self r (used c.entries) (used c'.entries) d.effect,
        All-map held (λ q i. Taken-In r q (used c.entries) (used c'.entries) d.effect i) k.mine,
      );
      apart = (
        All-map held
            (λ q i.
              Taken-Clear r q (used c.entries) (used c'.entries) c'.size d.effect
                (IsValid-Apart c' d.valid) i)
            k.mine,
        k.apart,
      );
    }

refused-IsKept :
    (rs : List Round) (len : ℤ) (c c' : Channel) (held : Regions)
    → IsKept c held
    → alloc rs len c ≡ some (none, c')
    → IsKept c' held
refused-IsKept rs len c c' held k h =
    let d = alloc-Called rs len c k.valid h in
    record {
      valid = d.valid;
      mine = subst (λ us. All (λ r. In r us) held) (sym d.effect) k.mine;
      apart = k.apart;
    }

freed-IsKept :
    (s : ℕ) (c : Channel) (held : Regions) → IsKept c held → IsKept (free s c) (given_back s held)
freed-IsKept s c held k =
    let (valid, covered, left) = free_lem s c k.valid in
    record {
      valid = valid;
      mine =
          subst (λ us. All (λ r. In r us) (given_back s held)) (sym left)
            (given_back-In s held (used c.entries) k.mine);
      apart = given_back-Disjoint s held k.apart;
    }

Reached-IsKept :
    (page size : ℕ) (c : Channel) (held : Regions)
    → 0 < page
    → 0 < size
    → Reached page size c held
    → IsKept c held
Reached-IsKept page size c _ p q (started memory d h) = record {
  valid = init-IsValid page size memory c p q h;
  mine = tt;
  apart = tt;
}
Reached-IsKept page size c _ p q (given rs len s d d' held reach h) =
    given-IsKept rs len s d c held (Reached-IsKept page size d held p q reach) h
Reached-IsKept page size c _ p q (refused rs len d d' held reach h) =
    refused-IsKept rs len d c held (Reached-IsKept page size d held p q reach) h
Reached-IsKept page size c _ p q (freed s d held reach) =
    freed-IsKept s d held (Reached-IsKept page size d held p q reach)

-- Whatever calls a client makes after `pfs_channel_init` with a positive page size and size, the regions
-- at the offsets that `pfs_channel_alloc` gave it, each of its length in whole pages, and that it has not
-- given back, lie inside the file, and no two of them have a byte in common.
pub Reached-Disjoint :
    (page size : ℕ) (c : Channel) (held : Regions)
    → 0 < page
    → 0 < size
    → Reached page size c held
    → All (Within 0 c.size) held × Disjoint held
Reached-Disjoint page size c held p q reach =
    let k = Reached-IsKept page size c held p q reach in
    (
      All-map held (λ r i. Apart-Within 0 (used c.entries) c.size r (IsValid-Apart c k.valid) i)
          k.mine,
      k.apart,
    )
