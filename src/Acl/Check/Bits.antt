-- ===== src/Acl/Check/Bits.antt =====
-- The flags of chirp/src/chirp_acl.h bit by bit.
use murphy.Base.{◌≡◌, refl, ◌↔◌, Bool, true, false, not, ◌&&◌, ◌||◌, ◌⊎◌, inl, inr, arith}
use murphy.Acl.Check.{on_rights, on_flags, rights_within, flags_within}
use murphy.Acl.Flags.{Rights, Flags}

pub data Right : Type 0 where
  reads : Right
  writes : Right
  lists : Right
  deletes : Right
  puts : Right
  admins : Right
  executes : Right
  reserves : Right

-- A bit: a right in a directory, or one that `v(…)` grants in a new directory.
pub data Bit : Type 0 where
  own_bit : Right → Bit
  reserved_bit : Right → Bit

abbrev pub granted : Right → Rights → Bool
granted reads r = r.read
granted writes r = r.write
granted lists r = r.list
granted deletes r = r.delete
granted puts r = r.put
granted admins r = r.admin
granted executes r = r.execute
granted reserves r = r.reserve

abbrev pub has : Bit → Flags → Bool
has (own_bit r) f = granted r f.own
has (reserved_bit r) f = granted r f.reserved

granted-on_rights :
    (f : Bool → Bool → Bool) (r : Right) (a b : Rights)
    → granted r (on_rights f a b) ≡ f (granted r a) (granted r b)
unfolding on_rights
granted-on_rights f reads a b = refl
granted-on_rights f writes a b = refl
granted-on_rights f lists a b = refl
granted-on_rights f deletes a b = refl
granted-on_rights f puts a b = refl
granted-on_rights f admins a b = refl
granted-on_rights f executes a b = refl
granted-on_rights f reserves a b = refl

pub has-on_flags :
    (f : Bool → Bool → Bool) (b : Bit) (x y : Flags)
    → has b (on_flags f x y) ≡ f (has b x) (has b y)
unfolding on_flags
has-on_flags f (own_bit r) x y = granted-on_rights f r x.own y.own
has-on_flags f (reserved_bit r) x y = granted-on_rights f r x.reserved y.reserved

pub and_left : (a b : Bool) → (a && b) ≡ true → a ≡ true
and_left true b h = refl
and_left false b h = h

pub and_right : (a b : Bool) → (a && b) ≡ true → b ≡ true
and_right true b h = h
and_right false b h = absurd (grind arith)

pub and_both : (a b : Bool) → a ≡ true → b ≡ true → (a && b) ≡ true
and_both a b h k = rw (h, k) refl

pub or_cases : (a b : Bool) → (a || b) ≡ true → (a ≡ true) ⊎ (b ≡ true)
or_cases true b h = inl refl
or_cases false b h = inr h

implied : (a b : Bool) → (not a || b) ≡ true → a ≡ true → b ≡ true
implied true b h k = h
implied false b h k = absurd (grind arith)

implies : (a b : Bool) → (a ≡ true → b ≡ true) → (not a || b) ≡ true
implies true b f = f refl
implies false b f = refl

rights_within-granted :
    (a b : Rights)
    → rights_within a b ≡ true
    → (r : Right) → granted r a ≡ true
    → granted r b ≡ true
unfolding rights_within
rights_within-granted a b h r =
    let h1 = and_right _ _ h in
    let h2 = and_right _ _ h1 in
    let h3 = and_right _ _ h2 in
    let h4 = and_right _ _ h3 in
    let h5 = and_right _ _ h4 in
    let h6 = and_right _ _ h5 in
    elim r as (λ r. granted r a ≡ true → granted r b ≡ true) [
      | reads ↦ implied a.read b.read (and_left _ _ h)
      | writes ↦ implied a.write b.write (and_left _ _ h1)
      | lists ↦ implied a.list b.list (and_left _ _ h2)
      | deletes ↦ implied a.delete b.delete (and_left _ _ h3)
      | puts ↦ implied a.put b.put (and_left _ _ h4)
      | admins ↦ implied a.admin b.admin (and_left _ _ h5)
      | executes ↦ implied a.execute b.execute (and_left _ _ h6)
      | reserves ↦ implied a.reserve b.reserve (and_right _ _ h6)
    ]

granted-rights_within :
    (a b : Rights)
    → ((r : Right) → granted r a ≡ true → granted r b ≡ true)
    → rights_within a b ≡ true
unfolding rights_within
granted-rights_within a b f = and_both _ _ (implies a.read b.read (f reads)) (
    and_both _ _ (implies a.write b.write (f writes)) (
      and_both _ _ (implies a.list b.list (f lists)) (
        and_both _ _ (implies a.delete b.delete (f deletes)) (
          and_both _ _ (implies a.put b.put (f puts)) (
            and_both _ _ (implies a.admin b.admin (f admins)) (
              and_both _ _ (implies a.execute b.execute (f executes))
                (implies a.reserve b.reserve (f reserves))))))))

-- `(flags & myflags) == flags`, bit by bit.
pub flags_within_lem :
    (a b : Flags) → (flags_within a b ≡ true) ↔ ((i : Bit) → has i a ≡ true → has i b ≡ true)
flags_within_lem a b = (
  λ h i. elim i as (λ i. has i a ≡ true → has i b ≡ true) [
    | own_bit r ↦ rights_within-granted a.own b.own (and_left _ _ h) r
    | reserved_bit r ↦ rights_within-granted a.reserved b.reserved (and_right _ _ h) r
  ],
  λ f.
      and_both _ _ (granted-rights_within a.own b.own (λ r. f (own_bit r)))
        (granted-rights_within a.reserved b.reserved (λ r. f (reserved_bit r))),
)
