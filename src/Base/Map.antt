-- ===== src/Base/Map.antt =====
-- Maps from texts, for hash tables whose order does not matter.
use mathlib.Core.Path.{◌≡◌, refl, subst}
use mathlib.Core.Logic.{inl, inr}
use mathlib.Core.Option.{Option, none, some}
use murphy.Base.CString.{Bytes, str_eq, str_eq_refl}
use murphy.Base.Tests.{if◌then◌else◌, Bool-cases}

abbrev pub Map : Type 0 → Type 0
Map A = Bytes → Option A

abbrev pub empty_map : {A : Type 0} → Map A
empty_map k = none

abbrev pub put_at : {A : Type 0} → Map A → Bytes → Option A → Map A
put_at m k v q = if str_eq k q then v else m q

abbrev pub Holds : {A : Type 0} → (A → Type 0) → Option A → Type 0
Holds P none = Unit
Holds P (some a) = P a

-- What every entry of a map has.
abbrev pub Every : {A : Type 0} → (A → Type 0) → Map A → Type 0
Every P m = (k : Bytes) → Holds P (m k)

pub put_at-Every :
    {A : Type 0} (P : A → Type 0) (m : Map A) (k : Bytes) (v : Option A)
    → Every P m
    → Holds P v
    → Every P (put_at m k v)
put_at-Every P m k v h p q = elim (Bool-cases (str_eq k q)) [ inl t ↦ rw t p | inr t ↦ rw t (h q) ]

pub Holds_of_some :
    {A : Type 0} (P : A → Type 0) (x : Option A) (a : A) → x ≡ some a → Holds P x → P a
Holds_of_some P x a e h = subst (Holds P) e h

abbrev pub IsThere : {A : Type 0} → Map A → Bytes → Type 0
IsThere {A} m k = (a : A) × (m k ≡ some a)

pub put_at-IsThere :
    {A : Type 0} (m : Map A) (k : Bytes) (v : A) (q : Bytes)
    → IsThere m q
    → IsThere (put_at m k (some v)) q
put_at-IsThere m k v q (a, h) = elim (Bool-cases (str_eq k q)) [
  | inl t ↦ (v, rw t refl)
  | inr t ↦ (a, rw t h)
]

pub put_at-IsThere_self :
    {A : Type 0} (m : Map A) (k : Bytes) (v : A) → IsThere (put_at m k (some v)) k
put_at-IsThere_self m k v = (v, rw (str_eq_refl k) refl)
