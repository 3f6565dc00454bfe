-- ===== src/Table/Int.antt =====
-- dttools/src/itable.c: a table from 64-bit integers to pointers. Addresses and the iterator are as in
-- `Table.Hash`; an insertion under a key that is there replaces the value.
pub mod Laws
pub mod Methods
pub mod Walk
mod Tests
use murphy.Base.{
  ℕ, zero, suc, ◌+◌, ◌-◌, ◌*◌, ◌%◌, Bool, true, false, Option, none, some, List, [], ◌∷◌, get_or,
  set, replicate, ◌==◌, if◌then◌else◌,
}
use murphy.Table.Chain.{find, erase, assign}

-- `struct entry`
pub record Entry : Type 0 where
  pub key : ℕ
  pub value : ℕ

-- `struct itable`
pub record IntTable : Type 0 where
  pub size : ℕ
  pub bucket_count : ℕ
  pub buckets : List (List Entry)
  pub ibucket : ℕ
  pub ientry : List Entry

-- `itable_create`, for a bucket count that is not negative, with memory for both blocks. The code
-- leaves the two iterator fields unset.
pub create : ℕ → IntTable
create bucket_count =
    let n = if bucket_count == 0 then 127 else bucket_count in
    record { size = 0; bucket_count = n; buckets = replicate n []; ibucket = 0; ientry = [] }

-- The test in the three loops.
pub hit : ℕ → Entry → Bool
hit key e = key == e.key

-- `key % h->bucket_count`
abbrev pub index : ℕ → ℕ → ℕ
index key n = key % n

abbrev pub bucket : IntTable → ℕ → List Entry
bucket h key = get_or h.buckets (index key h.bucket_count) []

abbrev pub value_or_null : Option Entry → ℕ
value_or_null none = 0
value_or_null (some e) = e.value

-- `itable_lookup`
pub lookup : IntTable → ℕ → ℕ
lookup h key = value_or_null (find hit key (bucket h key))

abbrev pub put_value : ℕ → Entry → Entry
put_value value e = record e { value = value }

-- `itable_insert`. The flag tells whether the allocation of a new entry finds memory; the result is
-- what the code returns.
pub insert : Bool → IntTable → ℕ → ℕ → Bool × IntTable
insert memory h key value = elim (find hit key (bucket h key)) [
  | some e ↦ (
    true,
    record h {
      buckets =
          set h.buckets (index key h.bucket_count)
            (assign hit key (put_value value) (bucket h key));
    },
  )
  | none ↦
      if memory
      then (
        true,
        record h {
          buckets =
              set h.buckets (index key h.bucket_count)
                (record { key = key; value = value } ∷ bucket h key);
          size = h.size + 1;
        },
      )
      else (false, h)
]

-- `itable_remove`
pub remove : IntTable → ℕ → ℕ × IntTable
remove h key = elim (find hit key (bucket h key)) [
  | none ↦ (0, h)
  | some e ↦ (
    e.value,
    record h {
      buckets = set h.buckets (index key h.bucket_count) (erase hit key (bucket h key));
      size = h.size - 1;
    },
  )
]

-- `for(; h->ibucket < h->bucket_count; h->ibucket++) { … }` with the rounds that are left.
pub seek : ℕ → IntTable → IntTable
seek zero h = h
seek (suc n) h =
    let c = get_or h.buckets h.ibucket [] in
    let rest = seek n (record h { ibucket = h.ibucket + 1; ientry = [] }) in
    elim c [ [] ↦ rest | e ∷ es ↦ record h { ientry = e ∷ es } ]

-- `itable_firstkey`
pub firstkey : IntTable → IntTable
firstkey h = seek h.bucket_count (record h { ibucket = 0; ientry = [] })

-- The rest of `itable_nextkey`, with the chain behind the entry that is returned.
pub advance : IntTable → List Entry → IntTable
advance h [] =
    seek (h.bucket_count - (h.ibucket + 1)) (record h { ibucket = h.ibucket + 1; ientry = [] })
advance h (e ∷ es) = record h { ientry = e ∷ es }

-- `itable_nextkey`: the key and the value, or `none` where the code returns 0.
pub nextkey : IntTable → Option (ℕ × ℕ) × IntTable
nextkey h = elim h.ientry [ [] ↦ (none, h) | e ∷ es ↦ (some (e.key, e.value), advance h es) ]
