-- ===== src/Table/Hash.antt =====
-- dttools/src/hash_table.c: a table from strings to pointers.
-- A `void *` is its address, a number, and 0 is NULL. The hash function is the table's own, as in
-- the code; the default one, a published hash by Bob Jenkins, is not modelled. `size` and `ibucket`
-- are `int` in the code, which 2 ^ 31 entries would overflow.
pub mod Laws
pub mod Methods
pub mod Walk
mod Tests
use murphy.Base.{
  ℕ, zero, suc, ◌+◌, ◌-◌, ◌*◌, ◌%◌, Bool, true, false, ◌&&◌, Option, none, some, List, [], ◌∷◌,
  Bytes, str_eq, length, get_or, set, replicate, ltb, ◌==◌, if◌then◌else◌,
}
use murphy.Table.Chain.{find, erase}

-- `struct entry`; the chain is the list of its entries.
pub record Entry : Type 0 where
  pub key : Bytes
  pub value : ℕ
  pub hash : ℕ

-- `struct hash_table`. `ientry` is the chain from the entry that it points to, as it was when the
-- pointer was set; `[]` is NULL.
pub record HashTable : Type 0 where
  pub hash_func : Bytes → ℕ
  pub bucket_count : ℕ
  pub size : ℕ
  pub buckets : List (List Entry)
  pub ibucket : ℕ
  pub ientry : List Entry

abbrev pub default_size : ℕ
default_size = 127

-- `hash_table_create`, for a bucket count that is not negative, with memory for both blocks. The
-- code leaves the two iterator fields unset.
pub create : ℕ → (Bytes → ℕ) → HashTable
create bucket_count func =
    let n = if ltb bucket_count 1 then default_size else bucket_count in
    record {
      hash_func = func;
      bucket_count = n;
      size = 0;
      buckets = replicate n [];
      ibucket = 0;
      ientry = [];
    }

-- The test in the three loops: the stored hash first, then `strcmp`.
pub hit : (Bytes → ℕ) → Bytes → Entry → Bool
hit func key e = func key == e.hash && str_eq key e.key

-- `hash % h->bucket_count`
abbrev pub index : (Bytes → ℕ) → Bytes → ℕ → ℕ
index func key n = func key % n

abbrev pub bucket : HashTable → Bytes → List Entry
bucket h key = get_or h.buckets (index h.hash_func key h.bucket_count) []

abbrev pub value_or_null : Option Entry → ℕ
value_or_null none = 0
value_or_null (some e) = e.value

-- `hash_table_lookup`
pub lookup : HashTable → Bytes → ℕ
lookup h key = value_or_null (find (hit h.hash_func) key (bucket h key))

-- `hash_table_insert`. The first flag tells whether both allocations, of the entry and of its copy of
-- the key, find memory; the result is what the code returns.
pub insert : Bool → HashTable → Bytes → ℕ → Bool × HashTable
insert memory h key value =
    let hash = h.hash_func key in
    elim (find (hit h.hash_func) key (bucket h key)) [
      | some e ↦ (false, h)
      | none ↦
          if memory
          then (
            true,
            record h {
              buckets =
                  set h.buckets (hash % h.bucket_count)
                    (record { key = key; value = value; hash = hash } ∷ bucket h key);
              size = h.size + 1;
            },
          )
          else (false, h)
    ]

-- `hash_table_remove`
pub remove : HashTable → Bytes → ℕ × HashTable
remove h key = elim (find (hit h.hash_func) key (bucket h key)) [
  | none ↦ (0, h)
  | some e ↦ (
    e.value,
    record h {
      buckets =
          set h.buckets (index h.hash_func key h.bucket_count)
            (erase (hit h.hash_func) key (bucket h key));
      size = h.size - 1;
    },
  )
]

-- `for(; h->ibucket < h->bucket_count; h->ibucket++) { … }` with the rounds that are left.
pub seek : ℕ → HashTable → HashTable
seek zero h = h
seek (suc n) h =
    let c = get_or h.buckets h.ibucket [] in
    let rest = seek n (record h { ibucket = h.ibucket + 1; ientry = [] }) in
    elim c [ [] ↦ rest | e ∷ es ↦ record h { ientry = e ∷ es } ]

-- `hash_table_firstkey`
pub firstkey : HashTable → HashTable
firstkey h = seek h.bucket_count (record h { ibucket = 0; ientry = [] })

-- The rest of `hash_table_nextkey`, with the chain behind the entry that is returned.
pub advance : HashTable → List Entry → HashTable
advance h [] =
    seek (h.bucket_count - (h.ibucket + 1)) (record h { ibucket = h.ibucket + 1; ientry = [] })
advance h (e ∷ es) = record h { ientry = e ∷ es }

-- `hash_table_nextkey`: the key and the value, or `none` where the code returns 0.
pub nextkey : HashTable → Option (Bytes × ℕ) × HashTable
nextkey h = elim h.ientry [ [] ↦ (none, h) | e ∷ es ↦ (some (e.key, e.value), advance h es) ]
