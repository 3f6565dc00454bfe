-- ===== src/Table/Hash/Methods.antt =====
-- The operations of dttools/src/hash_table.c on the map that the table stands for.
use mathlib.Core.Path.{subst}
use murphy.Base.{
  ℕ, ◌+◌, ◌-◌, ◌≡◌, ◌≢◌, get_or-replicate, str_eq, str_eq_sound, refl, Bool, true, false, none,
  some, [], ◌∷◌, Bytes, arith, length, replicate, length-replicate, ap, if◌then◌else◌, Bool-cases,
  Option-cases, inl, inr, ap, sym, ◌∙◌,
}
use murphy.Table.Chain.{
  find, erase, find_hit, find_miss, length-erase, find-erase_self, find-erase_ne, erase-ChainOk,
  absent_of_find,
}
use murphy.Table.Buckets
use murphy.Table.Buckets.{flatten-replicate}
use murphy.Table.Hash.{
  Entry, HashTable, create, hit, index, bucket, lookup, insert, remove, value_or_null,
}
use murphy.Table.Hash.Laws.{
  IsValid, IsHashed, hit_iff, key_of, view, Updates, write-Updates, bucket-Ok, write, Ok, test,
  decides, length-bucket-le,
}

create-IsPlaced :
    (n : ℕ) (func : Bytes → ℕ)
    → Buckets.IsPlaced (hit func) key_of (IsHashed func) (index func) (replicate n [])
create-IsPlaced n func = Buckets.replicate-IsPlaced (hit func) key_of (IsHashed func) (index func) n

-- A new table is valid and maps nothing, whatever bucket count was asked for.
pub create_lem :
    (n : ℕ) (func : Bytes → ℕ)
    → IsValid (create n func) × ((k : Bytes) → view (create n func) k ≡ none)
unfolding create find
create_lem n func = (
  record {
    counted = length-replicate _ [];
    roomy = ground arith;
    sized = ap length (flatten-replicate _);
    placed = create-IsPlaced _ func;
  },
  λ k. rw get_or-replicate,
)

-- The operations, a lemma for each branch.
module _ (h : HashTable) (k : Bytes) where
  abbrev pub fresh : ℕ → Entry
  fresh x = record { key = k; value = x; hash = h.hash_func k }

  insert-none :
      (x : ℕ) (v : IsValid h)
      → view h k ≡ none
      → insert true h k x ≡ (true, write h v k (fresh x ∷ bucket h k) (h.size + 1))
  unfolding insert
  insert-none x v e = rw (e, insert)

  remove-none : view h k ≡ none → remove h k ≡ (0, h)
  unfolding remove
  remove-none e = rw (e, remove)

  remove-some :
      (x : Entry) (v : IsValid h)
      → view h k ≡ some x
      → remove h k ≡ (x.value, write h v k (erase (hit h.hash_func) k (bucket h k)) (h.size - 1))
  unfolding remove
  remove-some x v e = rw (e, remove)

-- The entry that `insert` puts in front.
fresh-Ok :
    (h : HashTable) (v : IsValid h) (k : Bytes) (x : ℕ)
    → view h k ≡ none
    → Ok h v k (fresh h k x ∷ bucket h k)
fresh-Ok h v k x e =
    let (good, distinct) = bucket-Ok h v k in
    (
      ((refl, refl), good),
      (absent_of_find (test h v) key_of _ (decides h v k) k (bucket h k) good e, distinct),
    )

hit_self : (h : HashTable) (k : Bytes) (x : ℕ) → hit h.hash_func k (fresh h k x) ≡ true
hit_self h k x = (hit_iff h.hash_func k (fresh h k x) refl).1 refl

hit_other : (h : HashTable) (k q : Bytes) (x : ℕ) → q ≢ k → hit h.hash_func q (fresh h k x) ≡ false
hit_other h k q x ne = elim (Bool-cases (hit h.hash_func q (fresh h k x))) [
  | inl t ↦ absurd (ne (sym ((hit_iff h.hash_func q (fresh h k x) refl).0 t)))
  | inr t ↦ t
]

fresh-Updates :
    (h : HashTable) (v : IsValid h) (k : Bytes) (x : ℕ)
    → view h k ≡ none
    → Updates h k (some (fresh h k x)) (write h v k (fresh h k x ∷ bucket h k) (h.size + 1))
fresh-Updates h v k x e =
    let c = fresh h k x ∷ bucket h k in
    subst (λ o. Updates h k o (write h v k c (h.size + 1)))
      (find_hit (hit h.hash_func) k (fresh h k x) (bucket h k) (hit_self h k x))
      (write-Updates h v k c (h.size + 1) (fresh-Ok h v k x e) (omega arith)
        (λ q ne. find_miss (hit h.hash_func) q (fresh h k x) (bucket h k) (hit_other h k q x ne)))

pub insert_absent :
    (h : HashTable) (k : Bytes) (x : ℕ)
    → IsValid h
    → view h k ≡ none
    → ((insert true h k x).0 ≡ true) × Updates h k (some (fresh h k x)) (insert true h k x).1
insert_absent h k x v e =
    subst (λ (r : Bool × HashTable). (r.0 ≡ true) × Updates h k (some (fresh h k x)) r.1)
      (sym (insert-none h k x v e)) (refl, fresh-Updates h v k x e)

erase-Updates :
    (h : HashTable) (v : IsValid h) (k : Bytes) (x : Entry)
    → view h k ≡ some x
    → Updates h k none (write h v k (erase (hit h.hash_func) k (bucket h k)) (h.size - 1))
erase-Updates h v k x e =
    let c = erase (hit h.hash_func) k (bucket h k) in
    let ok = bucket-Ok h v k in
    subst (λ o. Updates h k o (write h v k c (h.size - 1)))
      (find-erase_self (test h v) key_of _ (decides h v k) k (bucket h k) ok)
      (write-Updates h v k c (h.size - 1)
        (erase-ChainOk (test h v) key_of _ (decides h v k) k (bucket h k) ok)
        (omega (arith, length-erase (hit h.hash_func) k (bucket h k) x e, length-bucket-le h v k))
        (λ q ne. find-erase_ne (test h v) key_of _ (decides h v k) k q (bucket h k) ok ne))

unchanged :
    (h : HashTable) (k : Bytes)
    → view h k ≡ none
    → (q : Bytes) → view h q ≡ (if str_eq k q then none else view h q)
unchanged h k e q = elim (Bool-cases (str_eq k q)) [
  | inl t ↦ ap (view h) (sym (str_eq_sound k q t)) ∙ e ∙ rw t
  | inr t ↦ rw t
]

-- `hash_table_remove` returns what the key mapped to, or NULL, and afterwards the key maps to nothing
-- and the others as before.
pub remove_lem :
    (h : HashTable) (k : Bytes)
    → IsValid h
    → ((remove h k).0 ≡ value_or_null (view h k)) × Updates h k none (remove h k).1
remove_lem h k v = elim (Option-cases (view h k)) [
  | inl e ↦
      subst (λ (r : ℕ × HashTable). (r.0 ≡ value_or_null (view h k)) × Updates h k none r.1)
        (sym (remove-none h k e))
        (ap value_or_null (sym e), record { valid = v; maps = unchanged h k e })
  | inr (x, e) ↦
      subst (λ (r : ℕ × HashTable). (r.0 ≡ value_or_null (view h k)) × Updates h k none r.1)
        (sym (remove-some h k x v e)) (ap value_or_null (sym e), erase-Updates h v k x e)
]

-- A lookup behind a successful insertion finds the value under its key, and under any other key what
-- was there.
pub lookup-insert :
    (h : HashTable) (k q : Bytes) (x : ℕ)
    → IsValid h
    → view h k ≡ none
    → lookup (insert true h k x).1 q ≡ (if str_eq k q then x else lookup h q)
unfolding lookup
lookup-insert h k q x v e =
    ap value_or_null ((insert_absent h k x v e).1.maps q)
    ∙ elim (Bool-cases (str_eq k q)) [ inl t ↦ rw t | inr t ↦ rw t ]

-- A lookup behind a removal finds NULL under the key, and under any other key what was there.
pub lookup-remove :
    (h : HashTable) (k q : Bytes)
    → IsValid h
    → lookup (remove h k).1 q ≡ (if str_eq k q then 0 else lookup h q)
unfolding lookup
lookup-remove h k q v =
    ap value_or_null ((remove_lem h k v).1.maps q)
    ∙ elim (Bool-cases (str_eq k q)) [ inl t ↦ rw t | inr t ↦ rw t ]
