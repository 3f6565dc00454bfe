-- ===== src/Table/Hash/Tests.antt =====
-- dttools/src/hash_table.c at work on a table of three buckets, hashed by the length of the key.
use murphy.Base.{
  ℕ, ◌≤◌, ◌≡◌, ◌≢◌, refl, true, none, some, [], ◌∷◌, map, flatten, Bytes, codes, length, arith,
}
use murphy.Table.Chain.{find, erase}
use murphy.Table.Hash.{
  Entry, HashTable, create, hit, lookup, insert, remove, seek, firstkey, advance, nextkey,
  value_or_null,
}
use murphy.Table.Hash.Laws.{IsValid, view, Updates}
use murphy.Table.Hash.Methods.{create_lem, fresh, insert_absent, remove_lem}
use murphy.Table.Hash.Walk.{walk, walk-firstkey}

abbrev by_length : Bytes → ℕ
by_length k = length k

abbrev empty : HashTable
empty = create 3 by_length

abbrev one : HashTable
one = (insert true empty (codes "a") 10).1

abbrev two : HashTable
two = (insert true one (codes "bcde") 20).1

-- "a" and "bcde" share a bucket.
two_run :
    (lookup two (codes "a") ≡ 10)
    × (lookup two (codes "bcde") ≡ 20)
    × (lookup two (codes "x") ≡ 0)
    × (two.size ≡ 2)
unfolding create insert lookup hit find
two_run = (refl, refl, refl, refl)

default_buckets : (create 0 by_length).bucket_count ≡ 127
unfolding create
default_buckets = refl

remove_run : let (x, h) = remove two (codes "a") in (x ≡ 10) × (lookup h (codes "a") ≡ 0)
unfolding create insert remove lookup hit find erase
remove_run = (refl, refl)

walk_run : walk 9 (firstkey two) ≡ (codes "bcde", 20) ∷ (codes "a", 10) ∷ []
unfolding create insert hit find walk firstkey seek nextkey advance
walk_run = refl

empty-IsValid : IsValid empty
empty-IsValid = (create_lem 3 by_length).0

insert_absent_example :
    ((insert true empty (codes "a") 10).0 ≡ true)
    × Updates empty (codes "a") (some (fresh empty (codes "a") 10)) one
insert_absent_example =
    insert_absent empty (codes "a") 10 empty-IsValid ((create_lem 3 by_length).1 (codes "a"))

one-IsValid : IsValid one
one-IsValid = insert_absent_example.1.valid

one_has_a : view one (codes "a") ≢ none
unfolding create insert hit find
one_has_a = λ h. cc

remove_lem_example :
    ((remove one (codes "a")).0 ≡ value_or_null (view one (codes "a")))
    × Updates one (codes "a") none (remove one (codes "a")).1
remove_lem_example = remove_lem one (codes "a") one-IsValid

one_lacks : view one (codes "bcde") ≡ none
unfolding create insert hit find
one_lacks = refl

one_size : one.size ≤ 4
unfolding create insert hit find
one_size = omega arith

walk-firstkey_example :
    walk 4 (firstkey one) ≡ map (λ (e : Entry). (e.key, e.value)) (flatten one.buckets)
walk-firstkey_example = walk-firstkey one 4 one-IsValid one_size
