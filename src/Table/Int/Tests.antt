-- ===== src/Table/Int/Tests.antt =====
-- dttools/src/itable.c at work on a table of three buckets.
use murphy.Base.{◌≤◌, ◌≡◌, refl, true, [], ◌∷◌, arith}
use murphy.Table.Chain.{find, assign}
use murphy.Table.Int.{IntTable, create, hit, lookup, insert, seek, firstkey, advance, nextkey}
use murphy.Table.Int.Walk.{walk}

abbrev empty : IntTable
empty = create 3

abbrev one : IntTable
one = (insert true empty 5 10).1

-- 5 and 8 share a bucket; the second insertion of 5 replaces its value.
abbrev two : IntTable
two = (insert true (insert true one 8 20).1 5 30).1

two_run : (lookup two 5 ≡ 30) × (lookup two 8 ≡ 20) × (lookup two 2 ≡ 0) × (two.size ≡ 2)
unfolding create insert lookup hit find assign
two_run = (refl, refl, refl, refl)

walk_run : walk 9 (firstkey two) ≡ (8, 20) ∷ (5, 30) ∷ []
unfolding create insert hit find assign walk firstkey seek nextkey advance
walk_run = refl

one_size : one.size ≤ 4
unfolding create insert hit find
one_size = omega arith
