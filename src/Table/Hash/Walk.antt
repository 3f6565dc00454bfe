-- ===== src/Table/Hash/Walk.antt =====
-- The iterator of dttools/src/hash_table.c, `hash_table_firstkey` and `hash_table_nextkey`.
use mathlib.Core.Path.{subst}
use murphy.Base.{
  ◌⊎◌, inl, inr, ℕ, zero, suc, ◌+◌, ◌-◌, ◌≤◌, ◌<◌, ◌≡◌, refl, none, some, List, [], ◌∷◌, ◌++◌, map,
  Bytes, arith, length, get_or, drop, flatten, ap, sym, ◌∙◌,
}
use murphy.Table.Hash.{Entry, HashTable, seek, firstkey, advance, nextkey}
use murphy.Table.Hash.Laws.{IsValid}

-- The entries that the iterator has not yet returned.
abbrev remaining : HashTable → List Entry
remaining h = h.ientry ++ flatten (drop (h.ibucket + 1) h.buckets)

abbrev pair : Entry → Bytes × ℕ
pair e = (e.key, e.value)

drop_past : (n : ℕ) (bs : List (List Entry)) → length bs ≤ n → drop n bs ≡ []
drop_past zero [] h = refl
drop_past zero (c ∷ cs) h = absurd (omega arith)
drop_past (suc n) [] h = refl
drop_past (suc n) (c ∷ cs) h = drop_past n cs (omega arith)

drop_at :
    (n : ℕ) (bs : List (List Entry)) → n < length bs → drop n bs ≡ get_or bs n [] ∷ drop (suc n) bs
drop_at n [] h = absurd (omega arith)
drop_at zero (c ∷ cs) h = refl
drop_at (suc n) (c ∷ cs) h = drop_at n cs (omega arith)

-- Where the iterator stands: at its end, or at an entry of a bucket.
abbrev Stands : HashTable → Type 0
Stands h =
    (remaining h ≡ [])
    ⊎ ((h.ibucket < length h.buckets) × ((x : Entry) × (xs : List Entry) × (h.ientry ≡ x ∷ xs)))

-- A step of the iterator of `h` to `h'` that has `left` still to return.
record Moved (h : HashTable) (left : List Entry) (h' : HashTable) : Type 0 where
  rest : remaining h' ≡ left
  buckets : h'.buckets ≡ h.buckets
  count : h'.bucket_count ≡ h.bucket_count
  stands : Stands h'

module _ (n : ℕ) (h : HashTable) where
  seek_empty :
      get_or h.buckets h.ibucket [] ≡ []
      → seek (suc n) h ≡ seek n (record h { ibucket = h.ibucket + 1; ientry = [] })
  unfolding seek
  seek_empty p = rw (p, seek)

  seek_full :
      (x : Entry) (xs : List Entry)
      → get_or h.buckets h.ibucket [] ≡ x ∷ xs
      → seek (suc n) h ≡ record h { ientry = x ∷ xs }
  unfolding seek
  seek_full x xs p = rw (p, seek)

List-cases : (c : List Entry) → (c ≡ []) ⊎ ((x : Entry) × (xs : List Entry) × (c ≡ x ∷ xs))
List-cases [] = inl refl
List-cases (x ∷ xs) = inr (x, xs, refl)

-- What stands from the current bucket on, whose chain is `c`.
from_bucket :
    (h : HashTable) (c : List Entry)
    → h.ibucket < length h.buckets
    → get_or h.buckets h.ibucket [] ≡ c
    → flatten (drop h.ibucket h.buckets) ≡ c ++ flatten (drop (h.ibucket + 1) h.buckets)
unfolding flatten
from_bucket h c lt p =
    let one : suc h.ibucket ≡ h.ibucket + 1 = omega arith in
    ap flatten (drop_at h.ibucket h.buckets lt)
    ∙ ap (λ d. d ++ flatten (drop (suc h.ibucket) h.buckets)) p
    ∙ ap (λ i. c ++ flatten (drop i h.buckets)) one

seek-Moved :
    (n : ℕ) (h : HashTable)
    → length h.buckets ≡ h.ibucket + n
    → h.ientry ≡ []
    → Moved h (flatten (drop h.ibucket h.buckets)) (seek n h)
unfolding flatten
seek-Moved zero h len e =
    let done : remaining h ≡ [] =
      ap (λ r. r ++ flatten (drop (h.ibucket + 1) h.buckets)) e
      ∙ ap flatten (drop_past (h.ibucket + 1) h.buckets (omega arith)) in
    unfold seek in
    record {
      rest = done ∙ sym (ap flatten (drop_past h.ibucket h.buckets (omega arith)));
      buckets = refl;
      count = refl;
      stands = inl done;
    }
seek-Moved (suc n) h len e = elim (List-cases (get_or h.buckets h.ibucket [])) [
  | inl p ↦
      let s = seek-Moved n (record h { ibucket = h.ibucket + 1; ientry = [] }) (omega arith) refl in
      subst (Moved h (flatten (drop h.ibucket h.buckets))) (sym (seek_empty n h p)) (record {
        rest = s.rest ∙ sym (from_bucket h [] (omega arith) p);
        buckets = s.buckets;
        count = s.count;
        stands = s.stands;
      })
  | inr (x, xs, p) ↦
      subst (Moved h (flatten (drop h.ibucket h.buckets))) (sym (seek_full n h x xs p)) (record {
        rest = sym (from_bucket h (x ∷ xs) (omega arith) p);
        buckets = refl;
        count = refl;
        stands = inr (omega arith, (x, xs, refl));
      })
]

advance-Moved :
    (h : HashTable) (es : List Entry)
    → length h.buckets ≡ h.bucket_count
    → h.ibucket < length h.buckets
    → Moved h (es ++ flatten (drop (h.ibucket + 1) h.buckets)) (advance h es)
unfolding advance
advance-Moved h [] len lt =
    let s =
      seek-Moved (h.bucket_count - (h.ibucket + 1))
        (record h { ibucket = h.ibucket + 1; ientry = [] }) (omega arith) refl in
    record { rest = s.rest; buckets = s.buckets; count = s.count; stands = s.stands }
advance-Moved h (e ∷ es) len lt = record {
  rest = refl;
  buckets = refl;
  count = refl;
  stands = inr (lt, (e, es, refl));
}

-- `while(hash_table_nextkey(h, &key, &value)) …`, at most `n` times round: what it is given.
unfoldable pub walk : ℕ → HashTable → List (Bytes × ℕ)
walk zero h = []
walk (suc n) h =
    let rest = walk n (nextkey h).1 in elim (nextkey h).0 [ none ↦ [] | some kv ↦ kv ∷ rest ]

walk_end : (n : ℕ) (h : HashTable) → h.ientry ≡ [] → walk n h ≡ []
unfolding walk nextkey
walk_end zero h e = refl
walk_end (suc n) h e = rw (e, nextkey)

walk_step :
    (n : ℕ) (h : HashTable) (x : Entry) (xs : List Entry)
    → h.ientry ≡ x ∷ xs
    → walk (suc n) h ≡ pair x ∷ walk n (advance h xs)
unfolding walk nextkey
walk_step n h x xs e = rw (e, nextkey)

append-eq-nil : (xs ys : List Entry) → xs ++ ys ≡ [] → xs ≡ []
append-eq-nil [] ys h = refl
append-eq-nil (x ∷ xs) ys h = cc

walk-remaining :
    (n : ℕ) (h : HashTable)
    → length h.buckets ≡ h.bucket_count
    → Stands h
    → length (remaining h) ≤ n
    → walk n h ≡ map pair (remaining h)
walk-remaining n h len (inl done) few =
    walk_end n h (append-eq-nil h.ientry _ done) ∙ sym (ap (map pair) done)
walk-remaining zero h len (inr (lt, (x, xs, e))) few =
    let all = ap (λ r. length (r ++ flatten (drop (h.ibucket + 1) h.buckets))) e in
    absurd (omega (arith, all))
walk-remaining (suc n) h len (inr (lt, (x, xs, e))) few =
    let m = advance-Moved h xs len lt in
    let left = xs ++ flatten (drop (h.ibucket + 1) h.buckets) in
    let all : remaining h ≡ x ∷ left = ap (λ r. r ++ flatten (drop (h.ibucket + 1) h.buckets)) e in
    walk_step n h x xs e
    ∙ ap (λ r. pair x ∷ r)
        (walk-remaining n (advance h xs) (ap length m.buckets ∙ len ∙ sym m.count) m.stands
            (omega (arith, ap length m.rest, ap length all))
          ∙ ap (map pair) m.rest)
    ∙ sym (ap (map pair) all)

-- From `hash_table_firstkey` on, `hash_table_nextkey` returns every entry of the table once, bucket by
-- bucket, and then 0; as many calls as the table has entries are enough.
pub walk-firstkey :
    (h : HashTable) (n : ℕ)
    → IsValid h
    → h.size ≤ n
    → walk n (firstkey h) ≡ map pair (flatten h.buckets)
unfolding firstkey
walk-firstkey h n v enough =
    let m =
      seek-Moved h.bucket_count (record h { ibucket = 0; ientry = [] }) (omega (arith, v.counted))
        refl in
    walk-remaining n _ (ap length m.buckets ∙ v.counted ∙ sym m.count) m.stands
      (omega (arith, ap length m.rest, v.sized))
    ∙ ap (map pair) m.rest
