-- ===== src/Table/Int/Methods.antt =====
-- The operations of dttools/src/itable.c on the map that the table stands for.
use mathlib.Core.Path.{subst}
use murphy.Base.{
  ℕ, ◌-◌, ◌≡◌, none, some, [], arith, length, replicate, length-replicate, get_or-replicate, ◌==◌,
  ==_iff, if◌then◌else◌, Bool-cases, Option-cases, inl, inr, ap, sym, ◌∙◌,
}
use murphy.Table.Buckets
use murphy.Table.Buckets.{flatten-replicate}
use murphy.Table.Chain.{find, erase, length-erase, find-erase_self, find-erase_ne, erase-ChainOk}
use murphy.Table.Int.{Entry, IntTable, create, hit, index, bucket, remove, value_or_null}
use murphy.Table.Int.Laws.{
  IsValid, Any, key_of, view, Updates, write-Updates, bucket-Ok, write, decides, length-bucket-le,
}

create-IsPlaced : (n : ℕ) → Buckets.IsPlaced hit key_of Any index (replicate n [])
create-IsPlaced n = Buckets.replicate-IsPlaced hit key_of Any index n

-- A new table is valid and maps nothing, whatever bucket count was asked for.
pub create_int_lem : (n : ℕ) → IsValid (create n) × ((k : ℕ) → view (create n) k ≡ none)
unfolding create find
create_int_lem n = (
  record {
    counted = length-replicate _ [];
    roomy = ground arith;
    sized = ap length (flatten-replicate _);
    placed = create-IsPlaced _;
  },
  λ k. rw get_or-replicate,
)

abbrev pub fresh : ℕ → ℕ → Entry
fresh k x = record { key = k; value = x }

-- The operations, a lemma for each branch.
module _ (h : IntTable) (k : ℕ) where
  remove-none : view h k ≡ none → remove h k ≡ (0, h)
  unfolding remove
  remove-none e = rw (e, remove)

  remove-some :
      (x : Entry) (v : IsValid h)
      → view h k ≡ some x
      → remove h k ≡ (x.value, write h v k (erase hit k (bucket h k)) (h.size - 1))
  unfolding remove
  remove-some x v e = rw (e, remove)

module _ (h : IntTable) (v : IsValid h) (k : ℕ) where
  erase-Updates :
      (y : Entry)
      → view h k ≡ some y
      → Updates h k none (write h v k (erase hit k (bucket h k)) (h.size - 1))
  erase-Updates y e =
      let c = erase hit k (bucket h k) in
      let ok = bucket-Ok h v k in
      subst (λ o. Updates h k o (write h v k c (h.size - 1)))
        (find-erase_self hit key_of _ (decides h v k) k (bucket h k) ok)
        (write-Updates h v k c (h.size - 1)
          (erase-ChainOk hit key_of _ (decides h v k) k (bucket h k) ok)
          (omega (arith, length-erase hit k (bucket h k) y e, length-bucket-le h v k))
          (λ q ne. find-erase_ne hit key_of _ (decides h v k) k q (bucket h k) ok ne))

unchanged :
    (h : IntTable) (k : ℕ)
    → view h k ≡ none
    → (q : ℕ) → view h q ≡ (if k == q then none else view h q)
unchanged h k e q = elim (Bool-cases (k == q)) [
  | inl t ↦ ap (view h) (sym ((==_iff k q).0 t)) ∙ e ∙ rw t
  | inr t ↦ rw t
]

-- `itable_remove` returns what the key mapped to, or NULL, and afterwards the key maps to nothing and
-- the others as before.
pub remove_int_lem :
    (h : IntTable) (k : ℕ)
    → IsValid h
    → ((remove h k).0 ≡ value_or_null (view h k)) × Updates h k none (remove h k).1
remove_int_lem h k v = elim (Option-cases (view h k)) [
  | inl e ↦
      subst (λ (r : ℕ × IntTable). (r.0 ≡ value_or_null (view h k)) × Updates h k none r.1)
        (sym (remove-none h k e))
        (ap value_or_null (sym e), record { valid = v; maps = unchanged h k e })
  | inr (x, e) ↦
      subst (λ (r : ℕ × IntTable). (r.0 ≡ value_or_null (view h k)) × Updates h k none r.1)
        (sym (remove-some h k x v e)) (ap value_or_null (sym e), erase-Updates h v k x e)
]
