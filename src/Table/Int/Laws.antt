-- ===== src/Table/Int/Laws.antt =====
-- dttools/src/itable.c as a map from integers to addresses.
use mathlib.Core.Path.{subst}
use native.Mathlib.Nat.{mod-lt}
use murphy.Base.{
  ℕ, ◌+◌, ◌≤◌, ◌<◌, ◌≡◌, ◌≢◌, ◌↔◌, Bool, true, false, Option, List, [], ℕ, arith, length, get_or,
  set, length-set, flatten, ◌==◌, ==_iff, if◌then◌else◌, Bool-cases, inl, inr, ap, sym, ◌∙◌,
}
use murphy.Table.Chain.{find, ChainOk, true-ne-false}
use murphy.Table.Buckets
use murphy.Table.Buckets.{length-flatten-set, flatten-replicate}
use murphy.Table.Int.{Entry, IntTable, hit, index, bucket}

-- Every entry that stands in its place is good.
abbrev pub Any : Entry → Type 0
Any e = Unit {0}

pub hit_iff : (k : ℕ) (e : Entry) → (hit k e ≡ true) ↔ (e.key ≡ k)
unfolding hit
hit_iff k e = ((λ h. ground arith), (λ p. ground arith))

abbrev pub key_of : Entry → ℕ
key_of e = e.key

-- Every entry stands in the bucket of its key, no key stands twice, and `size`
-- counts the entries.
pub record IsValid (h : IntTable) : Type 0 where
  pub counted : length h.buckets ≡ h.bucket_count
  pub roomy : 0 < h.bucket_count
  pub sized : length (flatten h.buckets) ≡ h.size
  pub placed : Buckets.IsPlaced hit key_of Any index h.buckets

-- What the table maps a key to.
abbrev pub view : IntTable → ℕ → Option Entry
view h k = find hit k (bucket h k)

module _ (h : IntTable) (v : IsValid h) where
  abbrev pub test : ℕ → Entry → Bool
  test = hit

  abbrev pub Good : Entry → Type 0
  Good = Any

  abbrev pub slot : ℕ → ℕ → ℕ
  slot = index

  -- The bucket that the code reads is the home of the key.
  pub bucket-home : (k : ℕ) → bucket h k ≡ get_or h.buckets (slot k (length h.buckets)) []
  bucket-home k = ap (λ n. get_or h.buckets (slot k n) []) (sym v.counted)

  pub inside : (k : ℕ) → slot k (length h.buckets) < length h.buckets
  inside k = mod-lt _ (omega (arith, v.counted, v.roomy))

  abbrev pub Ok : ℕ → List Entry → Type 0
  Ok k =
      ChainOk key_of
        (Buckets.InPlace test key_of Good slot (length h.buckets) (slot k (length h.buckets)))

  pub bucket-Ok : (k : ℕ) → Ok k (bucket h k)
  bucket-Ok k = rw (bucket-home k) (v.placed (slot k (length h.buckets)))

  -- The test decides the key of an entry that stands in its place.
  pub decides :
      (k q : ℕ) (e : Entry)
      → Buckets.InPlace test key_of Good slot (length h.buckets) (slot k (length h.buckets)) e
      → (test q e ≡ true) ↔ (e.key ≡ q)
  decides k q e g = hit_iff q e

  -- No bucket holds more entries than the table.
  pub length-bucket-le : (k : ℕ) → length (bucket h k) ≤ h.size
  length-bucket-le k = omega (
    arith,
    length-flatten-set h.buckets (slot k (length h.buckets)) [] (inside k),
    ap length (bucket-home k),
    v.sized,
  )

  -- The table after a write of the chain `c` to the bucket of `k`.
  abbrev pub write : ℕ → List Entry → ℕ → IntTable
  write k c n = record h { buckets = set h.buckets (slot k h.bucket_count) c; size = n }

  write-home :
      (k : ℕ) (c : List Entry)
      → set h.buckets (slot k (length h.buckets)) c ≡ set h.buckets (slot k h.bucket_count) c
  write-home k c = ap (λ n. set h.buckets (slot k n) c) v.counted

  pub write-IsValid :
      (k : ℕ) (c : List Entry) (n : ℕ)
      → Ok k c
      → n + length (bucket h k) ≡ h.size + length c
      → IsValid (write k c n)
  write-IsValid k c n ok size = record {
    counted = length-set h.buckets _ c ∙ v.counted;
    roomy = v.roomy;
    sized = omega (
      arith,
      length-flatten-set h.buckets (slot k (length h.buckets)) c (inside k),
      ap length (bucket-home k),
      ap (λ bs. length (flatten bs)) (write-home k c),
      v.sized,
    );
    placed =
        subst (Buckets.IsPlaced test key_of Good slot) (write-home k c)
          (Buckets.set-IsPlaced test key_of Good slot h.buckets k c (inside k) v.placed ok);
  }

-- The view of the code and that of the bucket vector.
pub view-home :
    (h : IntTable) (v : IsValid h) (q : ℕ)
    → view h q ≡ Buckets.view hit key_of Any index h.buckets q
view-home h v q = ap (find hit q) (bucket-home h v q)

-- `h'` is valid and maps `k` to `e`, if to anything, and every other key as `h` does.
pub record Updates (h : IntTable) (k : ℕ) (e : Option Entry) (h' : IntTable) : Type 0 where
  pub valid : IsValid h'
  pub maps : (q : ℕ) → view h' q ≡ (if (k == q) then e else view h q)

ne_of_eq : (k q : ℕ) → (k == q) ≡ false → q ≢ k
ne_of_eq k q h = λ e. true-ne-false (sym ((==_iff k q).1 (sym e)) ∙ h)

pub write-Updates :
    (h : IntTable) (v : IsValid h) (k : ℕ) (c : List Entry) (n : ℕ)
    → Ok h v k c
    → n + length (bucket h k) ≡ h.size + length c
    → ((q : ℕ) → q ≢ k → find hit q c ≡ find hit q (bucket h k))
    → Updates h k (find hit k c) (write h v k c n)
write-Updates h v k c n ok size rest =
    let valid = write-IsValid h v k c n ok size in
    let at = Buckets.view hit key_of Any index in
    record {
      valid = valid;
      maps = λ q. elim (Bool-cases ((k == q))) [
        | inl same ↦
            view-home (write h v k c n) valid q
            ∙ ap (λ bs. at bs q) (sym (write-home h v k c))
            ∙ ap (at (set h.buckets (slot h v k (length h.buckets)) c)) (sym ((==_iff k q).0 same))
            ∙ Buckets.view-set_self hit key_of Any index h.buckets k c (inside h v k)
            ∙ rw same
        | inr other ↦
            view-home (write h v k c n) valid q
            ∙ ap (λ bs. at bs q) (sym (write-home h v k c))
            ∙ Buckets.view-set_ne hit key_of Any index h.buckets k c (inside h v k) q
                (rest q (ne_of_eq k q other) ∙ ap (find hit q) (bucket-home h v k))
            ∙ sym (view-home h v q)
            ∙ rw other
      ];
    }
