-- ===== src/Table/Hash/Laws.antt =====
-- dttools/src/hash_table.c as a map from strings to addresses.
use mathlib.Core.Path.{subst}
use native.Mathlib.Nat.{mod-lt}
use murphy.Base.{
  ℕ, ◌+◌, ◌≤◌, ◌<◌, ◌≡◌, ◌≢◌, ◌↔◌, Bool, true, false, Option, List, [], Bytes, arith, length,
  get_or, set, length-set, flatten, str_eq, str_eq_iff, str_eq_sound, str_eq_refl, ==_refl,
  if◌then◌else◌, Bool-cases, inl, inr, ap, sym, ◌∙◌,
}
use murphy.Table.Chain.{find, ChainOk, true-ne-false}
use murphy.Table.Buckets
use murphy.Table.Buckets.{length-flatten-set, flatten-replicate}
use murphy.Table.Hash.{Entry, HashTable, hit, index, bucket}

-- An entry remembers the hash of its key.
abbrev pub IsHashed : (Bytes → ℕ) → Entry → Type 0
IsHashed func e = e.hash ≡ func e.key

pub hit_iff :
    (func : Bytes → ℕ) (k : Bytes) (e : Entry)
    → IsHashed func e
    → (hit func k e ≡ true) ↔ (e.key ≡ k)
unfolding hit
hit_iff func k e g =
    (λ h. sym (str_eq_sound k e.key (ground arith)), λ same. rw (g, same, ==_refl, str_eq_refl))

abbrev pub key_of : Entry → Bytes
key_of e = e.key

-- Every entry stands in the bucket of its key with the right hash, no key stands twice, and `size`
-- counts the entries.
pub record IsValid (h : HashTable) : Type 0 where
  pub counted : length h.buckets ≡ h.bucket_count
  pub roomy : 0 < h.bucket_count
  pub sized : length (flatten h.buckets) ≡ h.size
  pub placed :
      Buckets.IsPlaced (hit h.hash_func) key_of (IsHashed h.hash_func) (index h.hash_func) h.buckets

-- What the table maps a key to.
abbrev pub view : HashTable → Bytes → Option Entry
view h k = find (hit h.hash_func) k (bucket h k)

module _ (h : HashTable) (v : IsValid h) where
  abbrev pub test : Bytes → Entry → Bool
  test = hit h.hash_func

  abbrev pub Good : Entry → Type 0
  Good = IsHashed h.hash_func

  abbrev pub slot : Bytes → ℕ → ℕ
  slot = index h.hash_func

  -- The bucket that the code reads is the home of the key.
  pub bucket-home : (k : Bytes) → bucket h k ≡ get_or h.buckets (slot k (length h.buckets)) []
  bucket-home k = ap (λ n. get_or h.buckets (slot k n) []) (sym v.counted)

  pub inside : (k : Bytes) → slot k (length h.buckets) < length h.buckets
  inside k = mod-lt _ (omega (arith, v.counted, v.roomy))

  abbrev pub Ok : Bytes → List Entry → Type 0
  Ok k =
      ChainOk key_of
        (Buckets.InPlace test key_of Good slot (length h.buckets) (slot k (length h.buckets)))

  pub bucket-Ok : (k : Bytes) → Ok k (bucket h k)
  bucket-Ok k = rw (bucket-home k) (v.placed (slot k (length h.buckets)))

  -- The test decides the key of an entry that stands in its place.
  pub decides :
      (k q : Bytes) (e : Entry)
      → Buckets.InPlace test key_of Good slot (length h.buckets) (slot k (length h.buckets)) e
      → (test q e ≡ true) ↔ (e.key ≡ q)
  decides k q e g = hit_iff h.hash_func q e g.0

  -- No bucket holds more entries than the table.
  pub length-bucket-le : (k : Bytes) → length (bucket h k) ≤ h.size
  length-bucket-le k = omega (
    arith,
    length-flatten-set h.buckets (slot k (length h.buckets)) [] (inside k),
    ap length (bucket-home k),
    v.sized,
  )

  -- The table after a write of the chain `c` to the bucket of `k`.
  abbrev pub write : Bytes → List Entry → ℕ → HashTable
  write k c n = record h { buckets = set h.buckets (slot k h.bucket_count) c; size = n }

  write-home :
      (k : Bytes) (c : List Entry)
      → set h.buckets (slot k (length h.buckets)) c ≡ set h.buckets (slot k h.bucket_count) c
  write-home k c = ap (λ n. set h.buckets (slot k n) c) v.counted

  pub write-IsValid :
      (k : Bytes) (c : List Entry) (n : ℕ)
      → Ok k c
      → n + length (bucket h k) ≡ h.size + length c
      → IsValid (write k c n)
  write-IsValid k c n ok size = record {
    counted = length-set h.buckets _ c ∙ v.counted;
    roomy = v.roomy;
    sized = omega (
      arith,
      length-flatten-set h.buckets (slot k (length h.buckets)) c (inside k),
      ap length (bucket-home k),
      ap (λ bs. length (flatten bs)) (write-home k c),
      v.sized,
    );
    placed =
        subst (Buckets.IsPlaced test key_of Good slot) (write-home k c)
          (Buckets.set-IsPlaced test key_of Good slot h.buckets k c (inside k) v.placed ok);
  }

-- The view of the code and that of the bucket vector.
pub view-home :
    (h : HashTable) (v : IsValid h) (q : Bytes)
    → view h q
      ≡ Buckets.view (hit h.hash_func) key_of (IsHashed h.hash_func) (index h.hash_func) h.buckets q
view-home h v q = ap (find (hit h.hash_func) q) (bucket-home h v q)

-- `h'` is valid and maps `k` to `e`, if to anything, and every other key as `h` does.
pub record Updates (h : HashTable) (k : Bytes) (e : Option Entry) (h' : HashTable) : Type 0 where
  pub valid : IsValid h'
  pub maps : (q : Bytes) → view h' q ≡ (if str_eq k q then e else view h q)

ne_of_str_eq : (k q : Bytes) → str_eq k q ≡ false → q ≢ k
ne_of_str_eq k q h = λ e. true-ne-false (sym ((str_eq_iff k q).1 (sym e)) ∙ h)

pub write-Updates :
    (h : HashTable) (v : IsValid h) (k : Bytes) (c : List Entry) (n : ℕ)
    → Ok h v k c
    → n + length (bucket h k) ≡ h.size + length c
    → ((q : Bytes) → q ≢ k → find (hit h.hash_func) q c ≡ find (hit h.hash_func) q (bucket h k))
    → Updates h k (find (hit h.hash_func) k c) (write h v k c n)
write-Updates h v k c n ok size rest =
    let valid = write-IsValid h v k c n ok size in
    let at = Buckets.view (hit h.hash_func) key_of (IsHashed h.hash_func) (index h.hash_func) in
    record {
      valid = valid;
      maps = λ q. elim (Bool-cases (str_eq k q)) [
        | inl same ↦
            view-home (write h v k c n) valid q
            ∙ ap (λ bs. at bs q) (sym (write-home h v k c))
            ∙ ap (at (set h.buckets (slot h v k (length h.buckets)) c))
                (sym (str_eq_sound k q same))
            ∙ Buckets.view-set_self (hit h.hash_func) key_of (IsHashed h.hash_func)
                (index h.hash_func) h.buckets k c (inside h v k)
            ∙ rw same
        | inr other ↦
            view-home (write h v k c n) valid q
            ∙ ap (λ bs. at bs q) (sym (write-home h v k c))
            ∙ Buckets.view-set_ne (hit h.hash_func) key_of (IsHashed h.hash_func)
                (index h.hash_func) h.buckets k c (inside h v k) q
                (rest q (ne_of_str_eq k q other)
                  ∙ ap (find (hit h.hash_func) q) (bucket-home h v k))
            ∙ sym (view-home h v q)
            ∙ rw other
      ];
    }
