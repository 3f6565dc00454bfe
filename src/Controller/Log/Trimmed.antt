-- ===== src/Controller/Log/Trimmed.antt =====
-- What `chomp` and `trim` of parrot/src/MyString.cc leave of a line.
use murphy.Base.{
  ℕ, ◌≡◌, ◌≢◌, refl, ap, ◌∙◌, false, [], ◌∷◌, ◌++◌, Bytes, reverse, reverse-append, reverse-reverse,
  reverse-cons_append, arith, ◌==◌, Bool-cases, inl, inr,
}
use murphy.Controller.Line.{is_space, chomp, chomp_reversed, trim}
use murphy.Text.Ends.{drop_while}

around : (w z : Bytes) (c : ℕ) → reverse (w ++ c ∷ z) ≡ reverse z ++ c ∷ reverse w
around w z c = reverse-append w (c ∷ z) ∙ reverse-cons_append c z (reverse w)

-- What stands behind a byte that is kept.
abbrev EndsIn : ℕ → Bytes → Bytes → Type 0
EndsIn c w t = (z : Bytes) × (t ≡ z ++ c ∷ w)

chomp_reversed-EndsIn :
    (c : ℕ) (y w : Bytes) → c ≢ b'\r' → EndsIn c w (chomp_reversed (b'\n' ∷ (y ++ c ∷ w)))
chomp_reversed-EndsIn c [] w h = let t : (c == b'\r') ≡ false = grind arith in ([], rw t refl)
chomp_reversed-EndsIn c (d ∷ y) w h = elim (Bool-cases (d == b'\r')) [
  | inl t ↦ (y, rw t refl)
  | inr t ↦ (d ∷ y, rw t refl)
]

drop_while-EndsIn :
    (c : ℕ) (y w : Bytes) → is_space c ≡ false → EndsIn c w (drop_while is_space (y ++ c ∷ w))
unfolding drop_while
drop_while-EndsIn c [] w h = ([], rw h refl)
drop_while-EndsIn c (d ∷ y) w h = elim (Bool-cases (is_space d)) [
  | inl t ↦ rw t (drop_while-EndsIn c y w h)
  | inr t ↦ (d ∷ y, rw t refl)
]

-- A line's text up to a byte `c` that is no blank stays, when it does not begin with one either.
pub trim-chomp :
    (w y : Bytes) (c : ℕ)
    → is_space c ≡ false
    → ((z : Bytes) → drop_while is_space (w ++ z) ≡ w ++ z)
    → (z : Bytes) × (trim (chomp (w ++ c ∷ (y ++ b'\n' ∷ []))) ≡ w ++ c ∷ z)
unfolding chomp trim
trim-chomp w y c h k =
    let ends : reverse (w ++ c ∷ (y ++ b'\n' ∷ [])) ≡ b'\n' ∷ (reverse y ++ c ∷ reverse w) =
      around w (y ++ b'\n' ∷ []) c ∙ ap (λ l. l ++ c ∷ reverse w) (reverse-append y (b'\n' ∷ [])) in
    let (u, e) = chomp_reversed-EndsIn c (reverse y) (reverse w) (grind arith) in
    let chomped : chomp (w ++ c ∷ (y ++ b'\n' ∷ [])) ≡ w ++ c ∷ reverse u =
      ap (λ l. reverse (chomp_reversed l)) ends
      ∙ ap reverse e
      ∙ around u (reverse w) c
      ∙ ap (λ l. l ++ c ∷ reverse u) (reverse-reverse w) in
    let (v, f) = drop_while-EndsIn c (reverse (reverse u)) (reverse w) h in
    (
      reverse v,
      ap trim chomped
          ∙ ap (λ l. reverse (drop_while is_space (reverse l))) (k (c ∷ reverse u))
          ∙ ap (λ l. reverse (drop_while is_space l)) (around w (reverse u) c)
          ∙ ap reverse f
          ∙ around v (reverse w) c
          ∙ ap (λ l. l ++ c ∷ reverse v) (reverse-reverse w),
    )
