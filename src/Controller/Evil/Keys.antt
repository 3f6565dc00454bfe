-- ===== src/Controller/Evil/Keys.antt =====
-- The keys of the tables of parrot/src/controller.cc tell gremlins and processes apart.
use murphy.Base.{
  ℕ, ◌≡◌, ◌↔◌, refl, sym, ap, ◌∙◌, Bool, true, false, [], ◌∷◌, ◌++◌, Bytes, reverse, append_assoc,
  reverse-append, reverse-reverse, reverse-cons_append, str_eq, str_eq_iff, All, All-reverse, drop,
  get_or, arith,
}
use murphy.Controller.Evil.{gremlin_key}
use murphy.Controller.Line.Decimal.{decimal, decimal-IsDigit, decimal_injective, IsDigit}
use murphy.Controller.Log.{replay_key}

-- Digits up to a dot.
until_dot :
    (l m s t : Bytes)
    → All IsDigit l
    → All IsDigit m
    → l ++ b'.' ∷ s ≡ m ++ b'.' ∷ t
    → (l ≡ m) × (s ≡ t)
until_dot [] [] s t h k e = (refl, ap (drop 1) e)
until_dot [] (y ∷ m) s t h k e = absurd (omega (arith, ap (λ u. get_or u 0 0) e, k.0))
until_dot (x ∷ l) [] s t h k e = absurd (omega (arith, ap (λ u. get_or u 0 0) e, h.0))
until_dot (x ∷ l) (y ∷ m) s t h k e =
    let (d, r) = until_dot l m s t h.1 k.1 (ap (drop 1) e) in
    (ap (λ c. c ∷ l) (ap (λ u. get_or u 0 0) e) ∙ ap (λ u. y ∷ u) d, r)

reverse_key :
    (g : Bytes) (child : ℕ)
    → reverse (replay_key g child) ≡ reverse (decimal child) ++ b'.' ∷ reverse g
unfolding replay_key
reverse_key g child =
    reverse-append g (b'.' ∷ decimal child) ∙ reverse-cons_append b'.' (decimal child) (reverse g)

pub replay_key_injective :
    (g h : Bytes) (m n : ℕ) → replay_key g m ≡ replay_key h n → (g ≡ h) × (m ≡ n)
replay_key_injective g h m n e =
    let (d, r) =
      until_dot (reverse (decimal m)) (reverse (decimal n)) (reverse g) (reverse h)
        (All-reverse IsDigit _ (decimal-IsDigit m)) (All-reverse IsDigit _ (decimal-IsDigit n))
        (sym (reverse_key g m) ∙ ap reverse e ∙ reverse_key h n) in
    (
      sym (reverse-reverse g) ∙ ap reverse r ∙ reverse-reverse h,
      decimal_injective m n
          (sym (reverse-reverse (decimal m)) ∙ ap reverse d ∙ reverse-reverse (decimal n)),
    )

-- The key of a process is the key of its child number behind the name and the process number.
gremlin_key_lem :
    (g : Bytes) (pid child : ℕ) → gremlin_key g pid child ≡ replay_key (replay_key g pid) child
unfolding gremlin_key replay_key
gremlin_key_lem g pid child = sym (append_assoc g (b'.' ∷ decimal pid) (b'.' ∷ decimal child))

-- Two gremlins, processes or children that differ in name or number have different keys, so none counts
-- for another, also when names hold dots and digits.
pub gremlin_key_injective :
    (g h : Bytes) (p q m n : ℕ)
    → gremlin_key g p m ≡ gremlin_key h q n
    → (g ≡ h) × (p ≡ q) × (m ≡ n)
gremlin_key_injective g h p q m n e =
    let (r, c) =
      replay_key_injective (replay_key g p) (replay_key h q) m n
        (sym (gremlin_key_lem g p m) ∙ e ∙ gremlin_key_lem h q n) in
    let (s, d) = replay_key_injective g h p q r in (s, d, c)

bool_of_iff : (a b : Bool) → (a ≡ true) ↔ (b ≡ true) → a ≡ b
bool_of_iff true true h = refl
bool_of_iff true false h = sym (h.0 refl)
bool_of_iff false true h = h.1 refl
bool_of_iff false false h = refl

-- Where every child number has one process, the two keys tell the same calls apart.
pub keys_agree :
    (pid : ℕ → ℕ) (g h : Bytes) (m n : ℕ)
    → str_eq (gremlin_key g (pid m) m) (gremlin_key h (pid n) n)
      ≡ str_eq (replay_key g m) (replay_key h n)
keys_agree pid g h m n = bool_of_iff _ _ (
  λ t.
      let e = gremlin_key_injective g h (pid m) (pid n) m n ((str_eq_iff _ _).0 t) in
      (str_eq_iff _ _).1 (ap (λ x. replay_key x m) e.0 ∙ ap (replay_key h) e.2),
  λ t.
      let e = replay_key_injective g h m n ((str_eq_iff _ _).0 t) in
      (str_eq_iff _ _).1
        (ap (λ x. gremlin_key x (pid m) m) e.0 ∙ ap (λ c. gremlin_key h (pid c) c) e.1),
)
