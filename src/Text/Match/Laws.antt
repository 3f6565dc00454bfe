-- ===== src/Text/Match/Laws.antt =====
-- What `string_match` of dttools/src/stringtools.c accepts.
use murphy.Base.{
  ℕ, ◌≢◌, ◌+◌, ◌-◌, ◌≤◌, ◌≡◌, refl, Bool, true, false, none, some, [], ◌∷◌, ◌++◌, Bytes, str_eq,
  str_eq_refl, str_eq_sound, length, length-append, drop, take, take-append-drop, append_assoc, suc,
  append-nil, ltb, arith, All, ◌==◌, if◌then◌else◌, sym, ap, ◌∙◌,
}
use murphy.Text.Match.{star, cut_star, starts_with, string_match}

abbrev pub NoStar : Bytes → Type 0
NoStar = All (λ c. (c == star) ≡ false)

cut_star-append :
    (head tail : Bytes) → NoStar head → cut_star (head ++ star ∷ tail) ≡ some (head, tail)
unfolding cut_star
cut_star-append [] tail h = refl
cut_star-append (c ∷ head) tail (hc, h) = rw (hc, cut_star-append head tail h)

starts_with-append : (head rest : Bytes) → starts_with head (head ++ rest) ≡ true
unfolding starts_with
starts_with-append [] rest = refl
starts_with-append (c ∷ head) rest = ground (arith, starts_with-append head rest)

-- The test of `string_match` for a pattern with a star.
match-star :
    (head tail text : Bytes)
    → NoStar head
    → string_match (head ++ star ∷ tail) text ≡ (
        if starts_with head text
        then if ltb (length text) (length tail)
          then none
          else some (str_eq tail (drop (length text - length tail) text))
        else some false)
unfolding string_match
match-star head tail text h = rw (cut_star-append head tail h, string_match)

drop-append : (xs ys : Bytes) → drop (length xs) (xs ++ ys) ≡ ys
drop-append [] ys = refl
drop-append (x ∷ xs) ys = drop-append xs ys

drop_last : (xs ys : Bytes) → drop (length (xs ++ ys) - length ys) (xs ++ ys) ≡ ys
drop_last xs ys =
    ap (λ n. drop n (xs ++ ys)) (omega (arith, length-append xs ys)) ∙ drop-append xs ys

not-lt : (a b : ℕ) → b ≤ a → ltb a b ≡ false
not-lt a b h = ground arith

matched :
    (head tail text : Bytes)
    → NoStar head
    → starts_with head text ≡ true
    → length tail ≤ length text
    → drop (length text - length tail) text ≡ tail
    → string_match (head ++ star ∷ tail) text ≡ some true
matched head tail text h p q e =
    match-star head tail text h ∙ rw (p, not-lt (length text) (length tail) q, e, str_eq_refl)

-- A text that begins with what stands before the star and ends, behind that, with what follows the
-- star is accepted.
pub match_complete :
    (head mid tail : Bytes)
    → NoStar head
    → string_match (head ++ star ∷ tail) (head ++ (mid ++ tail)) ≡ some true
match_complete head mid tail h =
    matched head tail (head ++ (mid ++ tail)) h (starts_with-append head (mid ++ tail))
      (omega (arith, length-append head (mid ++ tail), length-append mid tail))
      (ap (λ l. drop (length l - length tail) l) (sym (append_assoc head mid tail))
        ∙ drop_last (head ++ mid) tail)

false-ne-true : ◌≢◌ {A = Bool} false true
false-ne-true = λ h. cc

starts_with_sound :
    (head text : Bytes) → starts_with head text ≡ true → (rest : Bytes) × (text ≡ head ++ rest)
unfolding starts_with
starts_with_sound [] text h = (text, refl)
starts_with_sound (c ∷ head) [] h = absurd (false-ne-true h)
starts_with_sound (c ∷ head) (d ∷ text) h =
    let (rest, e) = starts_with_sound head text (ground arith) in (rest, ground (arith, e))

accepted_parts :
    (s lt : Bool) (e : Bool)
    → (if s then if lt then none else some e else some false) ≡ some true
    → (s ≡ true) × (e ≡ true)
accepted_parts s lt e h = ground arith

drop_behind : (xs ys : Bytes) (k : ℕ) → drop (length xs + k) (xs ++ ys) ≡ drop k ys
drop_behind [] ys k = ap (λ n. drop n ys) (omega arith)
drop_behind (x ∷ xs) ys k =
    let n : suc (length xs) + k ≡ suc (length xs + k) = omega arith in
    ap (λ n. drop n (x ∷ (xs ++ ys))) n ∙ drop_behind xs ys k

-- A text that is accepted and has room for both parts begins with what stands before the star and
-- ends, behind that, with what follows it.
pub match_sound :
    (head tail text : Bytes)
    → NoStar head
    → length head + length tail ≤ length text
    → string_match (head ++ star ∷ tail) text ≡ some true
    → (mid : Bytes) × (text ≡ head ++ (mid ++ tail))
match_sound head tail text h room e =
    let (p, q) = accepted_parts _ _ _ (sym (match-star head tail text h) ∙ e) in
    let (rest, shape) = starts_with_sound head text p in
    let k = length rest - length tail in
    let size : length text - length tail ≡ length head + k =
      omega (arith, ap length shape, length-append head rest) in
    let end : tail ≡ drop k rest =
      str_eq_sound tail _ q
      ∙ ap (λ n. drop n text) size
      ∙ ap (drop (length head + k)) shape
      ∙ drop_behind head rest k in
    (
      take k rest,
      shape
          ∙ ap (λ l. head ++ l)
              (sym (take-append-drop k rest) ∙ ap (λ l. take k rest ++ l) (sym end)),
    )

-- Without that room the two parts may overlap: the pattern `x*x` accepts `x` alone.
pub match_overlap : (x : Bytes) → NoStar x → string_match (x ++ star ∷ x) x ≡ some true
match_overlap x h =
    let none_left : length x - length x ≡ 0 = omega arith in
    matched x x x h (ap (starts_with x) (sym (append-nil x)) ∙ starts_with-append x [])
      (omega arith) (ap (λ n. drop n x) none_left)
