-- ===== src/Controller/Line/Decimal.antt =====
-- `%u` and `%lu` of `sprintf`, as parrot/src/controller.cc writes keys and log lines with them.
use murphy.Base.{
  ℕ, zero, suc, ◌+◌, ◌-◌, ◌*◌, ◌/◌, ◌%◌, ◌≤◌, ◌<◌, ◌≡◌, refl, sym, ap, ◌∙◌, true, [], ◌∷◌, ◌++◌,
  reverse, Bytes, ◌==◌, if◌then◌else◌, All, All-reverse, reverse-cons_append, append-nil, arith,
}
use murphy.Controller.Line.{is_digit, scan_digits}

-- The digits, the last one first, with the rounds that are left.
unfoldable pub digits : ℕ → ℕ → Bytes
digits zero n = []
digits (suc k) n =
    let rest = digits k (n / 10) in (n % 10 + b'0') ∷ (if n / 10 == 0 then [] else rest)

-- `%lu`; a number has no more digits than itself and one.
unfoldable pub decimal : ℕ → Bytes
decimal n = reverse (digits (suc n) n)

-- The number that reversed digits add to `acc`.
abbrev shifted : ℕ → Bytes → ℕ
shifted acc [] = acc
shifted acc (c ∷ s) = shifted acc s * 10 + (c - b'0')

abbrev pub IsDigit : ℕ → Type 0
IsDigit c = (b'0' ≤ c) × (c ≤ b'9')

shifted-digits : (k n : ℕ) → n < k → shifted 0 (digits k n) ≡ n
unfolding digits
shifted-digits zero n h = absurd (omega arith)
shifted-digits (suc k) n h = ground (arith, shifted-digits k (n / 10))

pub digits-IsDigit : (k n : ℕ) → All IsDigit (digits k n)
unfolding digits
digits-IsDigit zero n = tt
digits-IsDigit (suc k) n = ground (arith, digits-IsDigit k (n / 10))

pub decimal-IsDigit : (n : ℕ) → All IsDigit (decimal n)
unfolding decimal
decimal-IsDigit n = All-reverse IsDigit (digits (suc n) n) (digits-IsDigit (suc n) n)

scan-digit :
    (acc c : ℕ) (s : Bytes)
    → IsDigit c
    → scan_digits acc (c ∷ s) ≡ scan_digits (acc * 10 + (c - b'0')) s
unfolding scan_digits
scan-digit acc c s h = let t : is_digit c ≡ true = grind arith in rw t refl

scan-reverse :
    (acc : ℕ) (l rest : Bytes)
    → All IsDigit l
    → scan_digits acc (reverse l ++ rest) ≡ scan_digits (shifted acc l) rest
scan-reverse acc [] rest h = refl
scan-reverse acc (c ∷ l) rest (p, h) =
    ap (scan_digits acc) (reverse-cons_append c l rest)
    ∙ scan-reverse acc l (c ∷ rest) h
    ∙ scan-digit (shifted acc l) c rest p

-- A number that `sprintf` wrote is read as that number, up to a byte that is no digit.
pub scan_digits-decimal :
    (n : ℕ) (rest : Bytes) → scan_digits 0 (decimal n ++ rest) ≡ scan_digits n rest
unfolding decimal
scan_digits-decimal n rest =
    scan-reverse 0 (digits (suc n) n) rest (digits-IsDigit (suc n) n)
    ∙ ap (λ v. scan_digits v rest) (shifted-digits (suc n) n (omega arith))

pub decimal_injective : (m n : ℕ) → decimal m ≡ decimal n → m ≡ n
decimal_injective m n e =
    let read = λ (k : ℕ). ap (λ l. (scan_digits 0 l).0) (append-nil (decimal k)) in
    let value : (k : ℕ) → (scan_digits 0 (decimal k)).0 ≡ k =
      λ k. sym (read k) ∙ ap (λ r. r.0) (scan_digits-decimal k []) ∙ unfold scan_digits in refl in
    sym (value m) ∙ ap (λ l. (scan_digits 0 l).0) e ∙ value n
