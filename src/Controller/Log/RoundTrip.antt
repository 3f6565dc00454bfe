-- ===== src/Controller/Log/RoundTrip.antt =====
-- A line that `controller::write_log_entry` of parrot/src/controller.cc wrote is read by `read_log`.
use murphy.Base.{
  ℕ, suc, ◌≡◌, ◌≢◌, refl, sym, ap, ◌∙◌, true, false, some, [], ◌∷◌, ◌++◌, Bytes, reverse,
  append_assoc, reverse-reverse, length, get_or, All, arith,
}
use murphy.Controller.Line.{is_space, is_digit, scan_digits}
use murphy.Controller.Line.Decimal.{digits, decimal, decimal-IsDigit, IsDigit, scan_digits-decimal}
use murphy.Controller.Log.{
  Record, blank, take_word, take_number, number_at, filled_word, parse_record,
}
use murphy.Text.Ends.{drop_while}

abbrev pub IsInk : ℕ → Type 0
IsInk c = is_space c ≡ false

-- A name that can be read back: it is not empty, has no blanks and does not begin a comment.
abbrev pub IsName : Bytes → Type 0
IsName g = (get_or g 0 b'#' ≢ b'#') × All IsInk g

pub take_word-blank :
    (g rest : Bytes) → All IsInk g → take_word (g ++ blank ∷ rest) ≡ (g, blank ∷ rest)
unfolding take_word
take_word-blank [] rest h = refl
take_word-blank (c ∷ g) rest (p, h) = rw (p, take_word-blank g rest h) refl

drop_blank : (c : ℕ) (s : Bytes) → IsInk c → drop_while is_space (blank ∷ c ∷ s) ≡ c ∷ s
unfolding drop_while
drop_blank c s h = rw h refl

number_at-digit :
    (c : ℕ) (s : Bytes) → is_digit c ≡ true → number_at (c ∷ s) ≡ some (scan_digits 0 (c ∷ s))
number_at-digit c s h = rw h refl

number_lem :
    (l rest : Bytes)
    → All IsDigit l
    → l ≢ []
    → take_number (blank ∷ l ++ rest) ≡ some (scan_digits 0 (l ++ rest))
number_lem [] rest h e = absurd (e refl)
number_lem (c ∷ l) rest (p, h) e =
    ap number_at (drop_blank c (l ++ rest) (grind arith))
    ∙ number_at-digit c (l ++ rest) (grind arith)

digits_filled : (k n : ℕ) → digits (suc k) n ≢ []
unfolding digits
digits_filled k n e = absurd (omega (arith, ap length e))

decimal_filled : (n : ℕ) → decimal n ≢ []
unfolding decimal
decimal_filled n e =
    let f : digits (suc n) n ≡ [] = sym (reverse-reverse (digits (suc n) n)) ∙ ap reverse e in
    digits_filled n n f

take_number-decimal :
    (n : ℕ) (rest : Bytes)
    → take_number (blank ∷ decimal n ++ blank ∷ rest) ≡ some (n, blank ∷ rest)
unfolding scan_digits
take_number-decimal n rest =
    number_lem (decimal n) (blank ∷ rest) (decimal-IsDigit n) (decimal_filled n)
    ∙ ap some (scan_digits-decimal n (blank ∷ rest))

-- A line of the log up to its last number, and what follows.
abbrev pub front : Record → Bytes → Bytes
front r t =
    r.gremlin
    ++ (blank ∷ decimal r.evil_count
        ++ (blank ∷ decimal r.child_num
            ++ (blank ∷ decimal r.invoked_count ++ (blank ∷ decimal r.syscall_count ++ t))))

pub front-append : (r : Record) (t u : Bytes) → front r t ++ u ≡ front r (t ++ u)
front-append r t u =
    append_assoc r.gremlin _ u
    ∙ ap (λ l. r.gremlin ++ blank ∷ l)
        (append_assoc (decimal r.evil_count) _ u
          ∙ ap (λ l. decimal r.evil_count ++ blank ∷ l)
              (append_assoc (decimal r.child_num) _ u
                ∙ ap (λ l. decimal r.child_num ++ blank ∷ l)
                    (append_assoc (decimal r.invoked_count) _ u
                      ∙ ap (λ l. decimal r.invoked_count ++ blank ∷ l)
                          (append_assoc (decimal r.syscall_count) t u))))

pub drop_while-ink : (g rest : Bytes) → IsName g → drop_while is_space (g ++ rest) ≡ g ++ rest
unfolding drop_while
drop_while-ink [] rest (h, k) = absurd (h refl)
drop_while-ink (c ∷ g) rest (h, k) = rw k.0 refl

filled_name : (g rest : Bytes) → IsName g → filled_word (g, rest) ≡ some (g, rest)
filled_name [] rest (h, k) = absurd (h refl)
filled_name (c ∷ g) rest h = refl

pub parse_record-front :
    (r : Record) (z : Bytes) → IsName r.gremlin → parse_record (front r (blank ∷ z)) ≡ some r
unfolding parse_record
parse_record-front r z h =
    let K = λ (s : Bytes). filled_word (take_word s) in
    let name : filled_word (take_word (drop_while is_space (front r (blank ∷ z))))
        ≡ some (r.gremlin, _) =
      ap K (drop_while-ink r.gremlin _ h)
      ∙ ap filled_word (take_word-blank r.gremlin _ h.1)
      ∙ filled_name r.gremlin _ h in
    rw
      (
        name,
        take_number-decimal r.evil_count _,
        take_number-decimal r.child_num _,
        take_number-decimal r.invoked_count _,
        take_number-decimal r.syscall_count z,
      )
      refl
