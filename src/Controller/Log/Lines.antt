-- ===== src/Controller/Log/Lines.antt =====
-- The log that `controller::write_log_entry` of parrot/src/controller.cc wrote is read back whole.
use murphy.Base.{
  ℕ, zero, suc, ◌≤◌, ◌≡◌, ◌≢◌, ◌<◌, refl, sym, ap, ◌∙◌, Bool, true, false, some, List, [], ◌∷◌,
  ◌++◌, Bytes, codes, length, length-append, drop, append_assoc, append-nil, Bool-cases, inl, inr,
  All, All-append, arith, ◌==◌, if◌then◌else◌,
}
use murphy.Base.Map.{Map, empty_map}
use murphy.Controller.{ReplayEntry}
use murphy.Controller.Line.{is_space, chomp, trim}
use murphy.Controller.Line.Decimal.{decimal, decimal-IsDigit, IsDigit}
use murphy.Controller.Log.{
  Record, blank, log_line, log_header, add_record, is_comment, cut_line, read_line, read_lines,
}
use murphy.Controller.Log.RoundTrip.{
  front, front-append, IsName, IsInk, drop_while-ink, parse_record-front,
}
use murphy.Controller.Log.Trimmed.{trim-chomp}
use murphy.Text.Ends.{drop_while}

-- A line of the log: its numbers and the text behind them.
abbrev pub Line : Type 0
Line = Record × Bytes

-- A line that can be read back.
abbrev pub IsReadable : Line → Type 0
IsReadable (r, meta) = IsName r.gremlin × All (λ c. c ≢ b'\n') meta

log_line-front :
    (r : Record) (meta : Bytes)
    → log_line r meta ≡ front r (codes " Meta") ++ b':' ∷ ((blank ∷ meta) ++ b'\n' ∷ [])
unfolding log_line
log_line-front r meta = sym (front-append r (codes " Meta") _)

is_comment-name : (g rest : Bytes) → IsName g → is_comment (g ++ rest) ≡ false
is_comment-name [] rest (h, k) = absurd (h refl)
is_comment-name (c ∷ g) rest (h, k) = grind arith

-- What is read of a line.
read_line_lem :
    (r : Record) (z : Bytes) (line : Bytes) (table : Map ReplayEntry)
    → IsName r.gremlin
    → trim (chomp line) ≡ front r (blank ∷ z)
    → read_line line table ≡ some (add_record r table)
unfolding read_line
read_line_lem r z line table h e =
    rw (e, is_comment-name r.gremlin _ h, parse_record-front r z h) refl

pub read_line-log_line :
    (r : Record) (meta : Bytes) (table : Map ReplayEntry)
    → IsReadable (r, meta)
    → read_line (log_line r meta) table ≡ some (add_record r table)
read_line-log_line r meta table (h, k) =
    let (z, e) = trim-chomp (front r (codes " Meta")) (blank ∷ meta) b':' refl (λ u.
      let a = front-append r (codes " Meta") u in
      ap (drop_while is_space) a ∙ drop_while-ink r.gremlin _ h ∙ sym a) in
    read_line_lem r (codes "Meta:" ++ z) (log_line r meta) table h (
      ap (λ l. trim (chomp l)) (log_line-front r meta)
      ∙ e
      ∙ front-append r (codes " Meta") (b':' ∷ z))

-- Every line is cut off at its newline.
abbrev pub IsLine : Bytes → Type 0
IsLine l = All (λ c. c ≢ b'\n') l

pub cut_line-newline :
    (l rest : Bytes) → IsLine l → cut_line (l ++ b'\n' ∷ rest) ≡ (l ++ b'\n' ∷ [], rest)
unfolding cut_line
cut_line-newline [] rest h = refl
cut_line-newline (c ∷ l) rest (p, h) =
    let t : (c == b'\n') ≡ false = grind arith in rw (t, cut_line-newline l rest h) refl

read_cut :
    (n c : ℕ) (s line rest : Bytes) (table table' : Map ReplayEntry)
    → cut_line (c ∷ s) ≡ (line, rest)
    → read_line line table ≡ some table'
    → read_lines (suc n) (c ∷ s) table ≡ read_lines n rest table'
unfolding read_lines
read_cut n c s line rest table table' e f =
    let line_lem : (cut_line (c ∷ s)).0 ≡ line = ap (λ x. x.0) e in
    let rest_lem : (cut_line (c ∷ s)).1 ≡ rest = ap (λ x. x.1) e in
    rw (line_lem, f, rest_lem, read_lines) refl

read_lines-line :
    (n : ℕ) (l rest : Bytes) (table table' : Map ReplayEntry)
    → IsLine l
    → read_line (l ++ b'\n' ∷ []) table ≡ some table'
    → read_lines (suc n) (l ++ b'\n' ∷ rest) table ≡ read_lines n rest table'
read_lines-line n [] rest table table' h e =
    read_cut n _ _ _ _ table table' (cut_line-newline [] rest tt) e
read_lines-line n (c ∷ l) rest table table' h e =
    read_cut n _ _ _ _ table table' (cut_line-newline (c ∷ l) rest h) e

unfoldable pub has_newline : Bytes → Bool
has_newline [] = false
has_newline (c ∷ s) = if c == b'\n' then true else has_newline s

-- A text of one line, by the test.
pub tested-IsLine : (l : Bytes) → has_newline l ≡ false → IsLine l
unfolding has_newline
tested-IsLine [] h = tt
tested-IsLine (c ∷ l) h = elim (Bool-cases (c == b'\n')) [
  | inl t ↦ absurd (let f : true ≡ false = sym (rw t refl) ∙ h in grind arith)
  | inr t ↦ (λ e. grind arith, tested-IsLine l (sym (rw t refl) ∙ h))
]

pub ink-IsLine : (l : Bytes) → All IsInk l → IsLine l
ink-IsLine [] h = tt
ink-IsLine (c ∷ l) (p, h) = (λ e. grind arith, ink-IsLine l h)

digits-IsLine : (l : Bytes) → All IsDigit l → IsLine l
digits-IsLine [] h = tt
digits-IsLine (c ∷ l) (p, h) = (λ e. absurd (omega arith), digits-IsLine l h)

-- A field of a line behind a blank.
field-IsLine : (n : ℕ) (t : Bytes) → IsLine t → IsLine (blank ∷ decimal n ++ t)
field-IsLine n t h = (
  λ e. absurd (omega arith),
  All-append _ (decimal n) t (digits-IsLine (decimal n) (decimal-IsDigit n)) h,
)

front-IsLine : (r : Record) (t : Bytes) → IsName r.gremlin → IsLine t → IsLine (front r t)
front-IsLine r t h k = All-append _ r.gremlin _ (ink-IsLine r.gremlin h.1) (
    field-IsLine r.evil_count _ (
      field-IsLine r.child_num _
        (field-IsLine r.invoked_count _ (field-IsLine r.syscall_count t k))))

body : Line → Bytes
body (r, meta) = front r (codes " Meta: " ++ meta)

log_line-body :
    (r : Record) (meta rest : Bytes) → log_line r meta ++ rest ≡ body (r, meta) ++ b'\n' ∷ rest
unfolding log_line body
log_line-body r meta rest =
    front-append r _ rest
    ∙ ap (λ l. front r (codes " Meta: " ++ l)) (append_assoc meta (b'\n' ∷ []) rest)
    ∙ sym (front-append r (codes " Meta: " ++ meta) (b'\n' ∷ rest))

body-IsLine : (l : Line) → IsReadable l → IsLine (body l)
unfolding body
body-IsLine (r, meta) (h, k) = front-IsLine r _ h (
    All-append _ (codes " Meta: ") meta
      (tested-IsLine (codes " Meta: ") (unfold has_newline in refl)) k)

-- The log of a run, with the first line if it was not written before.
abbrev pub text : Bool → List Line → Bytes
text started [] = []
text started ((r, meta) ∷ rs) =
    (if started then [] else log_header) ++ (log_line r meta ++ text true rs)

-- The table that lines add up to.
abbrev pub table_of : List Line → Map ReplayEntry → Map ReplayEntry
table_of [] table = table
table_of ((r, meta) ∷ rs) table = table_of rs (add_record r table)

text-length : (l : Line) (rest : Bytes) → length rest < length (log_line l.0 l.1 ++ rest)
text-length (r, meta) rest =
    let e = ap length (log_line-body r meta rest) ∙ length-append (body (r, meta)) (b'\n' ∷ rest) in
    omega (arith, e)

read_one :
    (n : ℕ) (r : Record) (meta rest : Bytes) (table : Map ReplayEntry)
    → IsReadable (r, meta)
    → read_lines (suc n) (log_line r meta ++ rest) table ≡ read_lines n rest (add_record r table)
read_one n r meta rest table h =
    ap (λ t. read_lines (suc n) t table) (log_line-body r meta rest)
    ∙ read_lines-line n (body (r, meta)) rest table (add_record r table) (body-IsLine (r, meta) h) (
        ap (λ l. read_line l table) (sym (log_line-body r meta []) ∙ append-nil (log_line r meta))
        ∙ read_line-log_line r meta table h)

read_lines-lines :
    (n : ℕ) (rs : List Line) (table : Map ReplayEntry)
    → All IsReadable rs
    → length (text true rs) ≤ n
    → read_lines n (text true rs) table ≡ some (table_of rs table)
unfolding read_lines
read_lines-lines zero [] table h k = refl
read_lines-lines (suc n) [] table h k = refl
read_lines-lines zero ((r, meta) ∷ rs) table h k =
    absurd (omega (arith, text-length (r, meta) (text true rs)))
read_lines-lines (suc n) ((r, meta) ∷ rs) table (p, h) k =
    read_one n r meta (text true rs) table p
    ∙ read_lines-lines n rs (add_record r table) h
        (omega (arith, text-length (r, meta) (text true rs)))

abbrev header_text : Bytes
header_text = codes "#GremlinName EvilCount ChildNum InvokedCount SyscallCount"

read_header : (table : Map ReplayEntry) → read_line (header_text ++ b'\n' ∷ []) table ≡ some table
unfolding read_line trim chomp drop_while
read_header table = refl

header_length : (rest : Bytes) → length rest ≤ length (drop 1 (log_header ++ rest))
header_length rest = omega (arith, length-append (drop 1 log_header) rest)

-- The log of a run that starts with the first line, in which the names can be read back and no context
-- has a newline, is read without a fault, and the table has one index for every line, in their order.
pub read_lines-text :
    (rs : List Line)
    → All IsReadable rs
    → read_lines (length (text false rs)) (text false rs) empty_map ≡ some (table_of rs empty_map)
unfolding read_lines
read_lines-text [] h = refl
read_lines-text ((r, meta) ∷ rs) h =
    let rest = text true ((r, meta) ∷ rs) in
    let n = length (drop 1 (log_header ++ rest)) in
    read_lines-line n header_text rest empty_map empty_map
      (tested-IsLine header_text (unfold has_newline in refl)) (read_header empty_map)
    ∙ read_lines-lines n ((r, meta) ∷ rs) empty_map h (header_length rest)
