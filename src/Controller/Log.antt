-- ===== src/Controller/Log.antt =====
-- The log of parrot/src/controller.cc: `write_log_entry` and `read_log`. A line is taken to fit its
-- buffer of 8092 bytes and a gremlin's name its 80, and every `write` to succeed.
pub mod RoundTrip
pub mod Trimmed
pub mod Lines
pub mod Sums
use murphy.Base.{
  ℕ, zero, suc, ◌+◌, ◌*◌, ◌-◌, Bool, true, false, ◌&&◌, ◌||◌, Option, none, some, List, [], ◌∷◌,
  ◌++◌, Bytes, codes, str_eq, ◌==◌, if◌then◌else◌,
}
use murphy.Base.Map.{Map, put_at}
use murphy.Controller.{Context, GremlinEntry, ReplayEntry, Controller, new_replay}
use murphy.Controller.Line.{is_space, is_digit, chomp, trim, scan_digits}
use murphy.Controller.Line.Decimal.{decimal}
use murphy.Text.Ends.{drop_while}

-- The numbers of a line of the log.
pub record Record : Type 0 where
  pub gremlin : Bytes
  pub evil_count : ℕ
  pub child_num : ℕ
  pub invoked_count : ℕ
  pub syscall_count : ℕ

-- The first line.
abbrev pub log_header : Bytes
log_header = codes "#GremlinName EvilCount ChildNum InvokedCount SyscallCount\n"

abbrev pub blank : ℕ
blank = 32

-- `"%s %lu %u %lu %lu Meta: %s\n"`
unfoldable pub log_line : Record → Bytes → Bytes
log_line r meta =
    r.gremlin
    ++ (blank ∷ decimal r.evil_count
        ++ (blank ∷ decimal r.child_num
            ++ (blank ∷ decimal r.invoked_count
                ++ (blank ∷ decimal r.syscall_count ++ (codes " Meta: " ++ (meta ++ b'\n' ∷ []))))))

abbrev pub record_of : Bytes → Context → GremlinEntry → Record
record_of gname context entry = record {
  gremlin = gname;
  evil_count = entry.evil_counter;
  child_num = context.childnum;
  invoked_count = entry.thissys_counter;
  syscall_count = context.syscall_count;
}

-- `controller::write_log_entry`
unfoldable pub write_log_entry :
    {Tree : Type 0} → Bytes → Context → GremlinEntry → Controller Tree → Controller Tree
write_log_entry gname context entry c =
    let header = if c.log_started then [] else log_header in
    if c.log_is_open
    then record c {
      log = c.log ++ (header ++ log_line (record_of gname context entry) context.ioctl_meta);
      log_started = true;
    }
    else c

-- `%s` of `sscanf`: blanks are passed over, then everything up to a blank is taken.
unfoldable pub take_word : Bytes → Bytes × Bytes
take_word [] = ([], [])
take_word (c ∷ s) =
    let (word, rest) = take_word s in if is_space c then ([], c ∷ s) else (c ∷ word, rest)

-- `%lu` of `sscanf` behind blanks, for numbers without a sign.
abbrev pub number_at : Bytes → Option (ℕ × Bytes)
number_at [] = none
number_at (c ∷ t) = if is_digit c then some (scan_digits 0 (c ∷ t)) else none

abbrev pub take_number : Bytes → Option (ℕ × Bytes)
take_number s = number_at (drop_while is_space s)

abbrev pub filled_word : Bytes × Bytes → Option (Bytes × Bytes)
filled_word ([], rest) = none
filled_word (c ∷ word, rest) = some (c ∷ word, rest)

infixl 5 ◌>>=◌
abbrev pub ◌>>=◌ : {A B : Type 0} → Option A → (A → Option B) → Option B
none >>= f = none
some a >>= f = f a

-- `sscanf(line, "%s %lu %u %lu %lu Meta:\n", …)`, for `result == 5`: what follows the last number is
-- not tested.
unfoldable pub parse_record : Bytes → Option Record
parse_record line = do
  (gname, s) ← filled_word (take_word (drop_while is_space line))
  (evil, s) ← take_number s
  (child, s) ← take_number s
  (invoked, s) ← take_number s
  (syscall, s) ← take_number s
  some (record {
    gremlin = gname;
    evil_count = evil;
    child_num = child;
    invoked_count = invoked;
    syscall_count = syscall;
  })

-- `"%s.%u"`, the key of a gremlin in a child.
unfoldable pub replay_key : Bytes → ℕ → Bytes
replay_key gname childnum = gname ++ (b'.' ∷ decimal childnum)

abbrev pub known_replay : Option ReplayEntry → ReplayEntry
known_replay none = new_replay
known_replay (some e) = e

-- What a record adds to the table.
unfoldable pub add_record : Record → Map ReplayEntry → Map ReplayEntry
add_record r table =
    let key = replay_key r.gremlin r.child_num in
    let entry = known_replay (table key) in
    put_at table key (
      some (record entry {
        invoked_index = entry.invoked_index ++ r.invoked_count ∷ [];
        syscall_index = entry.syscall_index ++ r.syscall_count ∷ [];
      }))

-- `MyString::readLine`: the bytes up to and including a newline, and those behind it.
unfoldable pub cut_line : Bytes → Bytes × Bytes
cut_line [] = ([], [])
cut_line (c ∷ s) =
    let (line, rest) = cut_line s in if c == b'\n' then (c ∷ [], s) else (c ∷ line, rest)

abbrev pub is_comment : Bytes → Bool
is_comment [] = true
is_comment (c ∷ s) = c == b'#'

-- One line of the loop of `controller::read_log`; `none` where the code ends by `fatal`.
unfoldable pub read_line : Bytes → Map ReplayEntry → Option (Map ReplayEntry)
read_line line table =
    if is_comment (trim (chomp line)) then some table else elim (parse_record (trim (chomp line))) [
      | none ↦ none
      | some r ↦ some (add_record r table)
    ]

-- The loop of `controller::read_log`, with the lines that may still be read: a text has no more lines
-- than bytes.
unfoldable pub read_lines : ℕ → Bytes → Map ReplayEntry → Option (Map ReplayEntry)
read_lines zero text table = some table
read_lines (suc n) [] table = some table
read_lines (suc n) (c ∷ s) table =
    let (line, rest) = cut_line (c ∷ s) in
    elim (read_line line table) [ none ↦ none | some table' ↦ read_lines n rest table' ]
