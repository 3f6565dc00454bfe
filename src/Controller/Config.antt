-- ===== src/Controller/Config.antt =====
-- The configuration of parrot/src/controller.cc: `process_config_line`, `setconfig` and `init`.
pub mod Laws
pub mod Init
use murphy.Base.{
  ℕ, zero, suc, length, ◌+◌, Bool, true, false, Option, none, some, List, [], ◌∷◌, Bytes, codes,
  ltb, leb, ◌==◌, if◌then◌else◌,
}
use murphy.Base.Int.{ℤ, pos, negsuc, ltb_ℤ, leb_ℤ}
use murphy.Base.Map.{Map, put_at}
use murphy.Controller.{Library, ConfigEntry, Controller, new_config}
use murphy.Controller.Line.{chomp, trim, tokenize, next_token, filled, atoi}
use murphy.Controller.Log.{cut_line, is_comment}

abbrev pub colon : ℕ
colon = b':'

-- The four fields of a line, as `GetNextToken` gives them; `none` where one is missing or empty.
pub record Fields : Type 0 where
  pub name : Option Bytes
  pub percent : Option Bytes
  pub seed : Option Bytes
  pub constraint : Option Bytes

unfoldable pub fields : Bytes → Fields
fields line =
    let (name, s) = next_token colon (tokenize line) in
    let (percent, s') = next_token colon s in
    let (seed, s'') = next_token colon s' in
    let (constraint, s3) = next_token colon s'' in
    record {
      name = filled name;
      percent = filled percent;
      seed = filled seed;
      constraint = filled constraint;
    }

-- `seed > 0`, else the seed stays; a missing seed is 0.
abbrev pub chosen_seed : Option Bytes → ℕ → ℕ
chosen_seed none old = old
chosen_seed (some s) old = elim (atoi s) [ pos n ↦ if n == 0 then old else n | negsuc n ↦ old ]

-- `percent >= 0 && percent < 101`, else it stays.
abbrev pub chosen_percent : ℤ → ℕ → ℕ
chosen_percent (pos n) old = if ltb n 101 then n else old
chosen_percent (negsuc n) old = old

module _ {Tree : Type 0} (lib : Library Tree) where
  -- The end of `process_config_line`, with a constraint and its tree, if there is one.
  unfoldable pub configured :
      Bytes → Bytes → Option Bytes → Option (Bytes × Tree) → ConfigEntry Tree → ConfigEntry Tree
  configured name percent seed constraint entry =
      let common = record entry {
        name = name;
        seed = chosen_seed seed entry.seed;
        percent_on = chosen_percent (atoi percent) entry.percent_on;
      } in
      elim constraint [
        | none ↦ common
        | some (text, tree) ↦ record common { constraint = trim text; constraint_tree = some tree }
      ]

  -- `controller::process_config_line`, which writes to the entry that it is given: whether the line is
  -- good, and the entry behind the call. Its fields are assigned when all of the line was parsed.
  unfoldable pub process_config_line : Bytes → ConfigEntry Tree → Bool × ConfigEntry Tree
  process_config_line line entry =
      let f = fields (trim (chomp line)) in
      if is_comment (trim (chomp line)) then (false, entry) else elim f.name [
        | none ↦ (false, entry)
        | some name ↦ elim f.percent [
          | none ↦ (false, entry)
          | some percent ↦ elim f.constraint [
            | none ↦ (true, configured name percent f.seed none entry)
            | some text ↦ elim (lib.parse_expression text) [
              | none ↦ (false, entry)
              | some tree ↦ (true, configured name percent f.seed (some (text, tree)) entry)
            ]
          ]
        ]
      ]

  -- What `setconfig` and `init` make of a new entry: it counts even where its line is refused.
  abbrev pub made : Controller Tree → Controller Tree
  made c = record c { num_entries = c.num_entries + 1 }

  abbrev pub with_config : Bytes → ConfigEntry Tree → Controller Tree → Controller Tree
  with_config name entry c = record c {
    gremlin_config_table = put_at c.gremlin_config_table name (some entry);
  }

  -- `controller::setconfig`. An entry that is found stands in the table while it is written to; a new
  -- one is put there if the line is good.
  unfoldable pub setconfig : Bytes → Controller Tree → Bool × Controller Tree
  setconfig config_line c =
      let line = trim (chomp config_line) in
      if is_comment line then (false, c) else elim (fields line).name [
        | none ↦ (false, c)
        | some name ↦ elim (c.gremlin_config_table name) [
          | some entry ↦
              let (good, entry') = process_config_line line entry in
              (good, with_config name entry' c)
          | none ↦
              let (good, entry') = process_config_line line (new_config c.num_entries) in
              if good then (true, with_config entry'.name entry' (made c)) else (false, made c)
        ]
      ]

  -- The loop of `controller::init` over the lines of the configuration file, with the entry that the
  -- next good line is to fill: whether all lines were good. A text has no more lines than bytes.
  unfoldable pub read_config :
      ℕ → Bytes → ConfigEntry Tree → Controller Tree → Bool × Controller Tree
  read_config zero text entry c = (true, c)
  read_config (suc n) [] entry c = (true, c)
  read_config (suc n) (b ∷ s) entry c =
      let (line, rest) = cut_line (b ∷ s) in
      let (good, e) = process_config_line line entry in
      let inserted =
        read_config n rest (new_config c.num_entries) (made (with_config e.name e c)) in
      let skipped = read_config n rest e c in if good then inserted else (false, skipped.1)

  -- `controller::init` from the default entry on, with the text of the configuration file, if one is
  -- given and can be opened.
  unfoldable pub init : Option Bytes → Controller Tree → Bool × Controller Tree
  init config_file c =
      let (good, e) = process_config_line (codes "default:0") (new_config c.num_entries) in
      let default : Controller Tree = if good then with_config e.name e (made c) else made c in
      elim config_file [
        | none ↦ (true, default)
        | some text ↦ read_config (length text) text (new_config default.num_entries) (made default)
      ]
