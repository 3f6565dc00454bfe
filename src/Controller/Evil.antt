-- ===== src/Controller/Evil.antt =====
-- `controller::doevil` of parrot/src/controller.cc: whether a gremlin acts on a call.
pub mod Keys
pub mod Sound
pub mod Effects
pub mod Chance
pub mod Replay
use murphy.Base.{
  ap, ◌≡◌, ℕ, ◌+◌, ◌%◌, Bool, true, false, ◌&&◌, Option, none, some, List, [], ◌∷◌, ◌++◌, Bytes,
  codes, str_eq, length, get_or, ltb, ◌==◌, if◌then◌else◌,
}
use murphy.Base.Map.{Map, put_at}
use murphy.Controller.{
  Context, Attributes, Library, ConfigEntry, GremlinEntry, ReplayEntry, Controller, new_gremlin,
}
use murphy.Controller.Line.Decimal.{decimal}
use murphy.Controller.Log.{replay_key, write_log_entry}

-- `"%s.%u.%u"`
unfoldable pub gremlin_key : Bytes → ℕ → ℕ → Bytes
gremlin_key gname pid childnum = gname ++ (b'.' ∷ (decimal pid ++ (b'.' ∷ decimal childnum)))

abbrev pub default_name : Bytes
default_name = codes "default"

-- The entry of the gremlin in this process, made at its first call.
abbrev pub known_gremlin : Bytes → Context → Option GremlinEntry → GremlinEntry
known_gremlin gname context none = new_gremlin gname context.pid context.childnum
known_gremlin gname context (some e) = e

-- What a gremlin's decision leaves: whether it acts, its entry and the replay table.
pub record Decision : Type 0 where
  pub acts : Bool
  pub entry : GremlinEntry
  pub replay_table : Map ReplayEntry

-- The replay: a gremlin acts at the calls that the log names, in their order. At its last one its entry
-- leaves the table.
unfoldable pub replay_decision : Bytes → GremlinEntry → Map ReplayEntry → Decision
replay_decision key entry table =
    let rest : Decision = record { acts = false; entry = entry; replay_table = table } in
    elim (table key) [
      | none ↦ rest
      | some r ↦
          if entry.thissys_counter == get_or r.invoked_index r.current_entry 0
          then record {
            acts = true;
            entry = entry;
            replay_table = put_at table key (
                if r.current_entry + 1 == length r.invoked_index
                then none
                else some (record r { current_entry = r.current_entry + 1 }));
          }
          else rest
    ]

module _ {Tree : Type 0} (lib : Library Tree) where
  -- The configuration of a gremlin, and its entry, in which a configuration of its own is kept and the
  -- seed is set once. `none` where the code follows a null pointer.
  unfoldable pub find_config :
      Bytes → GremlinEntry → Map (ConfigEntry Tree) → Option (GremlinEntry × ConfigEntry Tree)
  find_config gname entry table = elim entry.config [
    | some n ↦ elim (table n) [ none ↦ none | some g ↦ some (entry, g) ]
    | none ↦ elim (table gname) [
      | some g ↦ some (
        record entry {
          config = some gname;
          seed = if entry.seed_initialized then entry.seed else g.seed;
          seed_initialized = true;
        },
        g,
      )
      | none ↦ elim (table default_name) [
        | none ↦ none
        | some g ↦ some (
          record entry {
            seed = if entry.seed_initialized then entry.seed else g.seed;
            seed_initialized = true;
          },
          g,
        )
      ]
    ]
  ]

  -- By percentage.
  unfoldable pub random_decision : ConfigEntry Tree → GremlinEntry → Map ReplayEntry → Decision
  random_decision g entry table =
      let (number, seed) = lib.rand_r entry.seed in
      if g.percent_on == 0
      then record { acts = false; entry = entry; replay_table = table }
      else if g.percent_on == 100
      then record { acts = true; entry = entry; replay_table = table }
      else record {
        acts = ltb (number % 100) g.percent_on;
        entry = record entry { seed = seed };
        replay_table = table;
      }

  abbrev pub attributes : Option Bytes → Bytes → Context → GremlinEntry → Attributes
  attributes ad gname context entry = record {
    classad_context = ad;
    gremlin = gname;
    invoked_count = entry.thissys_counter;
    evil_count = entry.evil_counter;
    context = context;
  }

  -- The constraint, if there is one; a result that is no Boolean counts as true.
  unfoldable pub constraint_holds : ConfigEntry Tree → Attributes → Bool
  constraint_holds g ad = elim g.constraint_tree [
    | none ↦ true
    | some tree ↦ elim (lib.evaluate tree ad) [ none ↦ true | some b ↦ b ]
  ]

  -- The end of `doevil`: the log and the counters.
  unfoldable pub record_decision :
      Bytes → Context → Bool → GremlinEntry → Controller Tree → Controller Tree
  record_decision gname context acts entry c =
      let counted = record entry {
        thissys_counter = entry.thissys_counter + 1;
        evil_counter = if acts then entry.evil_counter + 1 else entry.evil_counter;
      } in
      let logged = if acts then write_log_entry gname context entry c else c in
      record logged {
        gremlin_table =
            put_at logged.gremlin_table (gremlin_key gname context.pid context.childnum)
              (some counted);
      }

  -- `doevil` from the point where the configuration is known.
  unfoldable pub decided :
      Bytes
      → Context
      → Option Bytes
      → Controller Tree
      → GremlinEntry
      → ConfigEntry Tree
      → Bool × Controller Tree
  decided gname context ad c entry g =
      let d : Decision =
        if c.gremlin_replay
        then replay_decision (replay_key gname context.childnum) entry c.gremlin_replay_table
        else random_decision g entry c.gremlin_replay_table in
      let acts = d.acts && constraint_holds g (attributes ad gname context d.entry) in
      (
        acts,
        record_decision gname context acts d.entry
            (record c { gremlin_replay_table = d.replay_table }),
      )

  -- `controller::doevil`; `none` where the code follows a null pointer.
  unfoldable pub doevil :
      Bytes → Context → Option Bytes → Controller Tree → Option (Bool × Controller Tree)
  doevil gname context ad c =
      let key = gremlin_key gname context.pid context.childnum in
      let entry = known_gremlin gname context (c.gremlin_table key) in
      elim (find_config gname entry c.gremlin_config_table) [
        | none ↦ none
        | some (e, g) ↦ some (decided gname context ad c e g)
      ]

  -- The gremlin's entry in a process, as `doevil` finds or makes it.
  abbrev pub entry_of : Bytes → Context → Controller Tree → GremlinEntry
  entry_of gname context c =
      known_gremlin gname context (c.gremlin_table (gremlin_key gname context.pid context.childnum))

  pub doevil_lem :
      (gname : Bytes) (context : Context) (ad : Option Bytes) (c : Controller Tree)
      (e : GremlinEntry) (g : ConfigEntry Tree)
      → find_config gname (entry_of gname context c) c.gremlin_config_table ≡ some (e, g)
      → doevil gname context ad c ≡ some (decided gname context ad c e g)
  unfolding doevil
  doevil_lem gname context ad c e g t =
      ap
        (λ (x : Option (GremlinEntry × ConfigEntry Tree)). elim x [
          | none ↦ none
          | some (e, g) ↦ some (decided gname context ad c e g)
        ])
        t
