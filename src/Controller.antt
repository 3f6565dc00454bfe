-- ===== src/Controller.antt =====
-- parrot/src/controller.cc, the part of Murphy that decides which system calls go wrong: gremlins, each
-- with a configuration, a log of what they did, and a replay of such a log.
-- A `gremlin_config_entry *` is the name under which the table of configurations holds the entry: no
-- entry leaves that table, and a line for a name that is there changes the entry in place.
-- Counters are 64-bit in the code and are taken not to overflow.
pub mod Line
pub mod Config
pub mod Evil
pub mod Log
pub mod Run
mod Tests
use murphy.Base.{ℕ, ◌+◌, Bool, true, false, Option, none, some, List, [], Bytes}
use murphy.Base.Map.{Map, empty_map}

-- `controller_context_t`
pub record Context : Type 0 where
  pub syscall_count : ℕ
  pub pid : ℕ
  pub childnum : ℕ
  pub ioctl_meta : Bytes
  pub syscall_name : Bytes
  pub syscall_number : ℕ

-- The attributes of the ad against which a constraint is evaluated, with the text of the ad that the
-- caller gives, if any.
pub record Attributes : Type 0 where
  pub classad_context : Option Bytes
  pub gremlin : Bytes
  pub invoked_count : ℕ
  pub evil_count : ℕ
  pub context : Context

-- The ClassAd library and `rand_r`. `evaluate` is `EvaluateAttrBool`, `none` where it does not set its
-- result; `rand_r` gives the number and the next seed.
pub record Library (ExprTree : Type 0) : Type 0 where
  pub parse_expression : Bytes → Option ExprTree
  pub evaluate : ExprTree → Attributes → Option Bool
  pub rand_r : ℕ → ℕ × ℕ

-- `struct gremlin_config_entry`
pub record ConfigEntry (ExprTree : Type 0) : Type 0 where
  pub name : Bytes
  pub seed : ℕ
  pub percent_on : ℕ
  pub constraint : Bytes
  pub constraint_tree : Option ExprTree

-- `struct gremlin_entry`, less the fields that nothing reads.
pub record GremlinEntry : Type 0 where
  pub config : Option Bytes
  pub seed_initialized : Bool
  pub seed : ℕ
  pub name : Bytes
  pub pid : ℕ
  pub child_num : ℕ
  pub thissys_counter : ℕ
  pub evil_counter : ℕ

-- `struct gremlin_replay_entry`
pub record ReplayEntry : Type 0 where
  pub current_entry : ℕ
  pub invoked_index : List ℕ
  pub syscall_index : List ℕ

-- `class controller`, with the static variables: the number of configurations made so far, whether a
-- replay file was given, whether the log is open, what was written to it, and whether its first line
-- was.
pub record Controller (ExprTree : Type 0) : Type 0 where
  pub gremlin_table : Map GremlinEntry
  pub gremlin_config_table : Map (ConfigEntry ExprTree)
  pub gremlin_replay_table : Map ReplayEntry
  pub num_entries : ℕ
  pub gremlin_replay : Bool
  pub log_is_open : Bool
  pub log_started : Bool
  pub log : Bytes

-- `gremlin_entry::gremlin_entry`, and the three fields that `doevil` sets at once.
unfoldable pub new_gremlin : Bytes → ℕ → ℕ → GremlinEntry
new_gremlin name pid child = record {
  config = none;
  seed_initialized = false;
  seed = 0;
  name = name;
  pid = pid;
  child_num = child;
  thissys_counter = 0;
  evil_counter = 0;
}

-- `gremlin_config_entry::gremlin_config_entry`, for the number of entries made before.
unfoldable pub new_config : {ExprTree : Type 0} → ℕ → ConfigEntry ExprTree
new_config made = record {
  name = [];
  seed = made + 1;
  percent_on = 0;
  constraint = [];
  constraint_tree = none;
}

-- `gremlin_replay_entry::gremlin_replay_entry`
unfoldable pub new_replay : ReplayEntry
new_replay = record { current_entry = 0; invoked_index = []; syscall_index = [] }

-- `controller::controller`
unfoldable pub new_controller : {ExprTree : Type 0} → Bool → Bool → Controller ExprTree
new_controller replay log = record {
  gremlin_table = empty_map;
  gremlin_config_table = empty_map;
  gremlin_replay_table = empty_map;
  num_entries = 0;
  gremlin_replay = replay;
  log_is_open = log;
  log_started = false;
  log = [];
}
