-- ===== src/Controller/Tests.antt =====
-- parrot/src/controller.cc at work, with a constraint that is the number of its bytes and holds for
-- gremlins that were called as often.
use murphy.Base.{
  ℕ, ◌+◌, ◌*◌, ◌≡◌, ◌≢◌, refl, Bool, true, false, ◌&&◌, Option, none, some, List, [], ◌∷◌, Bytes,
  codes, ltb, length, All, arith,
}
use murphy.Base.Map.{Map, Holds, empty_map}
use murphy.Controller.{
  Context, Library, Controller, ConfigEntry, GremlinEntry, ReplayEntry, new_controller, new_config,
}
use murphy.Controller.Config.{init, setconfig, process_config_line, fields, configured, read_config}
use murphy.Controller.Config.Laws.{IsSound, setconfig_refused}
use murphy.Controller.Evil.{doevil, find_config, entry_of, constraint_holds, attributes}
use murphy.Controller.Evil.Chance.{drawn, doevil-drawn}
use murphy.Controller.Evil.Keys.{gremlin_key_injective}
use murphy.Controller.Evil.Sound.{Reached, starts, configures, doevil_returns, Reached-IsSound}
use murphy.Controller.Line.{chomp, trim, cut_at, scan_digits, atoi}
use murphy.Controller.Line.Decimal.{decimal, digits}
use murphy.Controller.Log.{read_lines, cut_line, Record, log_line}
use murphy.Controller.Log.Sums.{recorded, invoked, IsWhole, read_lines-invoked}
use murphy.Controller.Log.Lines.{text, has_newline, tested-IsLine}
use murphy.Controller.Run.{Call, run}
use murphy.Controller.Run.Recorded.{IsLogged}
use murphy.Controller.Run.Replayed.{replaying, run-replaying}
use murphy.Text.Ends.{drop_while}

abbrev library : Library ℕ
library = record {
  parse_expression = λ s. some (length s);
  evaluate = λ tree ad. some (ltb ad.invoked_count tree);
  rand_r = λ seed. (seed * 7 + 3, seed + 1);
}

abbrev context : ℕ → ℕ → Context
context pid call = record {
  syscall_count = call;
  pid = pid;
  childnum = 2;
  ioctl_meta = codes "open";
  syscall_name = codes "read";
  syscall_number = 0;
}

abbrev config_text : Bytes
config_text = codes "read:100\nwrite:x:3\n# no more\n"

abbrev started : Controller ℕ
started = (init library (some config_text) (new_controller false true)).1

abbrev chance_of : Option (ConfigEntry ℕ) → Option ℕ
chance_of none = none
chance_of (some g) = some g.percent_on

-- `"x"` counts as 0.
started_run :
    (chance_of (started.gremlin_config_table (codes "read")) ≡ some 100)
    × (chance_of (started.gremlin_config_table (codes "write")) ≡ some 0)
    × (chance_of (started.gremlin_config_table (codes "fork")) ≡ none)
unfolding init process_config_line configured fields chomp trim cut_at atoi scan_digits drop_while
    read_config cut_line new_controller new_config
started_run = (refl, refl, refl)

-- A percentage above 100 and a field too few.
refused_run :
    ((setconfig library (codes "read:101") started).0 ≡ true)
    × ((setconfig library (codes "read") started).0 ≡ false)
unfolding setconfig init process_config_line configured fields chomp trim cut_at atoi scan_digits
    drop_while read_config cut_line new_controller new_config
refused_run = (refl, refl)

setconfig_refused_example :
    (setconfig library (codes "read") started).1.gremlin_config_table (codes "read")
    ≡ started.gremlin_config_table (codes "read")
setconfig_refused_example =
    setconfig_refused library (codes "read") started (codes "read") refused_run.1

abbrev ready : Controller ℕ
ready = record started { gremlin_replay_table = empty_map }

abbrev later : Controller ℕ
later = (setconfig library (codes "write:30:9:call") ready).1

ready_reached : Reached library ready
ready_reached = starts (some config_text) false true empty_map

later_reached : Reached library later
later_reached = configures (codes "write:30:9:call") ready ready_reached

Reached-IsSound_example : IsSound later
Reached-IsSound_example = Reached-IsSound library later later_reached

doevil_returns_example :
    (acts : Bool) × (c' : Controller ℕ) × (doevil library (codes "write") (context 40 1) none later
      ≡ some (acts, c'))
doevil_returns_example =
    doevil_returns library later (codes "write") (context 40 1) none later_reached

later_draws : later.gremlin_replay ≡ false
unfolding setconfig init process_config_line configured fields chomp trim cut_at atoi scan_digits
    drop_while read_config cut_line new_controller new_config
later_draws = refl

doevil-drawn_example :
    (e : GremlinEntry) × (g : ConfigEntry ℕ) × (c' : Controller ℕ) × (find_config library
        (codes "write")
        (entry_of library (codes "write") (context 40 1) later)
        later.gremlin_config_table
      ≡ some (e, g))
    × (doevil library (codes "write") (context 40 1) none later
        ≡ some (
          ltb (drawn library e) g.percent_on
              && constraint_holds library g
                  (attributes library none (codes "write") (context 40 1) e),
          c',
        ))
doevil-drawn_example =
    doevil-drawn library later (codes "write") (context 40 1) none later_reached later_draws

abbrev call : ℕ → Bytes → ℕ → Call
call pid gremlin n = record { gremlin = gremlin; context = context pid n; classad = none }

abbrev calls : ℕ → List Call
calls pid = call pid (codes "read") 1 ∷ call pid (codes "fork") 2 ∷ call pid (codes "read") 3 ∷ []

open_line : All (λ c. c ≢ b'\n') (codes "open")
unfolding has_newline
open_line = tested-IsLine (codes "open") refl

read_IsLogged : (n : ℕ) → IsLogged (λ child. 40) (call 40 (codes "read") n)
read_IsLogged n = record {
  name = (λ e. absurd (omega arith), (refl, (refl, (refl, (refl, tt)))));
  meta = open_line;
  process = refl;
}

fork_IsLogged : IsLogged (λ child. 40) (call 40 (codes "fork") 2)
fork_IsLogged = record {
  name = (λ e. absurd (omega arith), (refl, (refl, (refl, (refl, tt)))));
  meta = open_line;
  process = refl;
}

run-replaying_example :
    (acts : List Bool) × (end end' : Controller ℕ) × (table : Map ReplayEntry) × (run library
        (calls 40)
        started
      ≡ some (acts, end))
    × (read_lines (length end.log) end.log empty_map ≡ some table)
    × (run library (calls 51) (replaying library false table) ≡ some (acts, end'))
run-replaying_example =
    run-replaying library (some config_text) false (λ child. 40) (λ child. 51) (calls 40) (calls 51)
      (read_IsLogged 1, (fork_IsLogged, (read_IsLogged 3, tt))) (refl, (refl, (refl, tt))) refl

abbrev record_one : Record
record_one = record {
  gremlin = codes "read";
  evil_count = 0;
  child_num = 2;
  invoked_count = 7;
  syscall_count = 12;
}

read_lines-invoked_example :
    (table : Map ReplayEntry) × (read_lines
        (length (text false ((record_one, codes "open") ∷ [])))
        (text false ((record_one, codes "open") ∷ []))
        empty_map
      ≡ some table)
    × ((k : Bytes)
        → (recorded (table k) ≡ invoked ((record_one, codes "open") ∷ []) k)
          × Holds IsWhole (table k))
read_lines-invoked_example =
    read_lines-invoked ((record_one, codes "open") ∷ [])
      (((λ e. absurd (omega arith), (refl, (refl, (refl, (refl, tt))))), open_line), tt)

abbrev two : ℕ
two = 2

gremlin_key_injective_example : (codes "a.1" ≡ codes "a.1") × (two ≡ two) × (two ≡ two)
gremlin_key_injective_example =
    gremlin_key_injective (codes "a.1") (codes "a.1") two two two two refl

line_run : log_line record_one (codes "open") ≡ codes "read 0 2 7 12 Meta: open\n"
unfolding log_line decimal digits
line_run = refl
