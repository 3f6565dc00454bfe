-- ===== src/Controller/Run/Replayed.antt =====
-- A replay of the log of a run in parrot/src/controller.cc.
use mathlib.Core.Path.{subst}
use murphy.Base.{
  ℕ, ◌≡◌, refl, sym, ap, ◌∙◌, Bool, true, false, ◌&&◌, Option, none, some, List, [], ◌∷◌, ◌++◌,
  Bytes, All, suc, length, arith, map,
}
use murphy.Base.Map.{Map, empty_map, Every, Holds_of_some}
use murphy.Controller.{
  Context, Attributes, Library, Controller, ConfigEntry, GremlinEntry, ReplayEntry, new_controller,
}
use murphy.Controller.Config.{init}
use murphy.Controller.Config.Init.{init-IsSound, init-IsFresh, init-free}
use murphy.Controller.Config.Laws.{IsSound}
use murphy.Controller.Evil.{
  gremlin_key, attributes, decided, doevil_lem, constraint_holds, replay_decision, record_decision,
}
use murphy.Controller.Evil.Effects.{decision, count}
use murphy.Controller.Evil.Replay.{bump, indexes, Follows, replay_decision-Decides}
use murphy.Controller.Evil.Sound.{find_config_lem, decided-IsSound, logged-KeepsTables, KeepsTables}
use murphy.Controller.Log.{replay_key, read_lines}
use murphy.Controller.Log.Lines.{text, table_of, read_lines-text}
use murphy.Controller.Log.Sums.{table_of-IsLive, remaining-table_of}
use murphy.Controller.Run.{Call, run, run-step, key_of, keyed}
use murphy.Controller.Run.Counts.{Counts, decided-Counts, found-Counts}
use murphy.Controller.Run.Recorded.{IsLogged, run-Writes}

-- A configuration without a constraint.
abbrev IsFree : {Tree : Type 0} → ConfigEntry Tree → Type 0
IsFree g = g.constraint_tree ≡ none

and-true : (b : Bool) → (b && true) ≡ b
and-true true = refl
and-true false = refl

module _ {Tree : Type 0} (lib : Library Tree) where
  constraint_holds-free :
      (g : ConfigEntry Tree) (ad : Attributes) → IsFree g → constraint_holds lib g ad ≡ true
  unfolding constraint_holds
  constraint_holds-free g ad f =
      ap
        (λ (x : Option Tree). elim x [
          | none ↦ true
          | some tree ↦ elim (lib.evaluate tree ad) [ none ↦ true | some b ↦ b ]
        ])
        f

  -- The state of a replay.
  record IsReplay (c : Controller Tree) : Type 0 where
    sound : IsSound c
    replay : c.gremlin_replay ≡ true
    free : Every IsFree c.gremlin_config_table

  record_decision-replay :
      (gname : Bytes) (context : Context) (acts : Bool) (e : GremlinEntry) (c : Controller Tree)
      → KeepsTables lib
          (record c { gremlin_table = (record_decision lib gname context acts e c).gremlin_table })
          (record_decision lib gname context acts e c)
  unfolding record_decision
  record_decision-replay gname context acts e c =
      let k = logged-KeepsTables lib gname context acts e c in
      record { configs = k.configs; gremlins = refl; replays = k.replays; replay = k.replay }

  -- A decision of a replay is that of the table alone.
  record Replays (gname : Bytes) (context : Context) (ad : Option Bytes) (c : Controller Tree)
      (e : GremlinEntry) (g : ConfigEntry Tree) : Type 0 where
    acts :
        (decided lib gname context ad c e g).0
        ≡ (replay_decision (replay_key gname context.childnum) e c.gremlin_replay_table).acts
    table :
        (decided lib gname context ad c e g).1.gremlin_replay_table
        ≡ (replay_decision
            (replay_key gname context.childnum)
            e
            c.gremlin_replay_table).replay_table
    replay : (decided lib gname context ad c e g).1.gremlin_replay ≡ true
    free : Every IsFree (decided lib gname context ad c e g).1.gremlin_config_table

  decided-Replays :
      (gname : Bytes) (context : Context) (ad : Option Bytes) (c : Controller Tree)
      (e : GremlinEntry) (g : ConfigEntry Tree)
      → IsReplay c
      → IsFree g
      → Replays gname context ad c e g
  unfolding decided
  decided-Replays gname context ad c e g r f =
      let d = decision lib gname context c e g in
      let t : d ≡ replay_decision (replay_key gname context.childnum) e c.gremlin_replay_table =
        rw r.replay refl in
      let k =
        record_decision-replay gname context (decided lib gname context ad c e g).0 d.entry
          (record c { gremlin_replay_table = d.replay_table }) in
      record {
        acts =
            ap (λ b. d.acts && b)
              (constraint_holds-free g (attributes lib ad gname context d.entry) f)
            ∙ and-true d.acts
            ∙ ap (λ x. x.acts) t;
        table = sym k.replays ∙ ap (λ x. x.replay_table) t;
        replay = sym k.replay ∙ r.replay;
        free = subst (Every IsFree) k.configs r.free;
      }

  run-replays :
      (pid : ℕ → ℕ) (calls : List Call) (bs : List Bool) (c : Controller Tree) (n : Bytes → ℕ)
      → IsReplay c
      → Counts pid c n
      → Follows c.gremlin_replay_table (keyed (map key_of calls) bs) n
      → length bs ≡ length calls
      → All (λ (call : Call). call.context.pid ≡ pid call.context.childnum) calls
      → (end : Controller Tree) × (run lib calls c ≡ some (bs, end))
  unfolding run keyed
  run-replays pid [] [] c n r h f l k = (c, refl)
  run-replays pid [] (b ∷ bs) c n r h f l k = absurd (omega (arith, l))
  run-replays pid (call ∷ calls) [] c n r h f l k = absurd (omega (arith, l))
  run-replays pid (call ∷ calls) (b ∷ bs) c n r h f l (k, ks) =
      let (e, g, found, p, q, u) = find_config_lem lib call.gremlin call.context c r.sound in
      let after = decided lib call.gremlin call.context call.classad c e g in
      let s =
        decided-Replays call.gremlin call.context call.classad c e g r
          (Holds_of_some IsFree _ g u (r.free q)) in
      let (decides, follows) =
        replay_decision-Decides (key_of call) (keyed (map key_of calls) bs) n e
          c.gremlin_replay_table b f
          (found-Counts lib pid call.gremlin call.context c e g n k found h) in
      let (end, t) =
        run-replays pid calls bs after.1 (bump n (key_of call))
          (record {
            sound = decided-IsSound lib call.gremlin call.context call.classad c e g p r.sound;
            replay = s.replay;
            free = s.free;
          })
          (decided-Counts lib pid call.gremlin call.context call.classad c e g n k found h)
          (subst (λ m. Follows m (keyed (map key_of calls) bs) (bump n (key_of call))) (sym s.table)
            follows)
          (omega (arith, l)) ks in
      (
        end,
        run-step lib call calls c after.1 end b bs
            (doevil_lem lib call.gremlin call.context call.classad c e g found
              ∙ ap (λ x. some (x, after.1)) (s.acts ∙ decides))
            t,
      )

length-map : {A B : Type 0} (f : A → B) (xs : List A) → length (map f xs) ≡ length xs
length-map f [] = refl
length-map f (x ∷ xs) = ap suc (length-map f xs)

-- The state of a process that replays a log's table without a configuration file.
abbrev pub replaying : {Tree : Type 0} → Library Tree → Bool → Map ReplayEntry → Controller Tree
replaying lib log table = record ((init lib none (new_controller true log)).1) {
  gremlin_replay_table = table;
}

-- A log replays its run. A process that was started with any configuration file, with its log open and
-- without a replay, decides on every call; what it wrote is read back without a fault; and another process
-- that is started with that log and without a configuration file makes the same decisions on calls of
-- the same gremlins in the same children, whatever else differs. In each process a child number has one
-- process number; the names of the gremlins are words that do not begin a comment, and the recorded
-- contexts have no newline.
pub run-replaying :
    {Tree : Type 0} (lib : Library Tree) (config_file : Option Bytes) (log : Bool)
    (pid pid' : ℕ → ℕ) (calls calls' : List Call)
    → All (IsLogged pid) calls
    → All (λ (call : Call). call.context.pid ≡ pid' call.context.childnum) calls'
    → map key_of calls ≡ map key_of calls'
    → (acts : List Bool) × (end end' : Controller Tree) × (table : Map ReplayEntry) × (run lib calls
          (init lib config_file (new_controller false true)).1
        ≡ some (acts, end))
      × (read_lines (length end.log) end.log empty_map ≡ some table)
      × (run lib calls' (replaying lib log table) ≡ some (acts, end'))
run-replaying lib config_file log pid pid' calls calls' h h' e =
    let start = (init lib config_file (new_controller false true)).1 in
    let fresh = init-IsFresh lib config_file false true in
    let fresh' = init-IsFresh lib none true log in
    let none_yet : Bytes → ℕ = λ k. 0 in
    let w =
      run-Writes lib pid calls start none_yet (init-IsSound lib config_file false true) fresh.opened
        (λ g child. ap count (fresh.gremlins (gremlin_key g (pid child) child))) h in
    let table = table_of w.lines empty_map in
    let text_lem : w.end.log ≡ text false w.lines =
      w.log
      ∙ ap (λ l. l ++ text start.log_started w.lines) fresh.empty
      ∙ ap (λ b. text b w.lines) fresh.not_started in
    let s = init-IsSound lib none true log in
    let (end', t) =
      run-replays lib pid' calls' w.acts (replaying lib log table) none_yet
        (record {
          sound = record { default = s.default; percents = s.percents; pointed = s.pointed };
          replay = fresh'.replaying;
          free = init-free lib true log;
        })
        (λ g child. ap count (fresh'.gremlins (gremlin_key g (pid' child) child)))
        (record {
          live = table_of-IsLive w.lines;
          left = λ k.
              remaining-table_of w.lines k
              ∙ w.counters k
              ∙ ap (λ qs. indexes (keyed qs w.acts) none_yet k) e;
        })
        (w.size ∙ sym (length-map key_of calls) ∙ ap length e ∙ length-map key_of calls') h' in
    (
      w.acts,
      w.end,
      end',
      table,
      w.runs,
      ap (λ l. read_lines (length l) l empty_map) text_lem ∙ read_lines-text w.lines w.readable,
      t,
    )
