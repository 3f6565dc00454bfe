-- ===== src/Controller/Evil/Sound.antt =====
-- `controller::doevil` of parrot/src/controller.cc finds a configuration in every state.
use mathlib.Core.Path.{subst}
use murphy.Base.{
  arith, ◌≡◌, refl, sym, ◌∙◌, Bool, Option, none, some, Bytes, if_cases, option_split, option_cases,
  Bool-cases, inl, inr, ◌==◌, if◌then◌else◌,
}
use murphy.Base.Map.{Map, Every, IsThere, Holds, put_at-Every}
use murphy.Controller.{
  Context, Library, ConfigEntry, GremlinEntry, ReplayEntry, Controller, new_controller, new_gremlin,
}
use murphy.Controller.Config.{init, setconfig}
use murphy.Controller.Config.Laws.{IsSound, Known, PointsTo, setconfig-IsSound, IsPercent}
use murphy.Controller.Config.Init.{init-IsSound}
use murphy.Controller.Log.{write_log_entry, replay_key}
use murphy.Controller.Evil.{
  default_name, gremlin_key, entry_of, doevil_lem, decided, known_gremlin, Decision, find_config,
  random_decision, replay_decision, doevil, record_decision,
}

module _ {Tree : Type 0} (lib : Library Tree) where
  some_there : (table : Map (ConfigEntry Tree)) (k : Bytes) → IsThere table k → ¬ (table k ≡ none)
  some_there table k (a, h) e = let t : none ≡ some a = sym e ∙ h in grind arith

  -- A configuration is found, and the gremlin's entry points to one that is there.
  abbrev pub Finds : Map (ConfigEntry Tree) → Option (GremlinEntry × ConfigEntry Tree) → Type 0
  Finds table x =
      (e : GremlinEntry) × (g : ConfigEntry Tree) × (x ≡ some (e, g))
      × PointsTo table e
      × (k : Bytes) × (table k ≡ some g)

  find_config-Finds :
      (gname : Bytes) (entry : GremlinEntry) (table : Map (ConfigEntry Tree))
      → IsThere table default_name
      → PointsTo table entry
      → Finds table (find_config lib gname entry table)
  unfolding find_config
  find_config-Finds gname entry table d p =
      option_split (Finds table) entry.config _ _
        (λ t.
          option_split (Finds table) (table gname) _ _
            (λ u.
              option_split (Finds table) (table default_name) _ _
                (λ v. absurd (some_there table default_name d v))
                (λ g v. (_, g, refl, p, default_name, v)))
            (λ g u. (_, g, refl, (g, u), gname, u)))
        (λ n t.
          option_split (Finds table) (table n) _ _
            (λ u. absurd (some_there table n (subst (Known table) t p) u))
            (λ g u. (entry, g, refl, p, n, u)))

  known_gremlin-PointsTo :
      (table : Map (ConfigEntry Tree)) (gname : Bytes) (context : Context) (x : Option GremlinEntry)
      → Holds (PointsTo table) x
      → PointsTo table (known_gremlin gname context x)
  unfolding new_gremlin
  known_gremlin-PointsTo table gname context none h = tt
  known_gremlin-PointsTo table gname context (some e) h = h

  -- What `doevil` finds in a sound state.
  pub find_config_lem :
      (gname : Bytes) (context : Context) (c : Controller Tree)
      → IsSound c
      → Finds c.gremlin_config_table
          (find_config lib gname (entry_of lib gname context c) c.gremlin_config_table)
  find_config_lem gname context c s =
      let key = gremlin_key gname context.pid context.childnum in
      find_config-Finds gname _ c.gremlin_config_table s.default (
        known_gremlin-PointsTo c.gremlin_config_table gname context (c.gremlin_table key)
          (s.pointed key))

  replay_decision-PointsTo :
      (table : Map (ConfigEntry Tree)) (key : Bytes) (e : GremlinEntry) (replays : Map ReplayEntry)
      → PointsTo table e
      → PointsTo table (replay_decision key e replays).entry
  unfolding replay_decision
  replay_decision-PointsTo table key e replays h =
      let K = λ (d : Decision). PointsTo table d.entry in
      option_cases K (replays key) _ _ h (λ r t. if_cases K _ _ _ (λ u. h) (λ u. h))

  random_decision-PointsTo :
      (table : Map (ConfigEntry Tree)) (g : ConfigEntry Tree) (e : GremlinEntry)
      (replays : Map ReplayEntry)
      → PointsTo table e
      → PointsTo table (random_decision lib g e replays).entry
  unfolding random_decision
  random_decision-PointsTo table g e replays h = elim (Bool-cases (g.percent_on == 0)) [
    | inl t ↦ rw t h
    | inr t ↦ elim (Bool-cases (g.percent_on == 100)) [ inl u ↦ rw (t, u) h | inr u ↦ rw (t, u) h ]
  ]

  -- The log leaves every table.
  pub record KeepsTables (c c' : Controller Tree) : Type 0 where
    pub configs : c.gremlin_config_table ≡ c'.gremlin_config_table
    pub gremlins : c.gremlin_table ≡ c'.gremlin_table
    pub replays : c.gremlin_replay_table ≡ c'.gremlin_replay_table
    pub replay : c.gremlin_replay ≡ c'.gremlin_replay

  pub logged-KeepsTables :
      (gname : Bytes) (context : Context) (acts : Bool) (e : GremlinEntry) (c : Controller Tree)
      → KeepsTables c (if acts then write_log_entry gname context e c else c)
  unfolding write_log_entry
  logged-KeepsTables gname context acts e c =
      if_cases (KeepsTables c) acts _ _
        (λ t.
          if_cases (KeepsTables c) c.log_is_open _ _
            (λ u. record { configs = refl; gremlins = refl; replays = refl; replay = refl })
            (λ u. record { configs = refl; gremlins = refl; replays = refl; replay = refl }))
        (λ t. record { configs = refl; gremlins = refl; replays = refl; replay = refl })

  record_decision-IsSound :
      (gname : Bytes) (context : Context) (acts : Bool) (e : GremlinEntry) (c : Controller Tree)
      → PointsTo c.gremlin_config_table e
      → IsSound c
      → IsSound (record_decision lib gname context acts e c)
  unfolding record_decision
  record_decision-IsSound gname context acts e c p s =
      let k = logged-KeepsTables gname context acts e c in
      record {
        default = subst (λ m. IsThere m default_name) k.configs s.default;
        percents = subst (Every IsPercent) k.configs s.percents;
        pointed =
            put_at-Every _ _ (gremlin_key gname context.pid context.childnum) _
              (subst
                (λ m.
                  Every (PointsTo m)
                    (if acts then write_log_entry gname context e c else c).gremlin_table)
                k.configs (subst (Every (PointsTo c.gremlin_config_table)) k.gremlins s.pointed))
              (subst (λ m. PointsTo m e) k.configs p);
      }

  pub decided-IsSound :
      (gname : Bytes) (context : Context) (ad : Option Bytes) (c : Controller Tree)
      (e : GremlinEntry) (g : ConfigEntry Tree)
      → PointsTo c.gremlin_config_table e
      → IsSound c
      → IsSound (decided lib gname context ad c e g).1
  unfolding decided
  decided-IsSound gname context ad c e g p s =
      let configs = c.gremlin_config_table in
      record_decision-IsSound gname context _ _ _
        (if_cases (λ (d : Decision). PointsTo configs d.entry) c.gremlin_replay
          (replay_decision (replay_key gname context.childnum) e c.gremlin_replay_table)
          (random_decision lib g e c.gremlin_replay_table)
          (λ u. replay_decision-PointsTo configs _ e c.gremlin_replay_table p)
          (λ u. random_decision-PointsTo configs g e c.gremlin_replay_table p))
        (record { default = s.default; percents = s.percents; pointed = s.pointed })

  -- A decision is made, and what it leaves is sound again.
  doevil-IsSound :
      (gname : Bytes) (context : Context) (ad : Option Bytes) (c : Controller Tree)
      → IsSound c
      → (acts : Bool) × (c' : Controller Tree) × (doevil lib gname context ad c ≡ some (acts, c'))
        × IsSound c'
  doevil-IsSound gname context ad c s =
      let (e, g, t, p, k, u) = find_config_lem gname context c s in
      (_, _, doevil_lem lib gname context ad c e g t, decided-IsSound gname context ad c e g p s)

-- The states of a process: started with or without a configuration file, with any replay table; each
-- line that `setconfig` is given and each call that a gremlin decides on lead on.
pub data Reached {Tree : Type 0} (lib : Library Tree) : Controller Tree → Type 0 where
  starts :
      (config_file : Option Bytes) (replay log : Bool) (table : Map ReplayEntry)
      → Reached lib (record ((init lib config_file (new_controller replay log)).1) {
        gremlin_replay_table = table;
      })
  configures :
      (line : Bytes) (c : Controller Tree) → Reached lib c → Reached lib (setconfig lib line c).1
  decides :
      (gname : Bytes) (context : Context) (ad : Option Bytes) (c c' : Controller Tree) (acts : Bool)
      → Reached lib c
      → doevil lib gname context ad c ≡ some (acts, c')
      → Reached lib c'

-- In every state that a process reaches the default configuration is there, every percentage is at most
-- 100, and a gremlin that points to a configuration points to one that is there.
pub Reached-IsSound :
    {Tree : Type 0} (lib : Library Tree) (c : Controller Tree) → Reached lib c → IsSound c
Reached-IsSound lib _ (starts config_file replay log table) =
    let s = init-IsSound lib config_file replay log in
    record { default = s.default; percents = s.percents; pointed = s.pointed }
Reached-IsSound lib _ (configures line c r) = setconfig-IsSound lib line c (Reached-IsSound lib c r)
Reached-IsSound {Tree = Tree} lib _ (decides gname context ad c c' acts r e) =
    let (acts', c'', t, s) = doevil-IsSound lib gname context ad c (Reached-IsSound lib c r) in
    let same : some (acts', c'') ≡ some (acts, c') = sym t ∙ e in
    subst (Holds (λ (x : Bool × Controller Tree). IsSound x.1)) same s

-- In every state that a process reaches from its start, by configuration lines, good or bad, and by
-- decisions, `doevil` makes a decision on every call: it never follows a null pointer to a
-- configuration.
pub doevil_returns :
    {Tree : Type 0} (lib : Library Tree) (c : Controller Tree) (gname : Bytes) (context : Context)
    (ad : Option Bytes)
    → Reached lib c
    → (acts : Bool) × (c' : Controller Tree) × (doevil lib gname context ad c ≡ some (acts, c'))
doevil_returns lib c gname context ad r =
    let (acts, c', t, s) = doevil-IsSound lib gname context ad c (Reached-IsSound lib c r) in
    (acts, c', t)
