-- ===== src/Controller/Evil/Effects.antt =====
-- What a decision of `controller::doevil` of parrot/src/controller.cc leaves in the tables and the log.
use murphy.Base.{
  ℕ, ◌+◌, ◌≡◌, refl, sym, ap, ◌∙◌, Bool, true, false, Option, none, some, [], ◌++◌, Bytes, str_eq,
  str_eq_sound, if◌then◌else◌, Bool-cases, inl, inr, if_cases, option_split, append-nil, ◌==◌,
}
use murphy.Base.Map.{Map, Holds, Holds_of_some}
use murphy.Controller.{
  Context, Library, ConfigEntry, GremlinEntry, ReplayEntry, Controller, new_gremlin,
}
use murphy.Controller.Evil.{
  gremlin_key, entry_of, known_gremlin, Decision, find_config, random_decision, replay_decision,
  record_decision, decided, default_name,
}
use murphy.Controller.Evil.Sound.{logged-KeepsTables}
use murphy.Controller.Log.{log_header, log_line, record_of, write_log_entry, replay_key}

-- How often a gremlin was called.
abbrev pub count : Option GremlinEntry → ℕ
count none = 0
count (some e) = e.thissys_counter

count-known :
    (gname : Bytes) (context : Context) (x : Option GremlinEntry)
    → (known_gremlin gname context x).thissys_counter ≡ count x
unfolding new_gremlin
count-known gname context none = refl
count-known gname context (some e) = refl

module _ {Tree : Type 0} (lib : Library Tree) where
  find_config-counter :
      (gname : Bytes) (entry : GremlinEntry) (table : Map (ConfigEntry Tree)) (e : GremlinEntry)
      (g : ConfigEntry Tree)
      → find_config lib gname entry table ≡ some (e, g)
      → e.thissys_counter ≡ entry.thissys_counter
  unfolding find_config
  find_config-counter gname entry table e g t =
      let Same =
        λ (p : GremlinEntry × ConfigEntry Tree). p.0.thissys_counter ≡ entry.thissys_counter in
      let K = λ (x : Option (GremlinEntry × ConfigEntry Tree)). Holds Same x in
      Holds_of_some Same (find_config lib gname entry table) (e, g) t
        (option_split K entry.config _ _
          (λ u.
            option_split K (table gname) _ _
              (λ v. option_split K (table default_name) _ _ (λ w. tt) (λ g' w. refl))
              (λ g' v. refl))
          (λ n u. option_split K (table n) _ _ (λ v. tt) (λ g' v. refl)))

  -- The counter of a gremlin that `doevil` found is how often it was called.
  pub found-counter :
      (gname : Bytes) (context : Context) (c : Controller Tree) (e : GremlinEntry)
      (g : ConfigEntry Tree)
      → find_config lib gname (entry_of lib gname context c) c.gremlin_config_table ≡ some (e, g)
      → e.thissys_counter ≡ count (c.gremlin_table (gremlin_key gname context.pid context.childnum))
  found-counter gname context c e g t =
      find_config-counter gname _ c.gremlin_config_table e g t
      ∙ count-known gname context (c.gremlin_table (gremlin_key gname context.pid context.childnum))

  -- The decision of a call.
  abbrev pub decision :
      Bytes → Context → Controller Tree → GremlinEntry → ConfigEntry Tree → Decision
  decision gname context c e g =
      if c.gremlin_replay
      then replay_decision (replay_key gname context.childnum) e c.gremlin_replay_table
      else random_decision lib g e c.gremlin_replay_table

  random-counter :
      (g : ConfigEntry Tree) (e : GremlinEntry) (table : Map ReplayEntry)
      → (random_decision lib g e table).entry.thissys_counter ≡ e.thissys_counter
  unfolding random_decision
  random-counter g e table = elim (Bool-cases (g.percent_on == 0)) [
    | inl t ↦ rw t refl
    | inr t ↦ elim (Bool-cases (g.percent_on == 100)) [
      | inl u ↦ rw (t, u) refl
      | inr u ↦ rw (t, u) refl
    ]
  ]

  replay-counter :
      (key : Bytes) (e : GremlinEntry) (table : Map ReplayEntry)
      → (replay_decision key e table).entry.thissys_counter ≡ e.thissys_counter
  unfolding replay_decision
  replay-counter key e table =
      let K = λ (d : Decision). d.entry.thissys_counter ≡ e.thissys_counter in
      option_split K (table key) _ _ (λ t. refl) (λ r t. if_cases K _ _ _ (λ u. refl) (λ u. refl))

  pub decision-counter :
      (gname : Bytes) (context : Context) (c : Controller Tree) (e : GremlinEntry)
      (g : ConfigEntry Tree)
      → (decision gname context c e g).entry.thissys_counter ≡ e.thissys_counter
  decision-counter gname context c e g =
      if_cases (λ (d : Decision). d.entry.thissys_counter ≡ e.thissys_counter) c.gremlin_replay _ _
        (λ t. replay-counter (replay_key gname context.childnum) e c.gremlin_replay_table)
        (λ t. random-counter g e c.gremlin_replay_table)

  record_decision-count :
      (gname : Bytes) (context : Context) (acts : Bool) (e : GremlinEntry) (c : Controller Tree)
      (k : Bytes)
      → count ((record_decision lib gname context acts e c).gremlin_table k) ≡ (
          if str_eq (gremlin_key gname context.pid context.childnum) k
          then e.thissys_counter + 1
          else count (c.gremlin_table k))
  unfolding record_decision
  record_decision-count gname context acts e c k =
      elim (Bool-cases (str_eq (gremlin_key gname context.pid context.childnum) k)) [
        | inl t ↦ rw t refl
        | inr t ↦ rw t (
            ap (λ (m : Map GremlinEntry). count (m k))
              (sym (logged-KeepsTables lib gname context acts e c).gremlins))
      ]

  -- Every call is counted for its gremlin, and for no other.
  pub decided-count :
      (gname : Bytes) (context : Context) (ad : Option Bytes) (c : Controller Tree)
      (e : GremlinEntry) (g : ConfigEntry Tree) (k : Bytes)
      → find_config lib gname (entry_of lib gname context c) c.gremlin_config_table ≡ some (e, g)
      → count ((decided lib gname context ad c e g).1.gremlin_table k) ≡ (
          if str_eq (gremlin_key gname context.pid context.childnum) k
          then count (c.gremlin_table k) + 1
          else count (c.gremlin_table k))
  unfolding decided
  decided-count gname context ad c e g k t =
      let key = gremlin_key gname context.pid context.childnum in
      let recorded =
        record_decision-count gname context _ (decision gname context c e g).entry
          (record c { gremlin_replay_table = (decision gname context c e g).replay_table }) k in
      let n = decision-counter gname context c e g ∙ found-counter gname context c e g t in
      recorded ∙ elim (Bool-cases (str_eq key k)) [
        | inl u ↦
            rw u (ap (λ i. i + 1) (n ∙ ap (λ q. count (c.gremlin_table q)) (str_eq_sound key k u)))
        | inr u ↦ rw u refl
      ]

  -- The bytes that a call adds to the log.
  abbrev pub logged_bytes : Bytes → Context → GremlinEntry → Bool → Bool → Bytes
  logged_bytes gname context entry started acts =
      if acts
      then (if started then [] else log_header)
        ++ log_line (record_of gname context entry) context.ioctl_meta
      else []

  pub record LogsTo (c c' : Controller Tree) (bytes : Bytes) (acts : Bool) : Type 0 where
    pub log : c'.log ≡ c.log ++ bytes
    pub started : c'.log_started ≡ (if acts then true else c.log_started)
    pub opened : c'.log_is_open ≡ true

  record_decision-LogsTo :
      (gname : Bytes) (context : Context) (acts : Bool) (e : GremlinEntry) (c : Controller Tree)
      → c.log_is_open ≡ true
      → LogsTo c
          (record_decision lib gname context acts e c)
          (logged_bytes gname context e c.log_started acts)
          acts
  unfolding record_decision write_log_entry
  record_decision-LogsTo gname context true e c t = record {
    log = rw t refl;
    started = rw t refl;
    opened = rw t refl;
  }
  record_decision-LogsTo gname context false e c t = record {
    log = sym (append-nil c.log);
    started = refl;
    opened = t;
  }

  -- A gremlin that acts is logged, and no other.
  pub decided-LogsTo :
      (gname : Bytes) (context : Context) (ad : Option Bytes) (c : Controller Tree)
      (e : GremlinEntry) (g : ConfigEntry Tree)
      → c.log_is_open ≡ true
      → LogsTo c
          (decided lib gname context ad c e g).1
          (logged_bytes gname context
            (decision gname context c e g).entry
            c.log_started
            (decided lib gname context ad c e g).0)
          (decided lib gname context ad c e g).0
  unfolding decided
  decided-LogsTo gname context ad c e g t =
      let l =
        record_decision-LogsTo gname context _ (decision gname context c e g).entry
          (record c { gremlin_replay_table = (decision gname context c e g).replay_table }) t in
      record { log = l.log; started = l.started; opened = l.opened }
