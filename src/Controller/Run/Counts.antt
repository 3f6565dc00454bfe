-- ===== src/Controller/Run/Counts.antt =====
-- How often each gremlin was called, by the keys of the replay.
use murphy.Base.{ℕ, ◌+◌, ◌≡◌, ap, ◌∙◌, some, Bytes, Option, str_eq, if◌then◌else◌}
use murphy.Controller.{Context, Library, Controller, ConfigEntry, GremlinEntry}
use murphy.Controller.Evil.{gremlin_key, decided, find_config, entry_of}
use murphy.Controller.Evil.Effects.{count, decided-count, found-counter}
use murphy.Controller.Evil.Keys.{keys_agree}
use murphy.Controller.Evil.Replay.{bump}
use murphy.Controller.Log.{replay_key}

-- Where each child number has one process, `n` tells how often each gremlin was called.
abbrev pub Counts : {Tree : Type 0} → (ℕ → ℕ) → Controller Tree → (Bytes → ℕ) → Type 0
Counts pid c n =
    (g : Bytes) (child : ℕ)
    → count (c.gremlin_table (gremlin_key g (pid child) child)) ≡ n (replay_key g child)

pub decided-Counts :
    {Tree : Type 0} (lib : Library Tree) (pid : ℕ → ℕ) (gname : Bytes) (context : Context)
    (ad : Option Bytes) (c : Controller Tree) (e : GremlinEntry) (g : ConfigEntry Tree)
    (n : Bytes → ℕ)
    → context.pid ≡ pid context.childnum
    → find_config lib gname (entry_of lib gname context c) c.gremlin_config_table ≡ some (e, g)
    → Counts pid c n
    → Counts pid (decided lib gname context ad c e g).1 (bump n (replay_key gname context.childnum))
decided-Counts lib pid gname context ad c e g n p t h name child =
    let key = gremlin_key name (pid child) child in
    let same : str_eq (gremlin_key gname context.pid context.childnum) key
        ≡ str_eq (replay_key gname context.childnum) (replay_key name child) =
      ap (λ i. str_eq (gremlin_key gname i context.childnum) key) p
      ∙ keys_agree pid gname name context.childnum child in
    decided-count lib gname context ad c e g key t
    ∙ ap (λ b. if b then count (c.gremlin_table key) + 1 else count (c.gremlin_table key)) same
    ∙ ap
        (λ i.
          if str_eq (replay_key gname context.childnum) (replay_key name child) then i + 1 else i)
        (h name child)

pub found-Counts :
    {Tree : Type 0} (lib : Library Tree) (pid : ℕ → ℕ) (gname : Bytes) (context : Context)
    (c : Controller Tree) (e : GremlinEntry) (g : ConfigEntry Tree) (n : Bytes → ℕ)
    → context.pid ≡ pid context.childnum
    → find_config lib gname (entry_of lib gname context c) c.gremlin_config_table ≡ some (e, g)
    → Counts pid c n
    → e.thissys_counter ≡ n (replay_key gname context.childnum)
found-Counts lib pid gname context c e g n p t h =
    found-counter lib gname context c e g t
    ∙ ap (λ i. count (c.gremlin_table (gremlin_key gname i context.childnum))) p
    ∙ h gname context.childnum
