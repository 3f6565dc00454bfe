-- ===== src/Controller/Evil/Chance.antt =====
-- The random decision of `controller::doevil` of parrot/src/controller.cc.
use murphy.Base.{
  ℕ, ◌%◌, ◌≡◌, refl, ap, ◌∙◌, true, false, Option, some, Bytes, ◌&&◌, ltb, ◌==◌, arith, Bool-cases,
  inl, inr,
}
use murphy.Base.Map.{Map}
use murphy.Controller.{Context, Library, ConfigEntry, GremlinEntry, ReplayEntry, Controller}
use murphy.Controller.Evil.{
  find_config, random_decision, doevil, decided, constraint_holds, attributes, entry_of, doevil_lem,
}
use murphy.Controller.Evil.Sound.{Reached, Reached-IsSound, find_config_lem}

draw_below_none : (draw percent : ℕ) → percent == 0 ≡ true → false ≡ ltb draw percent
draw_below_none draw percent t = grind arith

draw_below_all : (number percent : ℕ) → percent == 100 ≡ true → true ≡ ltb (number % 100) percent
draw_below_all number percent t = grind arith

module _ {Tree : Type 0} (lib : Library Tree) where
  -- The number drawn for a call: between 0 and 99.
  abbrev pub drawn : GremlinEntry → ℕ
  drawn e = (lib.rand_r e.seed).0 % 100

  random_decision_lem :
      (g : ConfigEntry Tree) (e : GremlinEntry) (table : Map ReplayEntry)
      → (random_decision lib g e table).acts ≡ ltb (drawn e) g.percent_on
  unfolding random_decision
  random_decision_lem g e table = elim (Bool-cases (g.percent_on == 0)) [
    | inl t ↦ rw t (draw_below_none (drawn e) g.percent_on t)
    | inr t ↦ elim (Bool-cases (g.percent_on == 100)) [
      | inl u ↦ rw (t, u) (draw_below_all (lib.rand_r e.seed).0 g.percent_on u)
      | inr u ↦ rw (t, u) refl
    ]
  ]

  -- No constraint sees the seed, the one field that a random decision changes.
  random-attributes :
      (g : ConfigEntry Tree) (e : GremlinEntry) (table : Map ReplayEntry) (ad : Option Bytes)
      (gname : Bytes) (context : Context)
      → attributes lib ad gname context (random_decision lib g e table).entry
        ≡ attributes lib ad gname context e
  unfolding random_decision
  random-attributes g e table ad gname context = elim (Bool-cases (g.percent_on == 0)) [
    | inl t ↦ rw t refl
    | inr t ↦ elim (Bool-cases (g.percent_on == 100)) [
      | inl u ↦ rw (t, u) refl
      | inr u ↦ rw (t, u) refl
    ]
  ]

  decided-drawn :
      (gname : Bytes) (context : Context) (ad : Option Bytes) (c : Controller Tree)
      (e : GremlinEntry) (g : ConfigEntry Tree)
      → c.gremlin_replay ≡ false
      → (decided lib gname context ad c e g).0
        ≡ (ltb (drawn e) g.percent_on && constraint_holds lib g (attributes lib ad gname context e))
  unfolding decided
  decided-drawn gname context ad c e g t =
      let table = c.gremlin_replay_table in
      rw (t, random_decision_lem g e table, random-attributes g e table ad gname context) refl

-- In every state that a process reaches without a replay, a gremlin acts on a call exactly when the
-- number drawn from its seed, modulo 100, is below the percentage of its configuration and the
-- constraint of that configuration holds.
pub doevil-drawn :
    {Tree : Type 0} (lib : Library Tree) (c : Controller Tree) (gname : Bytes) (context : Context)
    (ad : Option Bytes)
    → Reached lib c
    → c.gremlin_replay ≡ false
    → (e : GremlinEntry) × (g : ConfigEntry Tree) × (c' : Controller Tree) × (find_config lib gname
          (entry_of lib gname context c)
          c.gremlin_config_table
        ≡ some (e, g))
      × (doevil lib gname context ad c
          ≡ some (
            ltb (drawn lib e) g.percent_on
                && constraint_holds lib g (attributes lib ad gname context e),
            c',
          ))
doevil-drawn lib c gname context ad r t =
    let s = Reached-IsSound lib c r in
    let (e, g, found, p, k, u) = find_config_lem lib gname context c s in
    let h = decided-drawn lib gname context ad c e g t in
    (
      e,
      g,
      (decided lib gname context ad c e g).1,
      found,
      doevil_lem lib gname context ad c e g found
          ∙ ap (λ b. some (b, (decided lib gname context ad c e g).1)) h,
    )
