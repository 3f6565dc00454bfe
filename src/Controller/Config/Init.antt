-- ===== src/Controller/Config/Init.antt =====
-- The state that `controller::init` and `controller::read_log` of parrot/src/controller.cc leave.
use mathlib.Core.Path.{subst}
use murphy.Base.{
  [], ◌∷◌, ℕ, false, if_cases, ◌∷◌, zero, suc, sym, arith, length, ◌≡◌, refl, Bool, Option, none,
  some, Bytes,
}
use murphy.Base.Map.{Every, empty_map, put_at-IsThere_self, put_at-Every}
use murphy.Controller.{Library, ConfigEntry, Controller, new_config, new_controller}
use murphy.Controller.Evil.{default_name}
use murphy.Controller.Line.{chomp, trim, atoi, cut_at, scan_digits}
use murphy.Controller.Log.{cut_line}
use murphy.Text.Ends.{drop_while}
use murphy.Controller.Config.{
  fields, configured, process_config_line, made, with_config, init, read_config,
}
use murphy.Controller.Config.Laws.{
  IsPercent, IsSound, read_config-IsSound, new_config-IsPercent, made-IsSound,
}

module _ {Tree : Type 0} (lib : Library Tree) where
  with_default-IsSound :
      (g : ConfigEntry Tree) (replay log : Bool)
      → IsPercent g
      → IsSound
          (with_config lib default_name g (made lib (new_controller {ExprTree = Tree} replay log)))
  unfolding new_controller
  with_default-IsSound g replay log p = record {
    default = put_at-IsThere_self empty_map default_name g;
    percents = put_at-Every IsPercent empty_map default_name (some g) (λ k. tt) p;
    pointed = λ k. tt;
  }

  abbrev started : Bool → Bool → Controller Tree
  started replay log =
      with_config lib default_name (record (new_config 0) { name = default_name; percent_on = 0 })
        (made lib (new_controller replay log))

  init_lem :
      (config_file : Option Bytes) (replay log : Bool)
      → (init lib config_file (new_controller replay log)).1 ≡ elim config_file [
        | none ↦ started replay log
        | some text ↦
            (read_config lib (length text) text (new_config 1) (made lib (started replay log))).1
      ]
  unfolding init new_controller process_config_line new_config trim drop_while chomp fields cut_at
      configured atoi scan_digits
  init_lem none replay log = refl
  init_lem (some text) replay log = refl

  -- A started controller can make decisions, whatever its configuration file holds.
  pub init-IsSound :
      (config_file : Option Bytes) (replay log : Bool)
      → IsSound (init lib config_file (new_controller replay log)).1
  init-IsSound none replay log =
      subst IsSound (sym (init_lem none replay log))
        (with_default-IsSound _ replay log (omega arith))
  init-IsSound (some text) replay log = subst IsSound (sym (init_lem (some text) replay log)) (
      read_config-IsSound lib (length text) text _ _ (new_config-IsPercent lib 1)
        (made-IsSound lib _ (with_default-IsSound _ replay log (omega arith))))

  -- The state in which `init` leaves all but the configurations.
  pub record IsFresh (replay log : Bool) (c : Controller Tree) : Type 0 where
    pub gremlins : (k : Bytes) → c.gremlin_table k ≡ none
    pub replaying : c.gremlin_replay ≡ replay
    pub opened : c.log_is_open ≡ log
    pub not_started : c.log_started ≡ false
    pub empty : c.log ≡ []

  abbrev IsFreshAfter : Bool → Bool → Bool × Controller Tree → Type 0
  IsFreshAfter replay log x = IsFresh replay log x.1

  configured-IsFresh :
      (replay log : Bool) (name : Bytes) (g : ConfigEntry Tree) (c : Controller Tree)
      → IsFresh replay log c
      → IsFresh replay log (made lib (with_config lib name g c))
  configured-IsFresh replay log name g c f = record {
    gremlins = f.gremlins;
    replaying = f.replaying;
    opened = f.opened;
    not_started = f.not_started;
    empty = f.empty;
  }

  read_config-IsFresh :
      (replay log : Bool) (n : ℕ) (text : Bytes) (g : ConfigEntry Tree) (c : Controller Tree)
      → IsFresh replay log c
      → IsFreshAfter replay log (read_config lib n text g c)
  unfolding read_config
  read_config-IsFresh replay log zero text g c f = f
  read_config-IsFresh replay log (suc n) [] g c f = f
  read_config-IsFresh replay log (suc n) (b ∷ t) g c f =
      let (line, rest) = cut_line (b ∷ t) in
      if_cases (IsFreshAfter replay log) (process_config_line lib line g).0 _ _
        (λ h. read_config-IsFresh replay log n rest _ _ (configured-IsFresh replay log _ _ c f))
        (λ h. read_config-IsFresh replay log n rest _ c f)

  pub init-IsFresh :
      (config_file : Option Bytes) (replay log : Bool)
      → IsFresh replay log (init lib config_file (new_controller replay log)).1
  unfolding new_controller
  init-IsFresh none replay log =
      subst (IsFresh replay log) (sym (init_lem none replay log)) (record {
        gremlins = λ k. refl;
        replaying = refl;
        opened = refl;
        not_started = refl;
        empty = refl;
      })
  init-IsFresh (some text) replay log =
      subst (IsFresh replay log) (sym (init_lem (some text) replay log)) (
        read_config-IsFresh replay log (length text) text _ _ (record {
          gremlins = λ k. refl;
          replaying = refl;
          opened = refl;
          not_started = refl;
          empty = refl;
        }))

  -- Without a configuration file no gremlin has a constraint.
  pub init-free :
      (replay log : Bool)
      → Every
          (λ (g : ConfigEntry Tree). g.constraint_tree ≡ none)
          (init lib none (new_controller replay log)).1.gremlin_config_table
  unfolding new_controller new_config
  init-free replay log =
      subst
        (λ (c : Controller Tree).
          Every (λ (g : ConfigEntry Tree). g.constraint_tree ≡ none) c.gremlin_config_table)
        (sym (init_lem none replay log))
        (put_at-Every (λ (g : ConfigEntry Tree). g.constraint_tree ≡ none) empty_map default_name _
          (λ k. tt) refl)
