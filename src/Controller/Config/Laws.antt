-- ===== src/Controller/Config/Laws.antt =====
-- What lines do to the configuration of parrot/src/controller.cc.
use murphy.Base.{
  ◌≡◌, refl, arith, ℕ, zero, suc, ◌≤◌, Bool, true, false, Option, none, some, [], ◌∷◌, Bytes, arith,
  if_cases, option_cases, sym, ap, ◌∙◌, str_eq, str_eq_sound, Bool-cases, inl, inr,
}
use murphy.Base.Int.{ℤ, pos, negsuc}
use murphy.Base.Map.{
  Map, put_at, Holds, Every, put_at-Every, Holds_of_some, IsThere, put_at-IsThere,
}
use murphy.Controller.{GremlinEntry, Library, ConfigEntry, Controller, new_config}
use murphy.Controller.Evil.{default_name}
use murphy.Controller.Line.{chomp, trim, atoi}
use murphy.Controller.Log.{cut_line, is_comment}
use murphy.Controller.Config.{
  fields, chosen_percent, configured, process_config_line, made, with_config, setconfig,
  read_config,
}

abbrev pub Known : {Tree : Type 0} → Map (ConfigEntry Tree) → Option Bytes → Type 0
Known table none = Unit
Known table (some n) = IsThere table n

-- A percentage.
abbrev pub IsPercent : {Tree : Type 0} → ConfigEntry Tree → Type 0
IsPercent g = g.percent_on ≤ 100

chosen_percent_lem : (z : ℤ) (old : ℕ) → old ≤ 100 → chosen_percent z old ≤ 100
chosen_percent_lem (pos n) old h = ground arith
chosen_percent_lem (negsuc n) old h = h

module _ {Tree : Type 0} (lib : Library Tree) where
  configured-IsPercent :
      (name percent : Bytes) (seed : Option Bytes) (constraint : Option (Bytes × Tree))
      (g : ConfigEntry Tree)
      → IsPercent g
      → IsPercent (configured lib name percent seed constraint g)
  unfolding configured
  configured-IsPercent name percent seed none g h = chosen_percent_lem (atoi percent) g.percent_on h
  configured-IsPercent name percent seed (some c) g h =
      chosen_percent_lem (atoi percent) g.percent_on h

  abbrev IsPercentAfter : Bool × ConfigEntry Tree → Type 0
  IsPercentAfter x = IsPercent x.1

  process-IsPercent :
      (line : Bytes) (g : ConfigEntry Tree)
      → IsPercent g
      → IsPercentAfter (process_config_line lib line g)
  unfolding process_config_line
  process-IsPercent line g h =
      let f = fields (trim (chomp line)) in
      if_cases IsPercentAfter (is_comment (trim (chomp line))) _ _ (λ t. h)
        (λ t. option_cases IsPercentAfter f.name _ _ h (λ name e.
          option_cases IsPercentAfter f.percent _ _ h (λ percent e'.
            option_cases IsPercentAfter f.constraint _ _
              (configured-IsPercent name percent f.seed none g h)
              (λ text e3.
                option_cases IsPercentAfter (lib.parse_expression text) _ _ h
                  (λ tree e4. configured-IsPercent name percent f.seed (some (text, tree)) g h)))))

  abbrev KeepsEntry : ConfigEntry Tree → Bool × ConfigEntry Tree → Type 0
  KeepsEntry g x = x.0 ≡ false → x.1 ≡ g

  clash : {B : Type 0} → true ≡ false → B
  clash h = absurd (cc)

  -- A line that is refused leaves its entry as it was.
  process_refused :
      (line : Bytes) (g : ConfigEntry Tree) → KeepsEntry g (process_config_line lib line g)
  unfolding process_config_line
  process_refused line g =
      let f = fields (trim (chomp line)) in
      if_cases (KeepsEntry g) (is_comment (trim (chomp line))) _ _ (λ t h. refl)
        (λ t.
          option_cases (KeepsEntry g) f.name _ _ (λ h. refl)
            (λ name e.
              option_cases (KeepsEntry g) f.percent _ _ (λ h. refl)
                (λ percent e'.
                  option_cases (KeepsEntry g) f.constraint _ _ (λ h. clash h)
                    (λ text e3.
                      option_cases (KeepsEntry g) (lib.parse_expression text) _ _ (λ h. refl)
                        (λ tree e4 h. clash h)))))

  pub new_config-IsPercent : (n : ℕ) → IsPercent (new_config {ExprTree = Tree} n)
  unfolding new_config
  new_config-IsPercent n = omega arith

-- The configuration that a gremlin's entry points to, if it has one, is there.
abbrev pub PointsTo : {Tree : Type 0} → Map (ConfigEntry Tree) → GremlinEntry → Type 0
PointsTo table e = Known table e.config

-- What `doevil` needs: a default configuration, percentages, and no pointer that dangles.
pub record IsSound {Tree : Type 0} (c : Controller Tree) : Type 0 where
  pub default : IsThere c.gremlin_config_table default_name
  pub percents : Every IsPercent c.gremlin_config_table
  pub pointed : Every (PointsTo c.gremlin_config_table) c.gremlin_table

Known-put :
    {Tree : Type 0} (table : Map (ConfigEntry Tree)) (k : Bytes) (g : ConfigEntry Tree)
    (x : Option Bytes)
    → Known table x
    → Known (put_at table k (some g)) x
Known-put table k g none h = tt
Known-put table k g (some n) h = put_at-IsThere table k g n h

Holds-map :
    {A : Type 0} (P Q : A → Type 0) (x : Option A) → ((a : A) → P a → Q a) → Holds P x → Holds Q x
Holds-map P Q none f h = tt
Holds-map P Q (some a) f h = f a h

module _ {Tree : Type 0} (lib : Library Tree) where
  pub with_config-IsSound :
      (name : Bytes) (g : ConfigEntry Tree) (c : Controller Tree)
      → IsPercent g
      → IsSound c
      → IsSound (with_config lib name g c)
  with_config-IsSound name g c p s = record {
    default = put_at-IsThere c.gremlin_config_table name g default_name s.default;
    percents = put_at-Every IsPercent c.gremlin_config_table name (some g) s.percents p;
    pointed = λ k.
        Holds-map (PointsTo c.gremlin_config_table) _ (c.gremlin_table k)
          (λ e h. Known-put c.gremlin_config_table name g e.config h) (s.pointed k);
  }

  pub made-IsSound : (c : Controller Tree) → IsSound c → IsSound (made lib c)
  made-IsSound c s = record { default = s.default; percents = s.percents; pointed = s.pointed }

  abbrev IsSoundAfter : Bool × Controller Tree → Type 0
  IsSoundAfter x = IsSound x.1

  -- Any line leaves a configuration that `doevil` can work with.
  pub setconfig-IsSound :
      (line : Bytes) (c : Controller Tree) → IsSound c → IsSound (setconfig lib line c).1
  unfolding setconfig
  setconfig-IsSound line c s =
      let text = trim (chomp line) in
      if_cases IsSoundAfter (is_comment text) _ _ (λ t. s)
        (λ t. option_cases IsSoundAfter (fields text).name _ _ s (λ name e.
          option_cases IsSoundAfter (c.gremlin_config_table name) _ _
            (if_cases IsSoundAfter (process_config_line lib text (new_config c.num_entries)).0 _ _
              (λ t'.
                with_config-IsSound _ _ (made lib c)
                  (process-IsPercent lib text _ (new_config-IsPercent lib c.num_entries))
                  (made-IsSound c s))
              (λ t'. made-IsSound c s))
            (λ g e'.
              with_config-IsSound name _ c
                (process-IsPercent lib text g (Holds_of_some IsPercent _ g e' (s.percents name)))
                s)))

  pub read_config-IsSound :
      (n : ℕ) (text : Bytes) (g : ConfigEntry Tree) (c : Controller Tree)
      → IsPercent g
      → IsSound c
      → IsSoundAfter (read_config lib n text g c)
  unfolding read_config
  read_config-IsSound zero text g c p s = s
  read_config-IsSound (suc n) [] g c p s = s
  read_config-IsSound (suc n) (b ∷ t) g c p s =
      let (line, rest) = cut_line (b ∷ t) in
      let q = process-IsPercent lib line g p in
      if_cases IsSoundAfter (process_config_line lib line g).0 _ _
        (λ h.
          read_config-IsSound n rest _ _ (new_config-IsPercent lib c.num_entries)
            (made-IsSound _ (with_config-IsSound _ _ c q s)))
        (λ h. read_config-IsSound n rest _ c q s)

  -- The configurations, name by name.
  abbrev KeepsConfigs : Controller Tree → Bool × Controller Tree → Type 0
  KeepsConfigs c x =
      x.0 ≡ false → (k : Bytes) → x.1.gremlin_config_table k ≡ c.gremlin_config_table k

  -- An entry written again as it was.
  same_config :
      (name : Bytes) (g g' : ConfigEntry Tree) (c : Controller Tree) (k : Bytes)
      → c.gremlin_config_table name ≡ some g
      → g' ≡ g
      → (with_config lib name g' c).gremlin_config_table k ≡ c.gremlin_config_table k
  same_config name g g' c k e h = elim (Bool-cases (str_eq name k)) [
    | inl t ↦ rw t (ap some h ∙ sym e ∙ ap c.gremlin_config_table (str_eq_sound name k t))
    | inr t ↦ rw t refl
  ]

  setconfig_kept : (line : Bytes) (c : Controller Tree) → KeepsConfigs c (setconfig lib line c)
  unfolding setconfig
  setconfig_kept line c =
      let text = trim (chomp line) in
      if_cases (KeepsConfigs c) (is_comment text) _ _ (λ t f k. refl)
        (λ t.
          option_cases (KeepsConfigs c) (fields text).name _ _ (λ f k. refl)
            (λ name e.
              option_cases (KeepsConfigs c) (c.gremlin_config_table name) _ _
                (if_cases (KeepsConfigs c)
                  (process_config_line lib text (new_config c.num_entries)).0 _ _
                  (λ t' f. clash lib f) (λ t' f k. refl))
                (λ g e' f k. same_config name g _ c k e' (process_refused lib text g f))))

  -- A line that `setconfig` refuses, wherever its fault is, leaves the configuration under every name as
  -- it was, although the entry that is found for a line is written to where it stands.
  pub setconfig_refused :
      (line : Bytes) (c : Controller Tree) (k : Bytes)
      → (setconfig lib line c).0 ≡ false
      → (setconfig lib line c).1.gremlin_config_table k ≡ c.gremlin_config_table k
  setconfig_refused line c k h = setconfig_kept line c h k
