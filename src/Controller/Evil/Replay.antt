-- ===== src/Controller/Evil/Replay.antt =====
-- The replay decision of `controller::doevil` of parrot/src/controller.cc, against the calls that a log
-- names.
use mathlib.Core.Path.{subst}
use mathlib.Core.Logic.{◌≢◌}
use murphy.Base.{
  ℕ, zero, suc, ◌+◌, ◌≤◌, ◌<◌, ◌≡◌, refl, sym, ap, ◌∙◌, Bool, true, false, Option, none, some, List,
  [], ◌∷◌, Bytes, ◌&&◌, str_eq, str_eq_refl, str_eq_sound, length, drop, get_or, ◌==◌,
  if◌then◌else◌, arith, Bool-cases, Option-cases, inl, inr, All,
}
use murphy.Base.Map.{Map, put_at}
use murphy.Controller.{GremlinEntry, ReplayEntry}
use murphy.Controller.Evil.{Decision, replay_decision}

-- The counter of every key, with one call more at one of them.
abbrev pub bump : (Bytes → ℕ) → Bytes → Bytes → ℕ
bump n q k = if str_eq q k then n k + 1 else n k

-- The calls of a run with their keys and decisions: the counters at which a key's gremlin acts, from
-- given counters on.
unfoldable pub indexes : List (Bytes × Bool) → (Bytes → ℕ) → Bytes → List ℕ
indexes [] n k = []
indexes ((q, b) ∷ rest) n k =
    let later = indexes rest (bump n q) k in if str_eq q k && b then n k ∷ later else later

-- What a replay table still has for a key.
abbrev pub remaining : Option ReplayEntry → List ℕ
remaining none = []
remaining (some r) = drop r.current_entry r.invoked_index

-- An entry of the table always has a next index.
abbrev pub IsLive : Option ReplayEntry → Type 0
IsLive none = Unit
IsLive (some r) = r.current_entry < length r.invoked_index

pub record Follows (table : Map ReplayEntry) (calls : List (Bytes × Bool)) (n : Bytes → ℕ)
    : Type 0 where
  pub live : (k : Bytes) → IsLive (table k)
  pub left : (k : Bytes) → remaining (table k) ≡ indexes calls n k

bump-skips : (n : Bytes → ℕ) (q k : Bytes) → n k ≤ bump n q k
bump-skips n q k = elim (Bool-cases (str_eq q k)) [
  | inl t ↦ rw t (omega arith)
  | inr t ↦ rw t (omega arith)
]

All-le : (l : List ℕ) (x y : ℕ) → y ≤ x → All (λ i. x ≤ i) l → All (λ i. y ≤ i) l
All-le [] x y h a = tt
All-le (z ∷ l) x y h (p, a) = (omega arith, All-le l x y h a)

-- Later calls have later indexes.
indexes-later :
    (calls : List (Bytes × Bool)) (n : Bytes → ℕ) (k : Bytes)
    → All (λ i. n k ≤ i) (indexes calls n k)
unfolding indexes
indexes-later [] n k = tt
indexes-later ((q, b) ∷ rest) n k =
    let later =
      All-le (indexes rest (bump n q) k) (bump n q k) (n k) (bump-skips n q k)
        (indexes-later rest (bump n q) k) in
    elim (Bool-cases (str_eq q k && b)) [ inl t ↦ rw t (omega arith, later) | inr t ↦ rw t later ]

pub indexes-skip :
    (q : Bytes) (b : Bool) (rest : List (Bytes × Bool)) (n : Bytes → ℕ) (k : Bytes)
    → str_eq q k && b ≡ false
    → indexes ((q, b) ∷ rest) n k ≡ indexes rest (bump n q) k
unfolding indexes
indexes-skip q b rest n k t = rw t refl

pub indexes-take :
    (q : Bytes) (rest : List (Bytes × Bool)) (n : Bytes → ℕ) (k : Bytes)
    → str_eq q k ≡ true
    → indexes ((q, true) ∷ rest) n k ≡ n k ∷ indexes rest (bump n q) k
unfolding indexes
indexes-take q rest n k t = rw t refl

drop-next : (l : List ℕ) (i : ℕ) → i < length l → drop i l ≡ get_or l i 0 ∷ drop (i + 1) l
drop-next [] i h = absurd (omega arith)
drop-next (y ∷ l) zero h = refl
drop-next (y ∷ l) (suc i) h =
    let e : suc i + 1 ≡ suc (i + 1) = omega arith in rw e (drop-next l i (omega arith))

drop-all : (l : List ℕ) → drop (length l) l ≡ []
drop-all [] = refl
drop-all (x ∷ l) = drop-all l

-- The entry after its next index was used.
abbrev advanced : ReplayEntry → Option ReplayEntry
advanced r =
    if r.current_entry + 1 == length r.invoked_index
    then none
    else some (record r { current_entry = r.current_entry + 1 })

advanced-IsLive : (r : ReplayEntry) → r.current_entry < length r.invoked_index → IsLive (advanced r)
advanced-IsLive r h = elim (Bool-cases (r.current_entry + 1 == length r.invoked_index)) [
  | inl t ↦ rw t tt
  | inr t ↦ rw t (grind arith)
]

remaining-advanced :
    (r : ReplayEntry) → remaining (advanced r) ≡ drop (r.current_entry + 1) r.invoked_index
remaining-advanced r = elim (Bool-cases (r.current_entry + 1 == length r.invoked_index)) [
  | inl t ↦
      let e : r.current_entry + 1 ≡ length r.invoked_index = grind arith in
      rw t (sym (ap (λ i. drop i r.invoked_index) e ∙ drop-all r.invoked_index))
  | inr t ↦ rw t refl
]

pub and-false : (b : Bool) → (b && false) ≡ false
and-false true = refl
and-false false = refl

module _ (q : Bytes) (rest : List (Bytes × Bool)) (n : Bytes → ℕ) (entry : GremlinEntry)
    (table : Map ReplayEntry) where
  -- A replay decides as the calls say.
  abbrev Decides : Bool → Decision → Type 0
  Decides b d = (d.acts ≡ b) × Follows d.replay_table rest (bump n q)

  skips-Follows : Follows table ((q, false) ∷ rest) n → Follows table rest (bump n q)
  skips-Follows f = record {
    live = f.live;
    left = λ k. f.left k ∙ indexes-skip q false rest n k (and-false (str_eq q k));
  }

  acts-Follows :
      (r : ReplayEntry)
      → table q ≡ some r
      → Follows table ((q, true) ∷ rest) n
      → drop (r.current_entry + 1) r.invoked_index ≡ indexes rest (bump n q) q
      → r.current_entry < length r.invoked_index
      → Follows (put_at table q (advanced r)) rest (bump n q)
  acts-Follows r t f e l = record {
    live = λ k. elim (Bool-cases (str_eq q k)) [
      | inl u ↦ rw u (advanced-IsLive r l)
      | inr u ↦ rw u (f.live k)
    ];
    left = λ k. elim (Bool-cases (str_eq q k)) [
      | inl u ↦ rw u (remaining-advanced r ∙ e ∙ ap (indexes rest (bump n q)) (str_eq_sound q k u))
      | inr u ↦ rw u (f.left k ∙ indexes-skip q true rest n k (rw u refl))
    ];
  }

  replay-acts :
      (r : ReplayEntry)
      → table q ≡ some r
      → entry.thissys_counter ≡ get_or r.invoked_index r.current_entry 0
      → replay_decision q entry table
        ≡ record { acts = true; entry = entry; replay_table = put_at table q (advanced r) }
  unfolding replay_decision
  replay-acts r t e =
      let u : (entry.thissys_counter == get_or r.invoked_index r.current_entry 0) ≡ true =
        grind arith in
      rw (t, u, replay_decision) refl

  replay-rests :
      (r : ReplayEntry)
      → table q ≡ some r
      → entry.thissys_counter ≢ get_or r.invoked_index r.current_entry 0
      → replay_decision q entry table ≡ record { acts = false; entry = entry; replay_table = table }
  unfolding replay_decision
  replay-rests r t e =
      let u : (entry.thissys_counter == get_or r.invoked_index r.current_entry 0) ≡ false =
        grind arith in
      rw (t, u, replay_decision) refl

  -- What is left for the key of this call, when its entry is `r`.
  left-found :
      (r : ReplayEntry) (b : Bool)
      → table q ≡ some r
      → Follows table ((q, b) ∷ rest) n
      → get_or r.invoked_index r.current_entry 0 ∷ drop (r.current_entry + 1) r.invoked_index
        ≡ indexes ((q, b) ∷ rest) n q
  left-found r b t f =
      sym (drop-next r.invoked_index r.current_entry (subst IsLive t (f.live q)))
      ∙ ap remaining (sym t)
      ∙ f.left q

  -- A call at which the log's gremlin rested has no index in what is left.
  rests-apart :
      (r : ReplayEntry)
      → table q ≡ some r
      → Follows table ((q, false) ∷ rest) n
      → n q < get_or r.invoked_index r.current_entry 0
  rests-apart r t f =
      let e = left-found r false t f ∙ indexes-skip q false rest n q (and-false (str_eq q q)) in
      let later = subst (All (λ i. bump n q q ≤ i)) (sym e) (indexes-later rest (bump n q) q) in
      let b : bump n q q ≡ n q + 1 = rw (str_eq_refl q) refl in omega (arith, later.0, b)

  pub replay_decision-Decides :
      (b : Bool)
      → Follows table ((q, b) ∷ rest) n
      → entry.thissys_counter ≡ n q
      → Decides b (replay_decision q entry table)
  unfolding replay_decision
  replay_decision-Decides true f c = elim (Option-cases (table q)) [
    | inl t ↦
        let e : [] ≡ n q ∷ indexes rest (bump n q) q =
          ap remaining (sym t) ∙ f.left q ∙ indexes-take q rest n q (str_eq_refl q) in
        absurd (omega (arith, ap length e))
    | inr (r, t) ↦
        let e = left-found r true t f ∙ indexes-take q rest n q (str_eq_refl q) in
        subst (Decides true) (sym (replay-acts r t (c ∙ sym (ap (λ l. get_or l 0 0) e))))
          (refl, acts-Follows r t f (ap (drop 1) e) (subst IsLive t (f.live q)))
  ]
  replay_decision-Decides false f c = elim (Option-cases (table q)) [
    | inl t ↦ rw (t, replay_decision) (refl, skips-Follows f)
    | inr (r, t) ↦
        let l = rests-apart r t f in
        subst (Decides false) (sym (replay-rests r t (λ e. absurd (omega (arith, l, e, c)))))
          (refl, skips-Follows f)
  ]
