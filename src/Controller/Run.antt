-- ===== src/Controller/Run.antt =====
-- A run: the calls of `doevil` of parrot/src/controller.cc that a process makes, in their order.
pub mod Counts
pub mod Recorded
pub mod Replayed
use murphy.Base.{refl, ◌≡◌, Bool, Option, none, some, List, [], ◌∷◌, Bytes}
use murphy.Controller.{Context, Library, Controller}
use murphy.Controller.Evil.{doevil}
use murphy.Controller.Log.{replay_key, ◌>>=◌}

-- The arguments of `doevil`.
pub record Call : Type 0 where
  pub gremlin : Bytes
  pub context : Context
  pub classad : Option Bytes

-- The decisions on calls, and the state that they leave; `none` where one follows a null pointer.
unfoldable pub run :
    {Tree : Type 0}
    → Library Tree
    → List Call
    → Controller Tree
    → Option (List Bool × Controller Tree)
run lib [] c = some ([], c)
run lib (call ∷ calls) c =
    doevil lib call.gremlin call.context call.classad c
    >>= (λ (acts, c'). run lib calls c' >>= (λ (rest, c''). some (acts ∷ rest, c'')))

abbrev pub key_of : Call → Bytes
key_of call = replay_key call.gremlin call.context.childnum

unfoldable pub keyed : List Bytes → List Bool → List (Bytes × Bool)
keyed [] bs = []
keyed (q ∷ qs) [] = []
keyed (q ∷ qs) (b ∷ bs) = (q, b) ∷ keyed qs bs

pub run-step :
    {Tree : Type 0} (lib : Library Tree) (call : Call) (calls : List Call)
    (c c' c'' : Controller Tree) (b : Bool) (bs : List Bool)
    → doevil lib call.gremlin call.context call.classad c ≡ some (b, c')
    → run lib calls c' ≡ some (bs, c'')
    → run lib (call ∷ calls) c ≡ some (b ∷ bs, c'')
unfolding run
run-step lib call calls c c' c'' b bs e f = rw (e, f) refl
