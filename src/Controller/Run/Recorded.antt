-- ===== src/Controller/Run/Recorded.antt =====
-- What a run leaves in the log of parrot/src/controller.cc.
use murphy.Base.{
  length, suc, ℕ, ◌≡◌, ◌≢◌, refl, sym, ap, ◌∙◌, Bool, true, false, some, List, [], ◌∷◌, ◌++◌, Bytes,
  All, str_eq, str_eq_sound, append_assoc, append-nil, if◌then◌else◌, map, Bool-cases, inl, inr,
}
use murphy.Controller.{Context, Library, Controller, GremlinEntry}
use murphy.Controller.Config.Laws.{IsSound}
use murphy.Controller.Evil.{decided, doevil_lem}
use murphy.Controller.Evil.Effects.{
  decision, decision-counter, logged_bytes, LogsTo, decided-LogsTo,
}
use murphy.Controller.Evil.Replay.{bump, indexes, indexes-skip, indexes-take, and-false}
use murphy.Controller.Evil.Sound.{find_config_lem, decided-IsSound}
use murphy.Controller.Log.{replay_key, Record, record_of, log_line, log_header}
use murphy.Controller.Log.Lines.{Line, IsReadable, text}
use murphy.Controller.Log.RoundTrip.{IsName}
use murphy.Controller.Log.Sums.{invoked}
use murphy.Controller.Run.{Call, run, run-step, key_of, keyed}
use murphy.Controller.Run.Counts.{Counts, decided-Counts, found-Counts}

-- A call whose line can be read back, in the process of its child number.
pub record IsLogged (pid : ℕ → ℕ) (call : Call) : Type 0 where
  pub name : IsName call.gremlin
  pub meta : All (λ c. c ≢ b'\n') call.context.ioctl_meta
  pub process : call.context.pid ≡ pid call.context.childnum

-- What a run writes: its lines, and the counters that they have for every key.
pub record Writes {Tree : Type 0} (lib : Library Tree) (calls : List Call) (c : Controller Tree)
    (n : Bytes → ℕ) : Type 0 where
  pub acts : List Bool
  pub end : Controller Tree
  pub lines : List Line
  pub runs : run lib calls c ≡ some (acts, end)
  pub log : end.log ≡ c.log ++ text c.log_started lines
  pub size : length acts ≡ length calls
  pub readable : All IsReadable lines
  pub counters : (k : Bytes) → invoked lines k ≡ indexes (keyed (map key_of calls) acts) n k

abbrev with_line : Bool → Line → List Line → List Line
with_line true l ls = l ∷ ls
with_line false l ls = ls

with_line-log :
    {Tree : Type 0} (lib : Library Tree) (c c' : Controller Tree) (acts : Bool) (gname : Bytes)
    (context : Context) (e : GremlinEntry) (ls : List Line)
    → LogsTo lib c c' (logged_bytes lib gname context e c.log_started acts) acts
    → c'.log ++ text c'.log_started ls
      ≡ c.log
        ++ text c.log_started (with_line acts (record_of gname context e, context.ioctl_meta) ls)
with_line-log lib c c' true gname context e ls l =
    let header = if c.log_started then [] else log_header in
    let line = log_line (record_of gname context e) context.ioctl_meta in
    ap (λ x. x ++ text c'.log_started ls) l.log
    ∙ ap (λ b. (c.log ++ (header ++ line)) ++ text b ls) l.started
    ∙ append_assoc c.log (header ++ line) (text true ls)
    ∙ ap (λ x. c.log ++ x) (append_assoc header line (text true ls))
with_line-log lib c c' false gname context e ls l =
    ap (λ x. x ++ text c'.log_started ls) (l.log ∙ append-nil c.log)
    ∙ ap (λ b. c.log ++ text b ls) l.started

with_line-counters :
    (acts : Bool) (r : Record) (meta : Bytes) (ls : List Line) (rest : List (Bytes × Bool))
    (n : Bytes → ℕ) (q : Bytes)
    → replay_key r.gremlin r.child_num ≡ q
    → r.invoked_count ≡ n q
    → ((k : Bytes) → invoked ls k ≡ indexes rest (bump n q) k)
    → (k : Bytes) → invoked (with_line acts (r, meta) ls) k ≡ indexes ((q, acts) ∷ rest) n k
unfolding invoked
with_line-counters true r meta ls rest n q e f h k = elim (Bool-cases (str_eq q k)) [
  | inl t ↦
      rw (e, t)
        (ap (λ i. i ∷ invoked ls k) (f ∙ ap n (str_eq_sound q k t))
          ∙ ap (λ l. n k ∷ l) (h k)
          ∙ sym (indexes-take q rest n k t))
  | inr t ↦ rw (e, t) (h k ∙ sym (indexes-skip q true rest n k (rw t refl)))
]
with_line-counters false r meta ls rest n q e f h k =
    h k ∙ sym (indexes-skip q false rest n k (and-false (str_eq q k)))

with_line-IsReadable :
    (acts : Bool) (l : Line) (ls : List Line)
    → IsReadable l
    → All IsReadable ls
    → All IsReadable (with_line acts l ls)
with_line-IsReadable true l ls h k = (h, k)
with_line-IsReadable false l ls h k = k

module _ {Tree : Type 0} (lib : Library Tree) (pid : ℕ → ℕ) where
  -- A run with its log open writes a line for every decision to act.
  pub run-Writes :
      (calls : List Call) (c : Controller Tree) (n : Bytes → ℕ)
      → IsSound c
      → c.log_is_open ≡ true
      → Counts pid c n
      → All (IsLogged pid) calls
      → Writes lib calls c n
  unfolding run keyed invoked indexes
  run-Writes [] c n s t h k = record {
    acts = [];
    end = c;
    lines = [];
    runs = refl;
    log = sym (append-nil c.log);
    size = refl;
    readable = tt;
    counters = λ q. refl;
  }
  run-Writes (call ∷ calls) c n s t h (k, ks) =
      let (e, g, found, p, q, u) = find_config_lem lib call.gremlin call.context c s in
      let after = decided lib call.gremlin call.context call.classad c e g in
      let d = decision lib call.gremlin call.context c e g in
      let l = decided-LogsTo lib call.gremlin call.context call.classad c e g t in
      let w =
        run-Writes calls after.1 (bump n (key_of call))
          (decided-IsSound lib call.gremlin call.context call.classad c e g p s) l.opened
          (decided-Counts lib pid call.gremlin call.context call.classad c e g n k.process found h)
          ks in
      let line : Line = (record_of call.gremlin call.context d.entry, call.context.ioctl_meta) in
      record {
        acts = after.0 ∷ w.acts;
        end = w.end;
        lines = with_line after.0 line w.lines;
        runs =
            run-step lib call calls c after.1 w.end after.0 w.acts
              (doevil_lem lib call.gremlin call.context call.classad c e g found) w.runs;
        log =
            w.log ∙ with_line-log lib c after.1 after.0 call.gremlin call.context d.entry w.lines l;
        size = ap suc w.size;
        readable = with_line-IsReadable after.0 line w.lines (k.name, k.meta) w.readable;
        counters =
            with_line-counters after.0 line.0 line.1 w.lines (keyed (map key_of calls) w.acts) n
              (key_of call) refl
              (decision-counter lib call.gremlin call.context c e g
                ∙ found-Counts lib pid call.gremlin call.context c e g n k.process found h)
              w.counters;
      }
