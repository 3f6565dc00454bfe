-- ===== src/Controller/Log/Sums.antt =====
-- The table that `controller::read_log` of parrot/src/controller.cc makes of a log.
use murphy.Base.{
  ℕ, ◌<◌, ◌≡◌, refl, sym, ap, ◌∙◌, false, Option, none, some, List, [], ◌∷◌, ◌++◌, Bytes, str_eq,
  str_eq_sound, length, length-append, drop, append_assoc, append-nil, arith, if◌then◌else◌,
  Bool-cases, inl, inr, All,
}
use murphy.Base.Map.{Map, empty_map, Every, Holds, put_at-Every}
use murphy.Controller.{ReplayEntry, new_replay}
use murphy.Controller.Log.{Record, replay_key, known_replay, add_record, read_lines}
use murphy.Controller.Log.Lines.{Line, IsReadable, text, table_of, read_lines-text}
use murphy.Controller.Evil.Replay.{remaining, IsLive}

-- The counters that a key has among lines.
unfoldable pub invoked : List Line → Bytes → List ℕ
invoked [] k = []
invoked ((r, meta) ∷ rs) k =
    let later = invoked rs k in
    if str_eq (replay_key r.gremlin r.child_num) k then r.invoked_count ∷ later else later

abbrev pub recorded : Option ReplayEntry → List ℕ
recorded none = []
recorded (some r) = r.invoked_index

-- An entry of which nothing was replayed yet.
abbrev pub IsWhole : ReplayEntry → Type 0
IsWhole r = (r.current_entry ≡ 0) × (0 < length r.invoked_index)

added-IsWhole :
    (x : Option ReplayEntry) (i j : ℕ)
    → Holds IsWhole x
    → IsWhole (record (known_replay x) {
      invoked_index = (known_replay x).invoked_index ++ i ∷ [];
      syscall_index = (known_replay x).syscall_index ++ j ∷ [];
    })
unfolding new_replay
added-IsWhole none i j h = (refl, omega arith)
added-IsWhole (some r) i j h = (h.0, omega (arith, length-append r.invoked_index (i ∷ [])))

add_record-IsWhole :
    (r : Record) (table : Map ReplayEntry)
    → Every IsWhole table
    → Every IsWhole (add_record r table)
unfolding add_record
add_record-IsWhole r table h =
    let key = replay_key r.gremlin r.child_num in
    put_at-Every IsWhole table key _ h
      (added-IsWhole (table key) r.invoked_count r.syscall_count (h key))

recorded-known : (x : Option ReplayEntry) → (known_replay x).invoked_index ≡ recorded x
unfolding new_replay
recorded-known none = refl
recorded-known (some r) = refl

abbrev one_more : Record → Bytes → List ℕ
one_more r k = if str_eq (replay_key r.gremlin r.child_num) k then r.invoked_count ∷ [] else []

recorded-add_record :
    (r : Record) (table : Map ReplayEntry) (k : Bytes)
    → recorded (add_record r table k) ≡ recorded (table k) ++ one_more r k
unfolding add_record
recorded-add_record r table k = elim (Bool-cases (str_eq (replay_key r.gremlin r.child_num) k)) [
  | inl t ↦
      let e = str_eq_sound (replay_key r.gremlin r.child_num) k t in
      rw t (
        ap (λ l. l ++ r.invoked_count ∷ [])
          (recorded-known (table (replay_key r.gremlin r.child_num)))
        ∙ ap (λ q. recorded (table q) ++ r.invoked_count ∷ []) e)
  | inr t ↦ rw t (sym (append-nil (recorded (table k))))
]

one_more-invoked :
    (r : Record) (meta : Bytes) (rs : List Line) (k : Bytes)
    → one_more r k ++ invoked rs k ≡ invoked ((r, meta) ∷ rs) k
unfolding invoked
one_more-invoked r meta rs k = elim (Bool-cases (str_eq (replay_key r.gremlin r.child_num) k)) [
  | inl t ↦ rw t refl
  | inr t ↦ rw t refl
]

table_of-IsWhole :
    (rs : List Line) (table : Map ReplayEntry)
    → Every IsWhole table
    → Every IsWhole (table_of rs table)
table_of-IsWhole [] table h = h
table_of-IsWhole ((r, meta) ∷ rs) table h =
    table_of-IsWhole rs (add_record r table) (add_record-IsWhole r table h)

recorded-table_of :
    (rs : List Line) (table : Map ReplayEntry) (k : Bytes)
    → recorded (table_of rs table k) ≡ recorded (table k) ++ invoked rs k
unfolding invoked
recorded-table_of [] table k = sym (append-nil (recorded (table k)))
recorded-table_of ((r, meta) ∷ rs) table k =
    recorded-table_of rs (add_record r table) k
    ∙ ap (λ l. l ++ invoked rs k) (recorded-add_record r table k)
    ∙ append_assoc (recorded (table k)) (one_more r k) (invoked rs k)
    ∙ ap (λ l. recorded (table k) ++ l) (one_more-invoked r meta rs k)

whole-IsLive : (x : Option ReplayEntry) → Holds IsWhole x → IsLive x
whole-IsLive none h = tt
whole-IsLive (some r) (e, h) = omega (arith, e, h)

whole-remaining : (x : Option ReplayEntry) → Holds IsWhole x → remaining x ≡ recorded x
whole-remaining none h = refl
whole-remaining (some r) (e, h) = ap (λ i. drop i r.invoked_index) e

pub table_of-IsLive : (rs : List Line) (k : Bytes) → IsLive (table_of rs empty_map k)
table_of-IsLive rs k = whole-IsLive _ (table_of-IsWhole rs empty_map (λ q. tt) k)

-- What a replay table of a log has left for a key: the counters of the lines that name it.
pub remaining-table_of :
    (rs : List Line) (k : Bytes) → remaining (table_of rs empty_map k) ≡ invoked rs k
remaining-table_of rs k =
    whole-remaining _ (table_of-IsWhole rs empty_map (λ q. tt) k) ∙ recorded-table_of rs empty_map k

-- The log of a run that starts with the first line, in which the names can be read back and no context
-- has a newline, is read without a fault. In the table that is made of it each gremlin of a process has
-- the counter of every line that names it, in the order of the lines, and nothing of it is replayed yet.
pub read_lines-invoked :
    (rs : List Line)
    → All IsReadable rs
    → (table : Map ReplayEntry) × (read_lines (length (text false rs)) (text false rs) empty_map
        ≡ some table)
      × ((k : Bytes) → (recorded (table k) ≡ invoked rs k) × Holds IsWhole (table k))
read_lines-invoked rs h = (
  table_of rs empty_map,
  read_lines-text rs h,
  λ k. (recorded-table_of rs empty_map k, table_of-IsWhole rs empty_map (λ q. tt) k),
)
