-- ===== src/Acl/Set/Others.antt =====
-- The rights of other subjects through `chirp_acl_set` of chirp/src/chirp_acl.c.
use murphy.Base.{
  ◌≡◌, refl, sym, ◌∙◌, Bool, true, false, Option, none, some, List, [], ◌∷◌, ◌++◌, Bytes, str_eq,
  str_eq_sound, Bool-cases, inl, inr, All, if◌then◌else◌,
}
use mathlib.Core.Path.{subst}
use murphy.Acl.Check.{Store, or_flags, applies, total}
use murphy.Acl.Flags.{Flags, flags_to_text}
use murphy.Acl.Flags.RoundTrip.{granted}
use murphy.Acl.Set.Laws.{swapped, added, read_flags}
use murphy.Acl.Set.Written.{IsEntry, shown_entries}

-- One entry of a list.
pub total_step :
    (store : Store) (q s : Bytes) (f acc : Flags) (es : List (Bytes × Bytes)) (b : Bool)
    → granted f ≡ f
    → applies store q s ≡ some b
    → total store q ((s, flags_to_text f) ∷ es) acc
      ≡ total store q es (if b then or_flags acc f else acc)
unfolding total
total_step store q s f acc es b g e = rw (read_flags f g, e) refl

-- Entries with the same subject and another's flags are passed over alike.
total_skip :
    (store : Store) (q s : Bytes) (f f' acc : Flags) (es es' : List (Bytes × Bytes))
    → granted f ≡ f
    → granted f' ≡ f'
    → applies store q s ≡ some false
    → total store q es acc ≡ total store q es' acc
    → total store q ((s, flags_to_text f) ∷ es) acc
      ≡ total store q ((s, flags_to_text f') ∷ es') acc
total_skip store q s f f' acc es es' g g' e h =
    total_step store q s f acc es false g e ∙ h ∙ sym (total_step store q s f' acc es' false g' e)

total_more_as :
    (store : Store) (q s : Bytes) (f : Flags) (es es' : List (Bytes × Bytes)) (x : Option Bool)
    → applies store q s ≡ x
    → granted f ≡ f
    → ((acc : Flags) → total store q es acc ≡ total store q es' acc)
    → (acc : Flags)
    → total store q ((s, flags_to_text f) ∷ es) acc ≡ total store q ((s, flags_to_text f) ∷ es') acc
unfolding total
total_more_as store q s f es es' none e g h acc = rw (read_flags f g, e) refl
total_more_as store q s f es es' (some b) e g h acc =
    rw (read_flags f g, e) (h (if b then or_flags acc f else acc))

pub total_more :
    (store : Store) (q s : Bytes) (f : Flags) (es es' : List (Bytes × Bytes))
    → granted f ≡ f
    → ((acc : Flags) → total store q es acc ≡ total store q es' acc)
    → (acc : Flags)
    → total store q ((s, flags_to_text f) ∷ es) acc ≡ total store q ((s, flags_to_text f) ∷ es') acc
total_more store q s f es es' = total_more_as store q s f es es' (applies store q s) refl

total_end :
    (store : Store) (q subject : Bytes) (flags acc : Flags) (b : Bool)
    → granted flags ≡ flags
    → applies store q subject ≡ some false
    → total store q (shown_entries (added b subject flags)) acc ≡ total store q [] acc
total_end store q subject flags acc false g e = total_step store q subject flags acc [] false g e
total_end store q subject flags acc true g e = refl

pub total_updated :
    (store : Store) (q subject : Bytes) (flags : Flags) (l : List (Bytes × Flags)) (b : Bool)
    → granted flags ≡ flags
    → applies store q subject ≡ some false
    → All IsEntry l
    → (acc : Flags)
    → total store q (shown_entries (swapped subject flags l ++ added b subject flags)) acc
      ≡ total store q (shown_entries l) acc
unfolding swapped
total_updated store q subject flags [] b g e h acc = total_end store q subject flags acc b g e
total_updated store q subject flags ((s, f) ∷ l) b g e (p, h) acc =
    elim (Bool-cases (str_eq subject s)) [
      | inl t ↦ rw t (
          total_skip store q s flags f acc _ _ g p.1.1
            (subst (λ z. applies store q z ≡ some false) (str_eq_sound subject s t) e)
            (total_updated store q subject flags l b g e h acc))
      | inr t ↦
          rw t
            (total_more store q s f _ _ p.1.1 (total_updated store q subject flags l b g e h) acc)
    ]
