-- ===== src/Text/Ends/Laws.antt =====
-- What `string_chomp` and `string_remove_trailing_slashes` of dttools/src/stringtools.c leave.
use mathlib.Core.List.{reverse-cons}
use mathlib.Core.Path.{subst}
use murphy.Base.{
  ℕ, ◌≡◌, refl, Bool, true, false, [], ◌∷◌, ◌++◌, reverse, reverse-append, reverse-reverse, Bytes,
  All, All-append, ◌==◌, sym, ap, ◌∙◌, append_assoc,
}
use murphy.Text.Ends.{drop_while, is_newline, chomp, remove_trailing_slashes}

abbrev pub Each : (ℕ → Bool) → Bytes → Type 0
Each p = All (λ c. p c ≡ true)

Each-reverse : (p : ℕ → Bool) (w : Bytes) → Each p w → Each p (reverse w)
Each-reverse p [] h = tt
Each-reverse p (c ∷ w) (hc, hw) =
    subst (Each p) (sym (reverse-cons c w))
      (All-append _ (reverse w) (c ∷ []) (Each-reverse p w hw) (hc, tt))

drop_while-append :
    (p : ℕ → Bool) (t : Bytes) (c : ℕ) (w : Bytes)
    → Each p t
    → p c ≡ false
    → drop_while p (t ++ c ∷ w) ≡ c ∷ w
unfolding drop_while
drop_while-append p [] c w h e = rw e
drop_while-append p (x ∷ t) c w (hx, h) e = rw hx (drop_while-append p t c w h e)

drop_while_all : (p : ℕ → Bool) (t : Bytes) → Each p t → drop_while p t ≡ []
unfolding drop_while
drop_while_all p [] h = refl
drop_while_all p (x ∷ t) (hx, h) = rw hx (drop_while_all p t h)

-- A backward loop over `w`, `c` and `t` stops at `c`.
from_behind :
    (p : ℕ → Bool) (w t : Bytes) (c : ℕ)
    → Each p t
    → p c ≡ false
    → reverse (drop_while p (reverse (w ++ c ∷ t))) ≡ w ++ c ∷ []
from_behind p w t c h e =
    ap (λ l. reverse (drop_while p l))
      (reverse-append w (c ∷ t)
        ∙ ap (λ l. l ++ reverse w) (reverse-cons c t)
        ∙ append_assoc (reverse t) (c ∷ []) (reverse w))
    ∙ ap reverse (drop_while-append p (reverse t) c (reverse w) (Each-reverse p t h) e)
    ∙ reverse-cons c (reverse w)
    ∙ ap (λ l. l ++ c ∷ []) (reverse-reverse w)

-- `string_chomp` removes just the newlines and returns behind the last byte that is neither.
pub chomp_lem :
    (w t : Bytes) (c : ℕ)
    → Each is_newline t
    → is_newline c ≡ false
    → (chomp (w ++ c ∷ t) ≡ w ++ c ∷ []) × (chomp t ≡ [])
unfolding chomp
chomp_lem w t c h e = (
  from_behind is_newline w t c h e,
  ap reverse (drop_while_all is_newline (reverse t) (Each-reverse is_newline t h)),
)

abbrev pub is_slash : ℕ → Bool
is_slash b = b == b'/'

-- `string_remove_trailing_slashes` removes just the slashes behind the last byte that is none, but never
-- the first byte: a path of slashes becomes the root.
pub remove_trailing_slashes_lem :
    (a : ℕ) (w t : Bytes) (c : ℕ)
    → Each is_slash t
    → is_slash c ≡ false
    → (remove_trailing_slashes (a ∷ (w ++ c ∷ t)) ≡ a ∷ (w ++ c ∷ []))
      × (remove_trailing_slashes (a ∷ t) ≡ a ∷ [])
unfolding remove_trailing_slashes
remove_trailing_slashes_lem a w t c h e = (
  ap (λ l. a ∷ l) (from_behind is_slash w t c h e),
  ap (λ l. a ∷ reverse l) (drop_while_all is_slash (reverse t) (Each-reverse is_slash t h)),
)
