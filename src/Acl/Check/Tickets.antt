-- ===== src/Acl/Check/Tickets.antt =====
-- Tickets in chirp/src/chirp_acl.c.
use murphy.Base.{
  ℕ, suc, ◌≡◌, refl, sym, ap, ◌∙◌, true, false, ◌&&◌, Option, none, some, Bytes, Bool-cases,
  Option-cases, inl, inr, if_true, if_false, arith, if◌then◌else◌,
}
use murphy.Acl.Check.{
  Store, Settings, Ticket, and_flags, restricted, masked, listed, acl_get, ticket_mask, no_flags,
}
use murphy.Acl.Check.Bits.{Bit, has, has-on_flags, and_left}
use murphy.Acl.Check.Sums.{bind_some, restricted_lem, acl_get-listed, or_none, bit_of}
use murphy.Acl.Flags.{Flags}
use murphy.Controller.Log.{◌>>=◌}

-- What `do_chirp_acl_get` does with the ticket that it finds.
abbrev with_ticket : ℕ → Store → Settings → Bytes → Option Ticket → Option (Option Flags)
with_ticket n store settings dir none = some none
with_ticket n store settings dir (some ticket) =
    acl_get n store settings dir ticket.subject >>= (λ r. masked settings dir ticket r)

with_ticket_lem :
    (n : ℕ) (store : Store) (settings : Settings) (dir : Bytes) (x : Option Ticket)
    → elim x [
      | none ↦ some none
      | some ticket ↦
          acl_get n store settings dir ticket.subject >>= (λ r. masked settings dir ticket r)
    ]
      ≡ with_ticket n store settings dir x
with_ticket_lem n store settings dir none = refl
with_ticket_lem n store settings dir (some ticket) = refl

acl_get-with_ticket :
    (n : ℕ) (store : Store) (settings : Settings) (dir subject : Bytes) (x : Option Ticket)
    → store.is_ticket_subject subject ≡ true
    → store.read_ticket subject ≡ x
    → acl_get (suc n) store settings dir subject ≡ with_ticket n store settings dir x
unfolding acl_get
acl_get-with_ticket n store settings dir subject x t e =
    if_true (store.is_ticket_subject subject) _ _ t
    ∙ ap
        (λ (o : Option Ticket). elim o [
          | none ↦ some none
          | some ticket ↦
              acl_get n store settings dir ticket.subject >>= (λ r. masked settings dir ticket r)
        ])
        e
    ∙ with_ticket_lem n store settings dir x

masked_lem :
    (settings : Settings) (dir : Bytes) (ticket : Ticket) (r : Option Flags) (mine : Flags)
    → masked settings dir ticket r ≡ some (some mine)
    → (his : Flags) × (r ≡ some his) × ((i : Bit) → has i mine ≡ true → has i his ≡ true)
unfolding masked
masked_lem settings dir ticket none mine h =
    absurd (let c : none ≡ some mine = ap or_none h in grind arith)
masked_lem settings dir ticket (some his) mine h =
    let (mask, e, q) = bind_some (ticket_mask settings dir ticket.rights 0 no_flags) _ _ h in
    (
      his,
      refl,
      λ i p.
          let s : has i (restricted settings (and_flags his mask)) ≡ true =
            ap (λ o. bit_of i (or_none o)) q ∙ p in
          let b = (restricted_lem settings i (and_flags his mask)).0 s in
          and_left _ _ (sym (has-on_flags (λ x y. x && y) i his mask) ∙ b.0),
    )

-- A ticket has no right in any directory that the subject which it stands for lacks there.
pub acl_get-ticket :
    (n : ℕ) (store : Store) (settings : Settings) (dir subject : Bytes) (ticket : Ticket)
    (mine : Flags)
    → store.is_ticket_subject subject ≡ true
    → store.read_ticket subject ≡ some ticket
    → acl_get (suc n) store settings dir subject ≡ some (some mine)
    → (his : Flags) × (acl_get n store settings dir ticket.subject ≡ some (some his))
      × ((i : Bit) → has i mine ≡ true → has i his ≡ true)
acl_get-ticket n store settings dir subject ticket mine t e h =
    let k = sym (acl_get-with_ticket n store settings dir subject (some ticket) t e) ∙ h in
    let (r, a, m) = bind_some (acl_get n store settings dir ticket.subject) _ _ k in
    let (his, q, f) = masked_lem settings dir ticket r mine m in (his, a ∙ ap some q, f)

-- The rights of a subject, without a call of the function by itself: those of the list, or for a ticket
-- those of the list for the subject that it stands for, cut by the ticket.
abbrev pub by_ticket : Store → Settings → Bytes → Option Ticket → Option (Option Flags)
by_ticket store settings dir none = some none
by_ticket store settings dir (some ticket) =
    listed store settings dir ticket.subject >>= (λ r. masked settings dir ticket r)

abbrev pub direct : Store → Settings → Bytes → Bytes → Option (Option Flags)
direct store settings dir subject =
    if store.is_ticket_subject subject
    then by_ticket store settings dir (store.read_ticket subject)
    else listed store settings dir subject

-- Where no ticket stands for a ticket, `do_chirp_acl_get` ends: two rounds and any larger number of them
-- give the rights that the list has for the subject, or for that of its ticket, cut by the ticket.
pub acl_get-direct :
    (n : ℕ) (store : Store) (settings : Settings) (dir subject : Bytes)
    → ((s : Bytes) (ticket : Ticket)
        → store.read_ticket s ≡ some ticket
        → store.is_ticket_subject ticket.subject ≡ false)
    → acl_get (suc (suc n)) store settings dir subject ≡ direct store settings dir subject
acl_get-direct n store settings dir subject plain =
    elim (Bool-cases (store.is_ticket_subject subject)) [
      | inr t ↦
          acl_get-listed (suc n) store settings dir subject t
          ∙ sym (if_false (store.is_ticket_subject subject) _ _ t)
      | inl t ↦ elim (Option-cases (store.read_ticket subject)) [
        | inl e ↦
            acl_get-with_ticket (suc n) store settings dir subject none t e
            ∙ sym (
                if_true (store.is_ticket_subject subject) _ _ t
                ∙ ap (by_ticket store settings dir) e)
        | inr (ticket, e) ↦
            acl_get-with_ticket (suc n) store settings dir subject (some ticket) t e
            ∙ ap (λ x. x >>= (λ r. masked settings dir ticket r))
                (acl_get-listed n store settings dir ticket.subject (plain subject ticket e))
            ∙ sym (
                if_true (store.is_ticket_subject subject) _ _ t
                ∙ ap (by_ticket store settings dir) e)
      ]
    ]
