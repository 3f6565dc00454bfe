-- ===== src/Acl/Check/Tests.antt =====
-- The check of rights in chirp/src/chirp_acl.c at work.
use murphy.Base.{
  ap, sym, ◌≡◌, ◌↔◌, refl, true, false, Option, none, some, [], ◌∷◌, Bytes, codes, str_eq, length,
}
use murphy.Acl.Check.{
  Ticket, Store, Settings, on_rights, on_flags, rights_within, acl_open, applies, total, listed,
  ticket_mask, masked, acl_get, answer, check_dir,
}
use murphy.Acl.Entries.{take_while, scan_entry, entries}
use murphy.Acl.Check.Bits.{Bit, has}
use murphy.Acl.Check.Sums.{Given, Allowed, check_dir_lem}
use murphy.Acl.Check.Tickets.{acl_get-ticket, direct, acl_get-direct}
use murphy.Acl.Flags.{Flags, no_rights, text_to_flags}
use murphy.Controller.Log.{cut_line}
use murphy.Text.Ends.{drop_while}
use murphy.Text.Path.{collapse_path, collapse, round, at_slash}
use murphy.Text.Match.{starts_with, string_match, cut_star}

abbrev list_text : Bytes
list_text = codes "unix:ann rwla\nhostname:*.nd.edu rl\ngroup:g w\nunix:bob n\n"

abbrev ticket : Ticket
ticket = record { subject = codes "unix:ann"; rights = (codes "/", codes "rl") ∷ [] }

-- Every directory has one list, and one ticket stands for `unix:ann`.
abbrev store : Store
store = record {
  do_acl_check = true;
  open_file = λ name. some list_text;
  readlink = λ name. none;
  is_dir = λ name. true;
  group_lookup = λ group subject. str_eq subject (codes "unix:eve");
  is_ticket_subject = λ subject. str_eq subject (codes "ticket:1");
  read_ticket = λ subject. some ticket;
}

abbrev settings : Settings
settings = record {
  read_only_mode = false;
  default_acl = none;
  super_user = some (codes "unix:root");
  ticket_path = [];
}

abbrev read_only : Settings
read_only = record settings { read_only_mode = true }

abbrev wanted : Flags
wanted = record { own = record no_rights { read = true; write = true }; reserved = no_rights }

entries_run :
    entries 80 list_text
    ≡ (codes "unix:ann", codes "rwla")
      ∷ (codes "hostname:*.nd.edu", codes "rl")
      ∷ (codes "group:g", codes "w")
      ∷ []
unfolding entries scan_entry take_while cut_line drop_while
entries_run = refl

check_run :
    (check_dir 2 store settings (codes "/d") (codes "unix:ann") wanted ≡ some true)
    × (check_dir 2 store read_only (codes "/d") (codes "unix:ann") wanted ≡ some false)
    × (check_dir 2 store settings (codes "/d") (codes "hostname:a.nd.edu") wanted ≡ some false)
unfolding check_dir acl_get listed acl_open total applies text_to_flags string_match cut_star
    starts_with answer rights_within on_flags on_rights entries scan_entry take_while cut_line
    drop_while
check_run = (refl, refl, refl)

list_open : acl_open store settings (codes "/d") ≡ some list_text
unfolding acl_open
list_open = refl

check_dir_lem_example : (true ≡ true) ↔ (
    (i : Bit)
    → has i wanted ≡ true
    → Given store (codes "unix:ann") i (entries (length list_text) list_text) × Allowed settings i)
check_dir_lem_example =
    check_dir_lem 1 store settings (codes "/d") (codes "unix:ann") list_text wanted true refl refl
      refl list_open check_run.0

abbrev subject_of : Option Ticket → Bytes
subject_of none = []
subject_of (some t) = t.subject

stands_for_ann :
    (s : Bytes) (t : Ticket)
    → store.read_ticket s ≡ some t
    → store.is_ticket_subject t.subject ≡ false
stands_for_ann s t e = ap (λ o. str_eq (subject_of o) (codes "ticket:1")) (sym e)

acl_get-direct_example :
    acl_get 9 store settings (codes "/d") (codes "ticket:1")
    ≡ direct store settings (codes "/d") (codes "ticket:1")
acl_get-direct_example =
    acl_get-direct 7 store settings (codes "/d") (codes "ticket:1") stands_for_ann

abbrev may_read_list : Flags
may_read_list = record { own = record no_rights { read = true; list = true }; reserved = no_rights }

ticket_run : acl_get 2 store settings (codes "/d") (codes "ticket:1") ≡ some (some may_read_list)
unfolding acl_get masked ticket_mask listed acl_open total applies text_to_flags string_match
    cut_star starts_with on_flags on_rights entries scan_entry take_while cut_line drop_while
    collapse_path collapse round at_slash
ticket_run = refl

acl_get-ticket_example :
    (his : Flags) × (acl_get 1 store settings (codes "/d") (codes "unix:ann") ≡ some (some his))
    × ((i : Bit) → has i may_read_list ≡ true → has i his ≡ true)
acl_get-ticket_example =
    acl_get-ticket 1 store settings (codes "/d") (codes "ticket:1") ticket may_read_list refl refl
      ticket_run
