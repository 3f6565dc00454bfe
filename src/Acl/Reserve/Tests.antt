-- ===== src/Acl/Reserve/Tests.antt =====
-- The list of a reserved directory and the rights asked for in chirp/src/chirp_acl.c at work.
use murphy.Base.{◌≡◌, refl, true, false, none, some, [], ◌∷◌, Bytes, codes, length, arith}
use murphy.Acl.Check.{
  Store, Settings, acl_get, listed, acl_open, total, applies, on_rights, on_flags, rights_within,
}
use murphy.Acl.Entries.{take_while, scan_entry, entries}
use murphy.Acl.Flags.{Flags, no_rights, text_to_flags, flags_to_text, reserved_to_text}
use murphy.Acl.Reserve.{
  new_flags, wrote, failed, answer_reserve, init_reserve, from_access_flags, from_open_flags,
}
use murphy.Acl.Reserve.Laws.{Given, init_reserve_lem}
use murphy.Acl.Set.Written.{IsSubject}
use murphy.Controller.Log.{cut_line}
use murphy.Text.Ends.{drop_while}
use murphy.Text.Path.{dirname, cut_last_slash}
use murphy.Text.Match.{starts_with, string_match, cut_star}

-- Every directory lets ann reserve with the rights `rl`, and bob without any.
abbrev store : Store
store = record {
  do_acl_check = true;
  open_file = λ name. some (codes "unix:ann v(rl)\nunix:bob v\n");
  readlink = λ name. none;
  is_dir = λ name. true;
  group_lookup = λ group subject. false;
  is_ticket_subject = λ subject. false;
  read_ticket = λ subject. none;
}

abbrev settings : Settings
settings = record {
  read_only_mode = false;
  default_acl = none;
  super_user = none;
  ticket_path = [];
}

abbrev reads : Flags
reads = record {
  own = record no_rights { reserve = true };
  reserved = record no_rights { read = true; list = true };
}

reserve_run :
    (init_reserve 1 store settings true (codes "/d/e") (codes "unix:ann")
      ≡ some (wrote (codes "unix:ann rl\n")))
    × (init_reserve 1 store settings true (codes "/d/e") (codes "unix:bob")
        ≡ some (wrote (codes "unix:bob rwlda\n")))
    × (init_reserve 1 store settings false (codes "/d/e") (codes "unix:bob") ≡ some failed)
unfolding init_reserve answer_reserve new_flags acl_get listed acl_open total applies text_to_flags
    string_match cut_star starts_with rights_within on_flags on_rights entries scan_entry take_while
    cut_line drop_while flags_to_text reserved_to_text
reserve_run = (refl, refl, refl)

asked_run :
    (from_access_flags (record { r_ok = false; w_ok = false; x_ok = false })
      ≡ record no_rights { read = true })
    × (from_open_flags
          (record { wronly = true; rdwr = false; creat = true; trunc = false; append = false })
        ≡ record no_rights { write = true })
unfolding from_access_flags from_open_flags
asked_run = (refl, refl)

ann_flags : acl_get 1 store settings (dirname (codes "/d/e")) (codes "unix:ann") ≡ some (some reads)
unfolding acl_get listed acl_open total applies text_to_flags string_match cut_star starts_with
    on_flags on_rights entries scan_entry take_while cut_line drop_while dirname cut_last_slash
ann_flags = refl

ann-IsSubject : IsSubject (codes "unix:ann")
ann-IsSubject = grind arith

init_reserve_lem_example :
    (new : Bytes) × (init_reserve 1 store settings true (codes "/d/e") (codes "unix:ann")
      ≡ some (wrote new))
    × (acl : Bytes) × (entries (length new) new ≡ (codes "unix:ann", acl) ∷ [])
    × Given (reads.reserved) acl
init_reserve_lem_example =
    init_reserve_lem 1 store settings (codes "/d/e") (codes "unix:ann") reads refl ann_flags
      ann-IsSubject
