-- ===== src/Acl/Set/Tests.antt =====
-- The writing of lists of rights in chirp/src/chirp_acl.c at work.
use murphy.Base.{
  ◌≡◌, ◌≢◌, inl, refl, true, false, Option, All, none, some, List, [], ◌∷◌, Bytes, codes, length,
  arith,
}
use murphy.Acl.Check.{Store, Settings, applies, total, no_flags, rights_within}
use murphy.Acl.Entries.{take_while, scan_entry, entries}
use murphy.Acl.Flags.{Flags, no_rights, text_to_flags, flags_to_text}
use murphy.Acl.Set.{
  Disk, acl_set, old_text, write_over, set_text, store_text, stored, enotdir, eacces, rewritten,
  replaced, copied,
}
use murphy.Acl.Set.Removed.{acl_set-removed}
use murphy.Acl.Set.Stored.{IsListed, Gives, sound_disk, acl_set-total}
use murphy.Acl.Set.Written.{IsSubject, IsEntry, list_text}
use murphy.Controller.Log.{cut_line}
use murphy.Text.Ends.{drop_while}
use murphy.Text.Match.{starts_with, string_match, cut_star}

abbrev reads : Flags
reads = record { own = record no_rights { read = true; list = true }; reserved = no_rights }

abbrev writes_all : Flags
writes_all = record { own = record no_rights { read = true; write = true }; reserved = no_rights }

abbrev entry_list : List (Bytes × Flags)
entry_list = (codes "unix:ann", reads) ∷ (codes "unix:bob", reads) ∷ []

-- A directory /d with a list for ann and bob.
abbrev store : Store
store = record {
  do_acl_check = true;
  open_file = λ name. some (codes "unix:ann rl\nunix:bob rl\n");
  readlink = λ name. none;
  is_dir = λ name. true;
  group_lookup = λ group subject. false;
  is_ticket_subject = λ subject. false;
  read_ticket = λ subject. none;
}

abbrev settings : Settings
settings = record {
  read_only_mode = false;
  default_acl = none;
  super_user = none;
  ticket_path = [];
}

abbrev disk : Disk
disk = record { opens = true; writes = true; renames = true }

set_run :
    (acl_set store settings (λ name. false) disk (codes "/d") (codes "unix:ann") writes_all false
      ≡ some (stored (codes "unix:ann rw\nunix:bob rl\n")))
    × (acl_set store settings (λ name. false) disk (codes "/d") (codes "unix:ann") no_flags false
        ≡ some (stored (codes "unix:bob rl\n")))
    × (acl_set store settings (λ name. false) disk (codes "/d") (codes "unix:eve") no_flags false
        ≡ some (stored (codes "unix:ann rl\nunix:bob rl\nunix:eve n\n")))
    × (acl_set store settings
          (λ name. false)
          (record disk { renames = false })
          (codes "/d")
          (codes "unix:ann")
          reads
          false
        ≡ some eacces)
    × (acl_set
          (record store { is_dir = λ name. false })
          settings
          (λ name. false)
          disk
          (codes "/d")
          (codes "unix:ann")
          reads
          false
        ≡ some enotdir)
unfolding acl_set old_text write_over set_text store_text rewritten replaced entries scan_entry
    take_while cut_line drop_while text_to_flags flags_to_text rights_within
set_run = (refl, refl, refl, refl, refl)

copied_run :
    copied ((codes "unix:ann", codes "rl") ∷ (codes "unix:bob", codes "x") ∷ [])
    ≡ some (codes "unix:ann rl\nunix:bob x\n")
unfolding copied text_to_flags flags_to_text
copied_run = refl

ann-IsSubject : IsSubject (codes "unix:ann")
ann-IsSubject = grind arith

ann_reads-IsEntry : IsEntry (codes "unix:ann", reads)
unfolding flags_to_text
ann_reads-IsEntry = (ann-IsSubject, ((λ e. cc), refl))

ann_writes-IsEntry : IsEntry (codes "unix:ann", writes_all)
unfolding flags_to_text
ann_writes-IsEntry = (ann-IsSubject, ((λ e. cc), refl))

bob_reads-IsEntry : IsEntry (codes "unix:bob", reads)
unfolding flags_to_text
bob_reads-IsEntry = (grind arith, ((λ e. cc), refl))

not_bob : applies store (codes "unix:bob") (codes "unix:ann") ≡ some false
unfolding applies string_match cut_star starts_with
not_bob = refl

old_list :
    ◌≡◌ {A = Option Bytes} (some (codes "unix:ann rl\nunix:bob rl\n")) (some (list_text entry_list))
unfolding flags_to_text
old_list = refl

acl_set-total_example :
    (new : Bytes) × (acl_set store settings
        (λ name. false)
        sound_disk
        (codes "/d")
        (codes "unix:ann")
        writes_all
        false
      ≡ some (stored new))
    × IsListed (codes "unix:ann") (entries (length new) new)
    × All (Gives (codes "unix:ann") writes_all) (entries (length new) new)
    × (total store (codes "unix:bob") (entries (length new) new) no_flags
        ≡ total store
            (codes "unix:bob")
            (entries (length (list_text entry_list)) (list_text entry_list))
            no_flags)
acl_set-total_example =
    acl_set-total store settings (λ name. false) (codes "/d") (codes "unix:bob") (codes "unix:ann")
      writes_all entry_list refl old_list ann_writes-IsEntry
      (ann_reads-IsEntry, (bob_reads-IsEntry, tt)) not_bob

acl_set-removed_example :
    (new : Bytes) × (acl_set store settings
        (λ name. false)
        sound_disk
        (codes "/d")
        (codes "unix:ann")
        no_flags
        false
      ≡ some (stored new))
    × All (λ e. e.0 ≢ codes "unix:ann") (entries (length new) new)
    × (total store (codes "unix:bob") (entries (length new) new) no_flags
        ≡ total store
            (codes "unix:bob")
            (entries (length (list_text entry_list)) (list_text entry_list))
            no_flags)
acl_set-removed_example =
    acl_set-removed store settings (λ name. false) (codes "/d") (codes "unix:bob")
      (codes "unix:ann") entry_list refl old_list (ann_reads-IsEntry, (bob_reads-IsEntry, tt))
      (inl refl) not_bob
