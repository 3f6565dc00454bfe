-- ===== src/Acl/Check.antt =====
-- The check of rights in chirp/src/chirp_acl.c: what a subject may do in a directory, by the directory's
-- list and by tickets. Lines and names are taken to fit their buffers.
pub mod Bits
pub mod Sums
pub mod Tickets
pub mod Guard
mod Tests
use murphy.Acl.Entries.{take_while, is_acl_letter, is_no_blank, if_filled, scan_entry, entries}
use murphy.Base.{
  ℕ, zero, suc, ◌-◌, Bool, true, false, not, ◌&&◌, ◌||◌, Option, none, some, List, [], ◌∷◌, ◌++◌,
  Bytes, codes, str_eq, length, drop, ltb, ◌==◌, if◌then◌else◌,
}
use murphy.Acl.Flags.{Rights, Flags, no_rights, text_to_flags, outside}
use murphy.Controller.Line.{is_space}
use murphy.Controller.Log.{cut_line, ◌>>=◌}
use murphy.Text.Ends.{drop_while}
use murphy.Text.Match.{starts_with, string_match}
use murphy.Text.Path.{collapse_path, dirname}

-- `struct chirp_ticket`, as far as rights go: its subject, and directories with the text of flags.
pub record Ticket : Type 0 where
  pub subject : Bytes
  pub rights : List (Bytes × Bytes)

-- The file system below, the groups and the tickets of a server: `do_acl_check`; `cfs_fopen` for reading,
-- as the text of the file; `cfs->readlink`, as the link if it is one; `cfs_isdir`; `chirp_group_lookup`;
-- `chirp_ticket_isticketsubject`; and the ticket that `ticket_read` finds for a subject.
pub record Store : Type 0 where
  pub do_acl_check : Bool
  pub open_file : Bytes → Option Bytes
  pub readlink : Bytes → Option Bytes
  pub is_dir : Bytes → Bool
  pub group_lookup : Bytes → Bytes → Bool
  pub is_ticket_subject : Bytes → Bool
  pub read_ticket : Bytes → Option Ticket

-- `read_only_mode`, `default_acl`, `chirp_super_user` and `chirp_ticket_path`.
pub record Settings : Type 0 where
  pub read_only_mode : Bool
  pub default_acl : Option Bytes
  pub super_user : Option Bytes
  pub ticket_path : Bytes

abbrev pub no_flags : Flags
no_flags = record { own = no_rights; reserved = no_rights }

-- A bitwise operation.
unfoldable pub on_rights : (Bool → Bool → Bool) → Rights → Rights → Rights
on_rights f a b = record {
  read = f a.read b.read;
  write = f a.write b.write;
  list = f a.list b.list;
  delete = f a.delete b.delete;
  put = f a.put b.put;
  admin = f a.admin b.admin;
  execute = f a.execute b.execute;
  reserve = f a.reserve b.reserve;
}

unfoldable pub on_flags : (Bool → Bool → Bool) → Flags → Flags → Flags
on_flags f a b = record {
  own = on_rights f a.own b.own;
  reserved = on_rights f a.reserved b.reserved;
}

abbrev pub or_flags : Flags → Flags → Flags
or_flags a b = on_flags (λ x y. x || y) a b

abbrev pub and_flags : Flags → Flags → Flags
and_flags a b = on_flags (λ x y. x && y) a b

-- `(flags & myflags) == flags`
unfoldable pub rights_within : Rights → Rights → Bool
rights_within a b =
    (not a.read || b.read)
    && ((not a.write || b.write)
        && ((not a.list || b.list)
            && ((not a.delete || b.delete)
                && ((not a.put || b.put)
                    && ((not a.admin || b.admin)
                        && ((not a.execute || b.execute) && (not a.reserve || b.reserve)))))))

abbrev pub flags_within : Flags → Flags → Bool
flags_within a b = rights_within a.own b.own && rights_within a.reserved b.reserved

abbrev pub base_name : Bytes
base_name = codes ".__acl"

-- `make_acl_name`
abbrev pub make_acl_name : Bytes → Bytes
make_acl_name filename = collapse_path true (filename ++ b'/' ∷ base_name)

-- `chirp_acl_open`: the text of a directory's list.
unfoldable pub acl_open : Store → Settings → Bytes → Option Bytes
acl_open store settings dir = elim (store.open_file (make_acl_name dir)) [
  | some text ↦ some text
  | none ↦ elim settings.default_acl [ none ↦ none | some d ↦ store.open_file d ]
]

-- Whether an entry is for a subject, itself or as one of a group.
unfoldable pub applies : Store → Bytes → Bytes → Option Bool
applies store subject aclsubject = do
  m ← string_match aclsubject subject
  some (m || starts_with (codes "group:") aclsubject && store.group_lookup aclsubject subject)

-- The loop over a list. Here and below, `none` is where the code reads outside of a string.
unfoldable pub total : Store → Bytes → List (Bytes × Bytes) → Flags → Option Flags
total store subject [] flags = some flags
total store subject ((aclsubject, acl) ∷ es) flags = do
  f ← text_to_flags outside no_flags acl
  b ← applies store subject aclsubject
  total store subject es (if b then or_flags flags f else flags)

-- What `CHIRP_ACL_READ | CHIRP_ACL_LIST` leaves of flags.
abbrev pub read_list : Flags
read_list = record { own = record no_rights { read = true; list = true }; reserved = no_rights }

abbrev pub restricted : Settings → Flags → Flags
restricted settings flags = if settings.read_only_mode then and_flags flags read_list else flags

-- The loop over the rights of a ticket: the mask of the longest directory that begins the name, with
-- the length found so far.
unfoldable pub ticket_mask : Settings → Bytes → List (Bytes × Bytes) → ℕ → Flags → Option Flags
ticket_mask settings dir [] longest mask = some mask
ticket_mask settings dir ((directory, acl) ∷ rs) longest mask =
    let place = collapse_path true (settings.ticket_path ++ b'/' ∷ directory) in
    if starts_with place dir && ltb longest (length place)
    then text_to_flags outside no_flags acl >>= (λ m. ticket_mask settings dir rs (length place) m)
    else ticket_mask settings dir rs longest mask

-- The end of the branch for a ticket.
unfoldable pub masked : Settings → Bytes → Ticket → Option Flags → Option (Option Flags)
masked settings dir ticket none = some none
masked settings dir ticket (some flags) =
    ticket_mask settings dir ticket.rights 0 no_flags
    >>= (λ mask. some (some (restricted settings (and_flags flags mask))))

-- The branch for other subjects, with the text of the list if it can be opened.
abbrev pub listed_text : Store → Settings → Bytes → Option Bytes → Option (Option Flags)
listed_text store settings subject none = some none
listed_text store settings subject (some text) =
    total store subject (entries (length text) text) no_flags
    >>= (λ flags. some (some (restricted settings flags)))

unfoldable pub listed : Store → Settings → Bytes → Bytes → Option (Option Flags)
listed store settings dir subject = listed_text store settings subject (acl_open store settings dir)

-- `do_chirp_acl_get`: the flags, or `some none` where it returns 0. It calls itself for the subject of a
-- ticket, here as often as the first argument says.
unfoldable pub acl_get : ℕ → Store → Settings → Bytes → Bytes → Option (Option Flags)
acl_get zero store settings dir subject = none
acl_get (suc n) store settings dir subject =
    if store.is_ticket_subject subject
    then elim (store.read_ticket subject) [
      | none ↦ some none
      | some ticket ↦
          acl_get n store settings dir ticket.subject >>= (λ r. masked settings dir ticket r)
    ]
    else listed store settings dir subject

abbrev pub list_admin : Flags
list_admin = record { own = record no_rights { list = true; admin = true }; reserved = no_rights }

abbrev pub is_super : Settings → Bytes → Bool
is_super settings subject = elim settings.super_user [ none ↦ false | some u ↦ str_eq subject u ]

-- What `chirp_acl_check_dir` makes of the flags of the subject; the super user can list and administer.
unfoldable pub answer : Settings → Bytes → Flags → Option Flags → Bool
answer settings subject flags none = false
answer settings subject flags (some mine) =
    flags_within flags (if is_super settings subject then or_flags mine list_admin else mine)

-- `chirp_acl_check_dir`
unfoldable pub check_dir : ℕ → Store → Settings → Bytes → Bytes → Flags → Option Bool
check_dir n store settings dir subject flags =
    if store.do_acl_check
    then acl_get n store settings dir subject >>= (λ r. some (answer settings subject flags r))
    else some true

-- `string_back`
unfoldable pub string_back : Bytes → ℕ → Bytes
string_back s max = if ltb (length s) max then s else drop (length s - max) s

abbrev pub delete_flag : Flags
delete_flag = record { own = record no_rights { delete = true }; reserved = no_rights }

abbrev pub absolute_link : Bytes → Bytes → Bytes
absolute_link filename [] = filename
absolute_link filename (c ∷ s) =
    if c == b'/' then c ∷ s else collapse_path true (filename ++ (codes "/../" ++ c ∷ s))

-- The name that is checked: that of the file, or where a link points to.
unfoldable pub followed : Store → Bytes → Flags → Bool → Bytes
followed store filename flags follow_links =
    let delete_only = flags_within flags delete_flag && flags.own.delete in
    if follow_links && not delete_only
    then elim (store.readlink filename) [
      | none ↦ filename
      | some link ↦ absolute_link filename link
    ]
    else filename

-- What the check asks of an ACL file: `none` where it refuses to delete it.
unfoldable pub asked : Bytes → Flags → Option Flags
asked filename flags =
    if str_eq (string_back filename 6) base_name
    then if flags.own.delete
      then none
      else some (
          if flags.own.write
          then record flags { own = record (flags.own) { write = false; admin = true } }
          else flags)
    else some flags

-- The directory of a name.
abbrev pub directory_of : Store → Bytes → Bytes
directory_of store filename =
    let path = collapse_path true filename in if store.is_dir path then path else dirname path

-- The end of `do_chirp_acl_check`, with what is asked of a directory.
abbrev pub check_asked : ℕ → Store → Settings → Bytes → Bytes → Option Flags → Option Bool
check_asked n store settings dir subject none = some false
check_asked n store settings dir subject (some flags) = check_dir n store settings dir subject flags

-- `do_chirp_acl_check`
unfoldable pub check : ℕ → Store → Settings → Bytes → Bytes → Flags → Bool → Option Bool
check n store settings filename subject flags follow_links =
    let name = followed store filename flags follow_links in
    if store.do_acl_check
    then check_asked n store settings (directory_of store name) subject (asked name flags)
    else some true
