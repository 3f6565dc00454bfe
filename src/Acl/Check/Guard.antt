-- ===== src/Acl/Check/Guard.antt =====
-- The files of rights themselves, in chirp/src/chirp_acl.c.
use murphy.Base.{Bool, true, false, Option, none, some}
use murphy.Acl.Flags.{Flags}

-- What is asked of such a file, deletion apart.
abbrev for_admin : Flags → Flags
for_admin flags = record flags { own = record (flags.own) { write = false; admin = true } }

abbrev is_yes : Option Bool → Bool
is_yes none = false
is_yes (some b) = b
