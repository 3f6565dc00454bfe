-- ===== src/Acl/Reserve.antt =====
-- The list of a reserved directory: `chirp_acl_init_reserve` of chirp/src/chirp_acl.c, and the rights that
-- `chirp_acl_from_access_flags` and `chirp_acl_from_open_flags` ask for. Names fit their buffers.
pub mod Laws
mod Tests
use murphy.Acl.Check.{Store, Settings, acl_get, no_flags, flags_within, on_flags}
use murphy.Acl.Flags.{Rights, Flags, no_rights}
use murphy.Acl.Set.{entry_line}
use murphy.Base.{ℕ, Bool, true, false, ◌||◌, ◌&&◌, not, Option, none, some, Bytes, if◌then◌else◌}
use murphy.Controller.Log.{◌>>=◌}
use murphy.Text.Path.{dirname}

-- The ordinary rights: `CHIRP_ACL_READ | … | CHIRP_ACL_ADMIN`.
abbrev pub ordinary : Rights
ordinary = record no_rights { read = true; write = true; list = true; delete = true; admin = true }

abbrev pub own_flags : Rights → Flags
own_flags r = record { own = r; reserved = no_rights }

-- The rights that a reservation gives; all ordinary ones if it names none.
unfoldable pub new_flags : Flags → Flags
new_flags flags =
    let reserved = own_flags flags.reserved in
    if flags_within reserved no_flags then own_flags ordinary else reserved

-- What `chirp_acl_init_reserve` does: it returns 1 without a list, or with a new one; or it returns 0.
pub data Reserved : Type 0 where
  unchecked : Reserved
  failed : Reserved
  wrote : Bytes → Reserved

-- The end of `chirp_acl_init_reserve`; `opens` tells whether the new file opens.
unfoldable pub answer_reserve : Bool → Bytes → Option Flags → Reserved
answer_reserve opens subject none = failed
answer_reserve opens subject (some flags) =
    if opens then wrote (entry_line subject (new_flags flags)) else failed

-- `chirp_acl_init_reserve`
unfoldable pub init_reserve : ℕ → Store → Settings → Bool → Bytes → Bytes → Option Reserved
init_reserve n store settings opens path subject =
    if store.do_acl_check
    then acl_get n store settings (dirname path) subject
      >>= (λ r. some (answer_reserve opens subject r))
    else some unchecked

-- `R_OK`, `W_OK` and `X_OK` of the flags of `access`; `F_OK` is no bit.
pub record AccessFlags : Type 0 where
  pub r_ok : Bool
  pub w_ok : Bool
  pub x_ok : Bool

-- `chirp_acl_from_access_flags`
unfoldable pub from_access_flags : AccessFlags → Rights
from_access_flags f = record no_rights {
  read = f.r_ok || not (f.r_ok || (f.w_ok || f.x_ok));
  write = f.w_ok;
  execute = f.x_ok;
}

-- The bits of the flags of `open` that are tested.
pub record OpenFlags : Type 0 where
  pub wronly : Bool
  pub rdwr : Bool
  pub creat : Bool
  pub trunc : Bool
  pub append : Bool

-- `chirp_acl_from_open_flags`
unfoldable pub from_open_flags : OpenFlags → Rights
from_open_flags f =
    let write = f.wronly || (f.rdwr || (f.creat || (f.trunc || f.append))) in
    record no_rights { read = f.rdwr || not write; write = write }
