-- ===== src/Acl/Flags/Tests.antt =====
-- The text of rights in chirp/src/chirp_acl.c at work.
use murphy.Base.{◌≡◌, refl, true, none, some, codes}
use murphy.Acl.Flags.{Flags, no_rights, reserved_to_text, flags_to_text, outside, text_to_flags}
use murphy.Acl.Flags.RoundTrip.{granted, text_to_flags-flags_to_text}

abbrev nothing : Flags
nothing = record { own = no_rights; reserved = no_rights }

abbrev reader : Flags
reader = record {
  own = record no_rights { read = true; list = true; reserve = true };
  reserved = record no_rights { write = true; admin = true };
}

flags_runs :
    (flags_to_text reader ≡ codes "rlv(wa)")
    × (flags_to_text nothing ≡ codes "n")
    × (text_to_flags outside nothing (codes "rlv(wa)") ≡ some reader)
    × (text_to_flags outside nothing (codes "rv(w") ≡ none)
unfolding flags_to_text reserved_to_text text_to_flags
flags_runs = (refl, refl, refl, refl)

text_to_flags-flags_to_text_example :
    text_to_flags outside nothing (flags_to_text reader) ≡ some (granted reader)
text_to_flags-flags_to_text_example = text_to_flags-flags_to_text reader
