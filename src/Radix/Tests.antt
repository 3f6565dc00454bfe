-- ===== src/Radix/Tests.antt =====
-- ftp_lite/src/radix.c at work.
use murphy.Base.{◌≡◌, refl, none, some, codes, arith}
use murphy.Radix.{first, at_0, radix, radix_index, radix_encode, finish, radix_decode}
use murphy.Radix.RoundTrip.{radix_decode-radix_encode}

radix_runs :
    (radix_encode first (codes "Man") ≡ codes "TWFu")
    × (radix_encode first (codes "Ma") ≡ codes "TWE=")
    × (radix_encode first (codes "M") ≡ codes "TQ==")
    × (radix_decode at_0 (codes "TWE=") ≡ some (codes "Ma"))
    × (radix_decode at_0 (codes "TWF=") ≡ none)
    × (radix_decode at_0 (codes "T*E=") ≡ none)
unfolding radix_encode radix radix_index radix_decode finish
radix_runs = (refl, refl, refl, refl, refl, refl)

radix_decode-radix_encode_example :
    radix_decode at_0 (radix_encode first (codes "Ma")) ≡ some (codes "Ma")
radix_decode-radix_encode_example = radix_decode-radix_encode (codes "Ma") (omega arith)
