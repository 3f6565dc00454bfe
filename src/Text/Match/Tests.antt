-- ===== src/Text/Match/Tests.antt =====
-- Patterns of access control lists.
use murphy.Base.{◌≡◌, refl, true, false, none, some, ◌++◌, Bytes, codes, arith}
use murphy.Text.Match.{cut_star, starts_with, string_match}
use murphy.Text.Match.Laws.{match_sound}

runs :
    (string_match (codes "unix:*") (codes "unix:ann") ≡ some true)
    × (string_match (codes "unix:*") (codes "globus:ann") ≡ some false)
    × (string_match (codes "ab*bc") (codes "abc") ≡ some true)
    × (string_match (codes "a*bcd") (codes "ad") ≡ none)
unfolding string_match cut_star starts_with
runs = (refl, refl, refl, refl)

accepted : string_match (codes "h:*.edu") (codes "h:nd.edu") ≡ some true
unfolding string_match cut_star starts_with
accepted = refl

match_sound_example : (mid : Bytes) × (codes "h:nd.edu" ≡ codes "h:" ++ (mid ++ codes ".edu"))
match_sound_example =
    match_sound (codes "h:") (codes ".edu") (codes "h:nd.edu") (refl, (refl, tt)) (omega arith)
      accepted
