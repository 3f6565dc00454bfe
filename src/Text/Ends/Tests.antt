-- ===== src/Text/Ends/Tests.antt =====
-- Lines and paths at their ends.
use murphy.Base.{◌≡◌, refl, codes}
use murphy.Text.Ends.{drop_while, chomp}

chomp_run : chomp (codes "a\nb\r\n") ≡ codes "a\nb"
unfolding chomp drop_while
chomp_run = refl
