-- ===== src/Channel/Tests.antt =====
-- parrot/src/pfs_channel.c at work on a channel of four pages.
use murphy.Base.{ℕ, ◌≡◌, refl, true, false, Option, none, some, [], ◌∷◌, arith, All}
use murphy.Base.Int.{pos, negsuc}
use murphy.Channel.{
  Channel, Round, init, round_up, scan, full, alloc, free, release, merge_prev, merge_next,
  merge_last, merge_head, clear, expand,
}
use murphy.Channel.Alloc.Call.{Called, alloc-Called}
use murphy.Channel.Alloc.Total.{alloc_returns, alloc-Starved}
use murphy.Channel.Free.Call.{without, free_lem, free-alloc}
use murphy.Channel.Regions.{IsValid, Regions, used, total}
use murphy.Channel.Run.{Reached, started, given, Reached-Disjoint}
use murphy.Channel.Held.{Within, Disjoint}

abbrev bytes : ℕ → ℕ
bytes i = 7

-- One page in use, two free, one in use.
abbrev three : Channel
three = record {
  entries =
      record { start = 0; length = 4096; inuse = true }
      ∷ record { start = 4096; length = 8192; inuse = false }
      ∷ record { start = 12288; length = 4096; inuse = true }
      ∷ [];
  size = 16384;
  page_size = 4096;
  memory = bytes;
}

abbrev packed : Channel
packed = record three { entries = record { start = 0; length = 16384; inuse = true } ∷ [] }

abbrev served : Round
served = record { malloc_ok = true; ftruncate_ok = true; mremap_ok = true }

abbrev starved : Round
starved = record { malloc_ok = false; ftruncate_ok = true; mremap_ok = true }

three-IsValid : IsValid three
three-IsValid = omega arith

packed-IsValid : IsValid packed
packed-IsValid = omega arith

abbrev after_split : Channel
after_split = record three {
  entries =
      record { start = 0; length = 4096; inuse = true }
      ∷ record { start = 4096; length = 4096; inuse = true }
      ∷ record { start = 8192; length = 4096; inuse = false }
      ∷ record { start = 12288; length = 4096; inuse = true }
      ∷ [];
  memory = clear bytes 4096 4096;
}

split_run : alloc (served ∷ []) (pos 100) three ≡ some (some 4096, after_split)
unfolding round_up scan alloc
split_run = refl

negative_size : round_up 4096 (negsuc 9) ≡ 4096
unfolding round_up
negative_size = refl

merge_run : (free 4096 after_split).entries ≡ three.entries
unfolding free release merge_prev merge_next merge_last merge_head
merge_run = refl

abbrev one_page : Channel
one_page = record {
  entries = record { start = 0; length = 4096; inuse = true } ∷ [];
  size = 4096;
  page_size = 4096;
  memory = clear bytes 0 4096;
}

init_run :
    init 4096 4096 bytes true
    ≡ some (record one_page {
      entries = record { start = 0; length = 4096; inuse = false } ∷ [];
      memory = bytes;
    })
unfolding init
init_run = refl

first_run :
    alloc (served ∷ []) (pos 1) (record one_page {
      entries = record { start = 0; length = 4096; inuse = false } ∷ [];
      memory = bytes;
    })
    ≡ some (some 0, one_page)
unfolding round_up scan alloc
first_run = refl

-- Behind the first page that was given, the file grows by another.
abbrev two_pages : Channel
two_pages = record one_page {
  entries =
      record { start = 0; length = 4096; inuse = true }
      ∷ record { start = 4096; length = 4096; inuse = true }
      ∷ [];
  size = 8192;
  memory = clear (clear bytes 0 4096) 4096 4096;
}

second_run : alloc (served ∷ served ∷ []) (pos 9) one_page ≡ some (some 4096, two_pages)
unfolding round_up scan alloc expand
second_run = refl

one_page-Reached : Reached 4096 4096 one_page ((0, round_up 4096 (pos 1)) ∷ [])
one_page-Reached = given (served ∷ []) (pos 1) 0 _ one_page [] (started bytes _ init_run) first_run

abbrev both : Regions
both = (4096, round_up 4096 (pos 9)) ∷ (0, round_up 4096 (pos 1)) ∷ []

two_pages-Reached : Reached 4096 4096 two_pages both
two_pages-Reached =
    given (served ∷ served ∷ []) (pos 9) 4096 one_page two_pages _ one_page-Reached second_run

Reached-Disjoint_example : All (Within 0 8192) both × Disjoint both
Reached-Disjoint_example =
    Reached-Disjoint 4096 4096 two_pages both (omega arith) (omega arith) two_pages-Reached

alloc-Called_example : Called (round_up 4096 (pos 100)) three (some 4096) after_split
alloc-Called_example = alloc-Called (served ∷ []) (pos 100) three three-IsValid split_run

alloc_returns_example :
    (r : Option ℕ) × (c' : Channel) × (alloc (served ∷ starved ∷ []) (pos 100) packed
      ≡ some (r, c'))
alloc_returns_example = alloc_returns served starved [] (pos 100) packed (omega arith) refl

packed_full : scan false (round_up 4096 (pos 100)) packed.entries ≡ full
unfolding scan round_up
packed_full = refl

alloc-Starved_example : alloc (starved ∷ starved ∷ []) (pos 100) packed ≡ none
alloc-Starved_example =
    alloc-Starved (starved ∷ starved ∷ []) (pos 100) packed (omega arith)
      ((refl, refl), ((refl, refl), tt)) packed_full

free_lem_example :
    IsValid (free 12288 three)
    × (total (free 12288 three).entries ≡ 16384)
    × (used (free 12288 three).entries ≡ without 12288 (used three.entries))
free_lem_example = free_lem 12288 three three-IsValid

free-alloc_example : used (free 4096 after_split).entries ≡ used three.entries
free-alloc_example = free-alloc (served ∷ []) (pos 100) three three-IsValid split_run
