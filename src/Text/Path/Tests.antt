-- ===== src/Text/Path/Tests.antt =====
-- Paths of users, split and collapsed.
use murphy.Base.{◌≡◌, refl, true, false, [], ◌∷◌, ◌++◌, codes}
use murphy.Text.Ends.{remove_trailing_slashes}
use murphy.Text.Path.{
  skip_slashes, copy_until, lead, split_path, split_multipath, ends, second_dot, at_slash, pop,
  round, collapse, collapse_path,
}
use murphy.Text.Path.Collapse.Components.{join}
use murphy.Text.Path.Collapse.Spec.{text, resolve, or_root, collapse_path-resolve}

split_runs :
    (split_path (codes "//a/b/c") ≡ (codes "a", codes "/b/c"))
    × (split_path (codes "a") ≡ (codes "a", codes "/"))
    × (split_multipath (codes "/a@b") ≡ (codes "a", codes "@b"))
unfolding split_path split_multipath skip_slashes copy_until lead
split_runs = (refl, refl, refl)

collapse_runs :
    (collapse_path true (codes "/a/../../b//c/./d/..") ≡ codes "/b/c")
    × (collapse_path false (codes "/a/../b/.") ≡ codes "/a/../b")
    × (collapse_path true (codes "a/..") ≡ codes "/")
    × (collapse_path true (codes "./a/") ≡ codes "./a")
unfolding collapse_path collapse round at_slash second_dot ends pop remove_trailing_slashes
collapse_runs = (refl, refl, refl, refl)

collapse_path-resolve_example :
    collapse_path true ([] ++ join (codes "a" ∷ codes ".." ∷ codes "b" ∷ []))
    ≡ or_root (
        text (
          resolve true
            (record { first = []; names = [] })
            (codes "a" ∷ codes ".." ∷ codes "b" ∷ [])))
collapse_path-resolve_example =
    collapse_path-resolve true [] (codes "a" ∷ codes ".." ∷ codes "b" ∷ []) tt
      ((refl, tt), ((refl, (refl, tt)), ((refl, tt), tt)))
