-- ===== src/Tarl/Examples.antt =====
-- Concrete lines (src/trimum_core/tarl_parser.py), and workflows that they match.
use trimum.Base.{
  ℕ, ◌≡◌, refl, none, some, List, [], ◌∷◌, if◌then◌else◌, Text, codes, same, nonempty,
}
use trimum.Base.Strings.{join_spaced}
use trimum.Base.Dict.{lookup, insert}
use trimum.Tarl.Lines.{parse_line, merge_snapshot}
use trimum.Tarl.Messages.{parse_multi, serialize_multi, build_snapshot}
use trimum.Tarl.Match.{Rules, exact, match_workflow_by_tarl}
use trimum.Tarl.Merge.{lookup-merge_snapshot}
use trimum.Tarl.Sorted.{or_else}
use trimum.Tarl.Best.{IsBest, match-IsBest}

abbrev parent_line : Text
parent_line = codes "snapshot:a workspace:/w"

abbrev child_line : Text
child_line = codes " snapshot:b  target:x "

merged : merge_snapshot parent_line child_line ≡ codes "snapshot:b target:x workspace:/w"
unfolding merge_snapshot same insert join_spaced
merged = refl

lookup-merge_snapshot_example :
    lookup (codes "snapshot") (parse_line (merge_snapshot parent_line child_line)) ≡ (
      if nonempty (codes "snapshot")
      then or_else
          (lookup (codes "snapshot") (parse_line child_line))
          (lookup (codes "snapshot") (parse_line parent_line))
      else none)
lookup-merge_snapshot_example = lookup-merge_snapshot (codes "snapshot") parent_line child_line

-- Two workflows, named by numbers.
abbrev registered : List (Rules × ℕ)
registered =
    ((codes "cmd", exact (codes "go")) ∷ [], 1)
    ∷ ((codes "cmd", exact (codes "go")) ∷ (codes "to", exact (codes "x")) ∷ [], 2)
    ∷ []

picked : match_workflow_by_tarl registered (codes "cmd:go to:x") ≡ some 2
unfolding match_workflow_by_tarl same lookup insert
picked = refl

match-IsBest_example :
    IsBest
      (codes "cmd:go to:x")
      registered
      (match_workflow_by_tarl registered (codes "cmd:go to:x"))
match-IsBest_example = match-IsBest registered (codes "cmd:go to:x")

-- The pattern that the documentation gives for a prefix.
no_pairs : parse_line (codes "cmd.*") ≡ []
unfolding parse_line
no_pairs = refl

two_messages : serialize_multi (parse_multi (codes "b:2 a:1\n\nc:3")) ≡ codes "a:1 b:2\nc:3"
unfolding serialize_multi parse_multi same insert join_spaced
two_messages = refl

snapshot :
    build_snapshot (codes "c1") (codes "/w") [] (codes "t") [] []
    ≡ codes "snapshot:c1 target:t workspace:/w"
unfolding build_snapshot same insert join_spaced
snapshot = refl
