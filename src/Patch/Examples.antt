-- ===== src/Patch/Examples.antt =====
-- Concrete patches and sessions of src/trimum_core/patch_ops.py.
use trimum.Base.{
  true, ◌≡◌, ◌⊎◌, refl, Bool, false, none, some, List, [], ◌∷◌, Text, codes, All, same,
  if◌then◌else◌,
}
use trimum.Patch.Lines.{split_lines}
use trimum.Patch.Hunks.{accepted, context, removed, added, BodyLine, apply_hunks, old_len}
use trimum.Patch.Splice.{old_side, new_side}
use trimum.Patch.Apply.{
  Patched, done, hunk, IsBalanced, line, two_hunks, apply_hunks-Patched, apply_hunks_misplaces,
}
use trimum.Patch.Session
use trimum.Patch.Session.{
  returns, Node, file, Entry, Disk, rollback, write_edit, read_file, snapshot,
}
use trimum.Patch.Anchor.{Edit, replace_anchor, Wrote, replace_anchor-write_edit}
use trimum.Patch.Rollback.{edit_all, rollback-edit_all}

abbrev text : Text
text = codes "a\r\nb\n\nc"

split_text : split_lines text ≡ codes "a\r\n" ∷ codes "b\n" ∷ codes "\n" ∷ codes "c" ∷ []
unfolding split_lines
split_text = refl

abbrev change : List BodyLine
change = line context (codes "a") ∷ line removed (codes "b") ∷ line added (codes "x") ∷ []

abbrev old_file : List Text
old_file = codes "a" ∷ codes "b" ∷ codes "c" ∷ []

abbrev new_file : List Text
new_file = codes "a" ∷ codes "x" ∷ codes "c" ∷ []

change-Patched : Patched 0 old_file (record { start = 1; body = change } ∷ []) new_file
unfolding old_side new_side old_len
change-Patched = hunk 0 [] (codes "c" ∷ []) change [] (codes "c" ∷ []) (done 2 (codes "c" ∷ []))

change-IsBalanced : All IsBalanced (record { start = 1; body = change } ∷ [])
unfolding new_side old_len
change-IsBalanced = (refl, tt)

apply_hunks-Patched_example :
    apply_hunks old_file (record { start = 1; body = change } ∷ []) ≡ accepted new_file
apply_hunks-Patched_example =
    apply_hunks-Patched old_file new_file (record { start = 1; body = change } ∷ []) change-Patched
      change-IsBalanced

apply_hunks_misplaces_example :
    Patched 0
      (codes "a" ∷ codes "b" ∷ codes "c" ∷ [])
      (two_hunks (codes "a") (codes "b") (codes "c") (codes "x") (codes "y"))
      (codes "x" ∷ codes "a" ∷ codes "b" ∷ codes "y" ∷ [])
    × (apply_hunks
          (codes "a" ∷ codes "b" ∷ codes "c" ∷ [])
          (two_hunks (codes "a") (codes "b") (codes "c") (codes "x") (codes "y"))
        ≡ accepted (codes "x" ∷ codes "a" ∷ codes "y" ∷ codes "c" ∷ []))
apply_hunks_misplaces_example =
    apply_hunks_misplaces (codes "a") (codes "b") (codes "c") (codes "x") (codes "y") []

abbrev unguarded : Text → Bool
unguarded path = false

-- The name of a path that has no folders.
abbrev plain_name : Text → Text
plain_name path = path

abbrev start_disk : Disk
start_disk = record {
  nodes = λ p. if same p (codes "f") then some (file (codes "one")) else none;
  snaps = λ _. none;
  entries = none;
}

-- Two edits of one file, with one of a missing file between them.
abbrev edits : List (Text × Text)
edits = (codes "f", codes "two") ∷ (codes "g", codes "new") ∷ (codes "f", codes "three") ∷ []

abbrev ended : Disk
ended = (edit_all unguarded plain_name edits [] start_disk).1

edits_lem : edit_all unguarded plain_name edits [] start_disk ≡ (codes "f" ∷ codes "f" ∷ [], ended)
unfolding edit_all write_edit snapshot read_file same
edits_lem = refl

rollback-edit_all_example : rollback ended ≡ (
  Session.returns (codes "f" ∷ codes "f" ∷ []),
  record { nodes = start_disk.nodes; snaps = λ _. none; entries = ended.entries },
)
rollback-edit_all_example =
    rollback-edit_all unguarded plain_name edits start_disk ended (codes "f") (codes "f" ∷ []) refl
      refl edits_lem

abbrev one_to_two : Edit
one_to_two = record {
  anchor = codes "ne";
  replacement = codes "nly";
  count = 1;
  dry_run = false;
  in_session = true;
}

replace_anchor-write_edit_example :
    ((replace_anchor unguarded plain_name (codes "f") one_to_two start_disk).1 ≡ start_disk)
    ⊎ ((old : Text) × (read_file unguarded plain_name (codes "f") start_disk ≡ returns old)
        × Wrote unguarded plain_name
            (codes "f")
            one_to_two
            old
            start_disk
            (replace_anchor unguarded plain_name (codes "f") one_to_two start_disk).1)
replace_anchor-write_edit_example =
    replace_anchor-write_edit unguarded plain_name (codes "f") one_to_two start_disk
