-- ===== src/Patch/Session.antt =====
-- `snapshot`, the write of an edit and `rollback`, from src/trimum_core/patch_ops.py (lines 195
-- to 259 and 588 to 615), for the files and one session directory. A snapshot's name
-- `f"{n:04d}-{name}"` is the list of the number and the characters of the name, which determines
-- that text. `guarded` is `_check_protected`, and paths are resolved.
use trimum.Base.{
  ℕ, ◌+◌, Bool, Option, none, some, List, [], ◌∷◌, ◌++◌, reverse, if◌then◌else◌, length, Text, same,
}

pub data Outcome (A : Type 0) : Type 0 where
  returns : A → Outcome A
  cwd_jail_violation file_not_found patch_rejected : Outcome A

-- What stands at a path.
pub data Node : Type 0 where
  folder : Node
  file : Text → Node

-- An entry of session.json.
pub record Entry : Type 0 where
  pub n : ℕ
  pub path : Text
  pub snapshot : Text

-- `entries` is `none` before session.json is first written.
pub record Disk : Type 0 where
  pub nodes : Text → Option Node
  pub snaps : Text → Option Text
  pub entries : Option (List Entry)

abbrev pub update {ℓ} : {A : Type ℓ} → (Text → A) → Text → A → Text → A
update f k v j = if same j k then v else f j

abbrev pub or_no_entries : Option (List Entry) → List Entry
or_no_entries none = []
or_no_entries (some es) = es

abbrev pub node_text : Option Node → Outcome Text
node_text none = file_not_found
node_text (some (folder)) = patch_rejected
node_text (some (file t)) = returns t

module _ (guarded : Text → Bool) (basename : Text → Text) where
  -- `_read`: the path is there, is no directory, and is not protected; its content.
  unfoldable pub read_file : Text → Disk → Outcome Text
  read_file path d = if guarded path then cwd_jail_violation else node_text (d.nodes path)

  abbrev pub snap_name : ℕ → Text → Text
  snap_name n path = n ∷ basename path

  -- The new entry and the copy, for content `t`.
  abbrev pub take_snapshot : Text → Text → Disk → Disk
  take_snapshot path t d =
      let es = or_no_entries d.entries in
      let n = length es + 1 in
      record d {
        snaps = update d.snaps (snap_name n path) (some t);
        entries = some (es ++ record { n = n; path = path; snapshot = snap_name n path } ∷ []);
      }

  abbrev pub snapshot_read : Text → Disk → Outcome Text → Outcome Text × Disk
  snapshot_read path d (returns t) =
      (returns (snap_name (length (or_no_entries d.entries) + 1) path), take_snapshot path t d)
  snapshot_read path d r = (r, d)

  unfoldable pub snapshot : Text → Disk → Outcome Text × Disk
  snapshot path d = snapshot_read path d (read_file path d)

  abbrev pub write_text : Text → Text → Outcome Text × Disk → Outcome Text × Disk
  write_text path new (returns s, d) =
      (returns s, record d { nodes = update d.nodes path (some (file new)) })
  write_text path new (r, d) = (r, d)

  -- The end of `replace_anchor` and of `apply_difference`: the snapshot, and the new text.
  unfoldable pub write_edit : Text → Text → Disk → Outcome Text × Disk
  unfolding snapshot
  write_edit path new d = write_text path new (snapshot path d)

abbrev pub prepend : Text → Outcome (List Text) × Disk → Outcome (List Text) × Disk
prepend p (returns ps, d) = (returns (p ∷ ps), d)
prepend p (r, d) = (r, d)

-- One turn of `rollback`: the file gets the copy's content, and the copy is removed.
abbrev pub restore : Entry → Text → Disk → Disk
restore e t d = record d {
  nodes = update d.nodes e.path (some (file t));
  snaps = update d.snaps e.snapshot none;
}

-- The loop of `rollback`, on the entries in the order in which it visits them.
unfoldable pub rollback_loop : List Entry → Disk → Outcome (List Text) × Disk
rollback_loop [] d = (returns [], d)
rollback_loop (e ∷ es) d = elim (d.snaps e.snapshot) [
  | none ↦ (file_not_found, d)
  | some t ↦ prepend e.path (rollback_loop es (restore e t d))
]

abbrev pub rollback_entries : Option (List Entry) → Disk → Outcome (List Text) × Disk
rollback_entries none d = (file_not_found, d)
rollback_entries (some es) d = rollback_loop (reverse es) d

unfoldable pub rollback : Disk → Outcome (List Text) × Disk
unfolding rollback_loop
rollback d = rollback_entries d.entries d
