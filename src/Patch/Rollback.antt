-- ===== src/Patch/Rollback.antt =====
-- A session of edits and the `rollback` of it, from src/trimum_core/patch_ops.py (lines 195 to 259
-- and 588 to 615).
use trimum.Base.{
  ℕ, ◌+◌, ◌<◌, ◌≡◌, refl, ap, sym, ◌∙◌, Bool, Option, none, some, List, [], ◌∷◌, ◌++◌, reverse,
  length, length-append, Text, same, same_iff, same_refl, arith, Bool-cases, inl, inr,
}
use mathlib.Core.List.{reverse-append}
use mathlib.Core.Path.{fun_ext, subst}
use trimum.Patch.Session.{
  Outcome, returns, cwd_jail_violation, file_not_found, patch_rejected, Node, folder, file, Entry,
  Disk, update, or_no_entries, read_file, snap_name, snapshot_read, write_text, node_text, snapshot,
  write_edit, restore, rollback_loop, rollback_entries, rollback,
}

update_undo :
    {A : Type 0} (f : Text → A) (k : Text) (v w : A) → f k ≡ v → update (update f k w) k v ≡ f
update_undo f k v w h = fun_ext (λ j. at_key j)
  where
    at_key : (j : Text) → update (update f k w) k v j ≡ f j
    at_key j = elim (Bool-cases (same j k)) [
      | inl e ↦ rw e (sym h ∙ ap f (sym ((same_iff j k).0 e)))
      | inr e ↦ rw e refl
    ]

-- The entries, newest first, lead back to `base` and to a directory without snapshots.
Leads :
    (Text → Option Node)
    → List Text
    → List Entry
    → (Text → Option Node)
    → (Text → Option Text)
    → Type 0
Leads base [] [] nodes snaps = (nodes ≡ base) × (snaps ≡ (λ _. none))
Leads base (p ∷ ps) (e ∷ es) nodes snaps =
    (e.path ≡ p)
    × (t : Text) × (snaps e.snapshot ≡ some t)
    × Leads base ps es (update nodes e.path (some (file t))) (update snaps e.snapshot none)
Leads base _ _ nodes snaps = ⊥

Leads-rollback_loop :
    (base : Text → Option Node) (ps : List Text) (es : List Entry) (d : Disk)
    → Leads base ps es d.nodes d.snaps
    → rollback_loop es d
      ≡ (returns ps, record { nodes = base; snaps = λ _. none; entries = d.entries })
unfolding Leads rollback_loop
Leads-rollback_loop base [] [] d (a, b) =
    λ i. (returns [], record { nodes = a i; snaps = b i; entries = d.entries })
Leads-rollback_loop base (p ∷ ps) (e ∷ es) d (a, t, s, rest) =
    rw (rollback_loop, s, Leads-rollback_loop base ps es (restore e t d) rest, a) refl
Leads-rollback_loop base [] (e ∷ es) d h = absurd h
Leads-rollback_loop base (p ∷ ps) [] d h = absurd h

-- An edit that was refused is not among the edited paths.
abbrev note_edit : Text → List Text → Outcome Text × Disk → List Text × Disk
note_edit p ps (returns s, d) = (p ∷ ps, d)
note_edit p ps (r, d) = (ps, d)

module _ (guarded : Text → Bool) (basename : Text → Text) where
  -- The edits of a session, one after another: the paths that were written, newest first, on top
  -- of those of before, and the disk.
  unfoldable pub edit_all : List (Text × Text) → List Text → Disk → List Text × Disk
  edit_all [] ps d = (ps, d)
  edit_all (e ∷ es) ps d =
      let (ps', d') = note_edit e.0 ps (write_edit guarded basename e.0 e.1 d) in edit_all es ps' d'

  -- The session leads back to `base`, and the numbers above its entries are free.
  Undoes : (Text → Option Node) → List Text × Disk → Type 0
  Undoes base (ps, d) =
      Leads base ps (reverse (or_no_entries d.entries)) d.nodes d.snaps
      × ((k : ℕ) (b : Text) → length (or_no_entries d.entries) < k → d.snaps (k ∷ b) ≡ none)

  node_text-returns : (o : Option Node) (t : Text) → node_text o ≡ returns t → o ≡ some (file t)
  node_text-returns none t h = cc
  node_text-returns (some (folder)) t h = cc
  node_text-returns (some (file u)) t h = cc

  read_file-returns :
      (p t : Text) (d : Disk)
      → read_file guarded basename p d ≡ returns t
      → d.nodes p ≡ some (file t)
  unfolding read_file
  read_file-returns p t d h = elim (Bool-cases (guarded p)) [
    | inl e ↦ absurd (protected (rw e at h))
    | inr e ↦ node_text-returns (d.nodes p) t (rw e at h)
  ]
    where
      protected : cwd_jail_violation ≡ returns t → ⊥
      protected q = cc

  Undoes-edit :
      (base : Text → Option Node) (p new t : Text) (ps : List Text) (d : Disk)
      → Undoes base (ps, d)
      → d.nodes p ≡ some (file t)
      → Undoes base (
          note_edit p ps
            (write_text guarded basename p new (snapshot_read guarded basename p d (returns t))))
  unfolding Undoes Leads
  Undoes-edit base p new t ps d (leads, free) at_p = (
    rw (reverse-append es (entry ∷ [])) (
      refl,
      t,
      rw (same_refl nm) refl,
      rw
          (
            update_undo d.nodes p (some (file t)) (some (file new)) at_p,
            update_undo d.snaps nm none (some t) (free (length es + 1) (basename p) (omega arith)),
          )
          leads,
    ),
    still_free,
  )
    where
      es : List Entry
      es = or_no_entries d.entries

      nm : Text
      nm = snap_name guarded basename (length es + 1) p

      entry : Entry
      entry = record { n = length es + 1; path = p; snapshot = nm }

      apart : (k : ℕ) (b : Text) → length es + 1 < k → k ∷ b ≡ nm → ⊥
      apart k b below q = let same_number : k ≡ length es + 1 = cc in omega arith

      still_free :
          (k : ℕ) (b : Text)
          → length (es ++ entry ∷ []) < k
          → update d.snaps nm (some t) (k ∷ b) ≡ none
      still_free k b h =
          let below : length es + 1 < k = omega (arith, length-append es (entry ∷ [])) in
          elim (Bool-cases (same (k ∷ b) nm)) [
            | inl e ↦ absurd (apart k b below ((same_iff (k ∷ b) nm).0 e))
            | inr e ↦ rw e (free k b (omega arith))
          ]

  write_edit-Undoes :
      (base : Text → Option Node) (p new : Text) (ps : List Text) (d : Disk)
      → Undoes base (ps, d)
      → Undoes base (note_edit p ps (write_edit guarded basename p new d))
  unfolding write_edit snapshot
  write_edit-Undoes base p new ps d u = go (read_file guarded basename p d) refl
    where
      go :
          (r : Outcome Text)
          → read_file guarded basename p d ≡ r
          → Undoes base (
              note_edit p ps (
                write_text guarded basename p new
                  (snapshot_read guarded basename p d (read_file guarded basename p d))))
      go (returns t) e = rw e (Undoes-edit base p new t ps d u (read_file-returns p t d e))
      go (cwd_jail_violation) e = rw e u
      go (file_not_found) e = rw e u
      go (patch_rejected) e = rw e u

  edit_all-Undoes :
      (base : Text → Option Node) (es : List (Text × Text)) (ps : List Text) (d : Disk)
      → Undoes base (ps, d)
      → Undoes base (edit_all es ps d)
  unfolding edit_all
  edit_all-Undoes base [] ps d u = u
  edit_all-Undoes base (e ∷ es) ps d u =
      edit_all-Undoes base es _ _ (write_edit-Undoes base e.0 e.1 ps d u)

  rollback-Leads :
      (base : Text → Option Node) (p : Text) (ps : List Text) (d : Disk) (o : Option (List Entry))
      → Leads base (p ∷ ps) (reverse (or_no_entries o)) d.nodes d.snaps
      → rollback_entries o d
        ≡ (returns (p ∷ ps), record { nodes = base; snaps = λ _. none; entries = d.entries })
  unfolding Leads
  rollback-Leads base p ps d none u = absurd u
  rollback-Leads base p ps d (some es) u = Leads-rollback_loop base (p ∷ ps) (reverse es) d u

  -- After any edits of a session that starts without entries and copies, some of which were
  -- written, `rollback` returns the written paths, newest first, once for every edit, and puts
  -- every file back to what it was before the session, and removes all copies.
  pub rollback-edit_all :
      (es : List (Text × Text)) (d d' : Disk) (p : Text) (ps : List Text)
      → or_no_entries d.entries ≡ []
      → d.snaps ≡ (λ _. none)
      → edit_all es [] d ≡ (p ∷ ps, d')
      → rollback d'
        ≡ (returns (p ∷ ps), record { nodes = d.nodes; snaps = λ _. none; entries = d'.entries })
  unfolding rollback Undoes Leads
  rollback-edit_all es d d' p ps no_entries no_snaps run =
      rollback-Leads d.nodes p ps d' d'.entries (ended.0)
    where
      fresh : Undoes d.nodes ([], d)
      fresh = (rw no_entries (refl, no_snaps), λ k b _. ap (λ f. f (k ∷ b)) no_snaps)

      ended : Undoes d.nodes (p ∷ ps, d')
      ended = subst (Undoes d.nodes) run (edit_all-Undoes d.nodes es [] d fresh)
