-- ===== src/Workflow/Kahn.antt =====
-- The loop that `validate_dag` and `topological_sort` of src/trimum_core/workflow_engine.py (lines
-- 256 to 344) share.
use trimum.Base.{
  member_snoc, Nodup-snoc, ℕ, ◌+◌, ◌-◌, ◌≤◌, ◌<◌, ◌≡◌, ap, ◌⊎◌, inl, inr, ◌==◌, Bool, true, false,
  ◌&&◌, ◌||◌, List, [], ◌∷◌, ◌++◌, if◌then◌else◌, Text, same, same_iff, member, Nodup, arith,
  Bool-cases, ==_iff,
}
use trimum.Base.Dict.{Dict, insert}
use trimum.Workflow.Dag.{degree, lower_all}
use trimum.Workflow.Counts.{occurrences, degree-insert}

-- In the inner loop: the targets that are left, `in_degree` and the queue.
pub record Lowering (ms : List Text) (d : Dict ℕ) (q : List Text) : Type 0 where
  pub enough : (m : Text) → occurrences m ms ≤ degree m d
  pub spent : (m : Text) → member m q ≡ true → degree m d ≡ 0
  pub once : Nodup q

-- Behind it: each target is lowered, and those that reach 0 are in the queue.
pub record Lowered (ms : List Text) (d : Dict ℕ) (q : List Text) (d' : Dict ℕ) (q' : List Text)
    : Type 0 where
  pub lowered : (m : Text) → degree m d ≡ degree m d' + occurrences m ms
  pub spent : (m : Text) → member m q' ≡ true → degree m d' ≡ 0
  pub once : Nodup q'
  pub kept : (m : Text) → member m q ≡ true → member m q' ≡ true
  pub freed : (m : Text) → 0 < occurrences m ms → degree m d' ≡ 0 → member m q' ≡ true
  pub only : (m : Text) → member m q' ≡ true → (member m q ≡ true) ⊎ (0 < occurrences m ms)

member-snoc_if :
    (b : Bool) (j m : Text) (q : List Text)
    → member j (if b then q ++ m ∷ [] else q) ≡ (member j q || b && same j m)
member-snoc_if true j m q = member_snoc j m q
member-snoc_if false j m q = ground arith

Nodup-snoc_if :
    (b : Bool) (m : Text) (q : List Text)
    → Nodup q
    → member m q ≡ false
    → Nodup (if b then q ++ m ∷ [] else q)
Nodup-snoc_if true m q h g = Nodup-snoc m q h g
Nodup-snoc_if false m q h g = h

Lowering-next :
    (m : Text) (ms : List Text) (d : Dict ℕ) (q : List Text)
    → Lowering (m ∷ ms) d q
    → Lowering ms (insert m (degree m d - 1) d) (if degree m d - 1 == 0 then q ++ m ∷ [] else q)
Lowering-next m ms d q l = record {
  enough = λ j. ground (
    arith,
    l.enough j,
    degree-insert j m (degree m d - 1) d,
    same_iff j m,
    same_iff m j,
    ap (λ t. degree t d),
  );
  spent = λ j h. ground (
    arith,
    member-snoc_if (degree m d - 1 == 0) j m q,
    l.spent j,
    degree-insert j m (degree m d - 1) d,
    ==_iff (degree m d - 1) 0,
    same_iff j m,
    ap (λ t. degree t d),
  );
  once =
      Nodup-snoc_if (degree m d - 1 == 0) m q l.once
        (ground (arith, l.spent m, l.enough m, same_iff m m));
}

pub lower_all-Lowered :
    (ms : List Text) (d : Dict ℕ) (q : List Text)
    → Lowering ms d q
    → Lowered ms d q (lower_all ms d q).0 (lower_all ms d q).1
unfolding lower_all
lower_all-Lowered [] d q l = record {
  lowered = λ m. omega arith;
  spent = l.spent;
  once = l.once;
  kept = λ m h. h;
  freed = λ m h g. absurd (omega arith);
  only = λ m h. inl h;
}
lower_all-Lowered (m ∷ ms) d q l =
    let k = degree m d - 1 in
    let q' = if k == 0 then q ++ m ∷ [] else q in
    let r = lower_all-Lowered ms (insert m k d) q' (Lowering-next m ms d q l) in
    record {
      lowered = λ j. ground (
        arith,
        r.lowered j,
        l.enough j,
        degree-insert j m k d,
        same_iff j m,
        same_iff m j,
        ap (λ t. degree t d),
      );
      spent = r.spent;
      once = r.once;
      kept = λ j h. r.kept j (ground (arith, member-snoc_if (k == 0) j m q));
      freed = λ j h g. back j h g r;
      only = λ j h. forth j (r.only j h);
    }
  where
    back :
        (j : Text)
        → 0 < occurrences j (m ∷ ms)
        → degree j (lower_all (m ∷ ms) d q).0 ≡ 0
        → Lowered ms
            (insert m (degree m d - 1) d)
            (if degree m d - 1 == 0 then q ++ m ∷ [] else q)
            (lower_all (m ∷ ms) d q).0
            (lower_all (m ∷ ms) d q).1
        → member j (lower_all (m ∷ ms) d q).1 ≡ true
    back j h g r = elim (Bool-cases (same m j)) [
      | inl e ↦ ground (
        arith,
        r.freed j,
        r.kept j,
        r.lowered j,
        g,
        degree-insert j m (degree m d - 1) d,
        member-snoc_if (degree m d - 1 == 0) j m q,
        ==_iff (degree m d - 1) 0,
        same_iff m j,
        same_iff j m,
      )
      | inr e ↦ r.freed j (ground arith) g
    ]

    forth :
        (j : Text)
        → (member j (if degree m d - 1 == 0 then q ++ m ∷ [] else q) ≡ true)
          ⊎ (0 < occurrences j ms)
        → (member j q ≡ true) ⊎ (0 < occurrences j (m ∷ ms))
    forth j (inl h) =
        ground (arith, member-snoc_if (degree m d - 1 == 0) j m q, same_iff j m, same_iff m j)
    forth j (inr h) = inr (ground arith)
