-- ===== src/Audit/Growth.antt =====
-- A log that only `AuditStore.append` of src/trimum_core/audit_store.py (lines 314 to 353) writes.
use trimum.Base.{
  ◌≡◌, ◌∙◌, refl, ap, sym, Bool, true, false, Option, none, some, List, [], ◌∷◌, ◌++◌, map,
  append_assoc, Text,
}
use trimum.Audit.Chain.{Signed, Line, signed}
use trimum.Audit.Store.{
  Disk, or_no_lines, last_line, tail_hmac, current_prev_hash, rotate, or_marker, sign, write_line,
  append, all_lines, checked, verify_chain,
}
use trimum.Audit.Accepted.{Genuine, IsLinked, IsChain, verify_iff}

abbrev lines : List Signed → List Line
lines rs = map (λ r. signed r) rs

-- The signature of the last record.
abbrev last_of : Text → List Signed → Text
last_of h [] = h
last_of h (r ∷ rs) = last_of r.hmac rs

lines-append : (xs ys : List Signed) → lines (xs ++ ys) ≡ lines xs ++ lines ys
lines-append [] ys = refl
lines-append (x ∷ xs) ys = ap (λ l. signed x ∷ l) (lines-append xs ys)

last-append :
    (h : Text) (bs : List Signed) (r : Signed) (rs : List Signed)
    → last_of h (bs ++ r ∷ rs) ≡ last_of r.hmac rs
last-append h [] r rs = refl
last-append h (b ∷ bs) r rs = last-append b.hmac bs r rs

tail_of : (r : Signed) (rs : List Signed) → tail_hmac (lines (r ∷ rs)) ≡ some (last_of r.hmac rs)
unfolding tail_hmac
tail_of r rs = let (q, e, h) = found r rs in rw e (ap some h)
  where
    found :
        (r : Signed) (rs : List Signed)
        → (q : Signed) × (last_line (lines (r ∷ rs)) ≡ some (signed q))
          × (q.hmac ≡ last_of r.hmac rs)
    found r [] = (r, refl, refl)
    found r (s ∷ rs) = let (q, e, h) = found s rs in (q, rw e refl, h)

module _ (hash : Text → Text → Option Text → Text) where
  Linked-snoc :
      (h : Text) (rs : List Signed) (r : Signed)
      → IsLinked hash h (lines rs)
      → Genuine hash r
      → r.prev_hash ≡ some (last_of h rs)
      → IsLinked hash h (lines (rs ++ r ∷ []))
  Linked-snoc h [] r l g p = (g, p, tt)
  Linked-snoc h (s ∷ rs) r l g p = (l.0, l.1, Linked-snoc s.hmac rs r l.2 g p)

  Chain-snoc :
      (s : Signed) (rs : List Signed) (r : Signed)
      → IsChain hash (lines (s ∷ rs))
      → Genuine hash r
      → r.prev_hash ≡ some (last_of s.hmac rs)
      → IsChain hash (lines (s ∷ rs ++ r ∷ []))
  Chain-snoc s rs r l g p = (l.0, Linked-snoc s.hmac rs r l.1 g p)

  -- The second part of a chain is a chain.
  Linked_suffix :
      (h : Text) (bs : List Signed) (r : Signed) (rs : List Signed)
      → IsLinked hash h (lines (bs ++ r ∷ rs))
      → IsChain hash (lines (r ∷ rs))
  Linked_suffix h [] r rs l = (l.0, l.2)
  Linked_suffix h (b ∷ bs) r rs l = Linked_suffix b.hmac bs r rs l.2

  Chain_suffix :
      (bs : List Signed) (r : Signed) (rs : List Signed)
      → IsChain hash (lines (bs ++ r ∷ rs))
      → IsChain hash (lines (r ∷ rs))
  Chain_suffix [] r rs l = l
  Chain_suffix (b ∷ bs) r rs l = Linked_suffix b.hmac bs r rs l.1

  -- A log with at least one record in its main file.
  record Grown (d : Disk) : Type 0 where
    old : List Signed
    first : Signed
    rest : List Signed
    in_backup : or_no_lines d.backup ≡ lines old
    in_main : d.main ≡ some (lines (first ∷ rest))
    chain : IsChain hash (lines (old ++ first ∷ rest))
    anchor : Text
    anchored : d.marker ≡ some anchor

  prev_known : (d : Disk) (g : Grown d) → current_prev_hash d ≡ last_of g.first.hmac g.rest
  unfolding current_prev_hash
  prev_known d g = rw (g.in_main, tail_of g.first g.rest) refl

  Chain_end :
      (old : List Signed) (first : Signed) (rest : List Signed) (r : Signed)
      → IsChain hash (lines (old ++ first ∷ rest))
      → Genuine hash r
      → r.prev_hash ≡ some (last_of first.hmac rest)
      → IsChain hash (lines (old ++ first ∷ (rest ++ r ∷ [])))
  Chain_end [] first rest r c g p = Chain-snoc first rest r c g p
  Chain_end (b ∷ old) first rest r c g p =
      let longer =
        Chain-snoc b (old ++ first ∷ rest) r c g
          (p ∙ ap some (sym (last-append b.hmac old first rest))) in
      let e = append_assoc old (first ∷ rest) (r ∷ []) in rw e at longer

  write-Grown :
      (full : Bool) (d : Disk) (r : Signed)
      → (g : Grown d) → Genuine hash r
      → r.prev_hash ≡ some (last_of g.first.hmac g.rest)
      → Grown (write_line hash r (rotate full d))
  write-Grown false d r g h p = record {
    old = g.old;
    first = g.first;
    rest = g.rest ++ r ∷ [];
    in_backup = g.in_backup;
    in_main =
        ap (λ m. some (or_no_lines m ++ signed r ∷ [])) g.in_main
        ∙ ap some (sym (lines-append (g.first ∷ g.rest) (r ∷ [])));
    chain = Chain_end g.old g.first g.rest r g.chain h p;
    anchor = g.anchor;
    anchored = ap (λ m. or_marker m r.hmac) g.anchored;
  }
  write-Grown true d r g h p = record {
    old = g.first ∷ g.rest;
    first = r;
    rest = [];
    in_backup = rw g.in_main refl;
    in_main = rw g.in_main refl;
    chain = Chain-snoc g.first g.rest r (Chain_suffix g.old g.first g.rest g.chain) h p;
    anchor = g.anchor;
    anchored = rw g.in_main (ap (λ m. or_marker m r.hmac) g.anchored);
  }

  append-Grown :
      (full : Bool) (event_id content : Text) (d : Disk)
      → Grown d
      → Grown (append hash full event_id content d)
  unfolding append
  append-Grown full event_id content d g =
      write-Grown full d (sign hash event_id content (current_prev_hash d)) g refl
        (ap some (prev_known d g))

  abbrev pub empty_disk : Disk
  empty_disk = record { backup = none; main = none; marker = none }

  first-Grown :
      (full : Bool) (event_id content : Text) → Grown (append hash full event_id content empty_disk)
  unfolding append current_prev_hash tail_hmac
  first-Grown full event_id content = on full
    where
      new : Signed
      new = sign hash event_id content []

      on : (full : Bool) → Grown (write_line hash new (rotate full empty_disk))
      on false = record {
        old = [];
        first = new;
        rest = [];
        in_backup = refl;
        in_main = refl;
        chain = (refl, tt);
        anchor = new.hmac;
        anchored = refl;
      }
      on true = record {
        old = [];
        first = new;
        rest = [];
        in_backup = refl;
        in_main = refl;
        chain = (refl, tt);
        anchor = new.hmac;
        anchored = refl;
      }

  -- The calls of `append`, the first one last: of each whether the file was full, and the event.
  abbrev pub append_all : List (Bool × Text × Text) → Disk
  append_all [] = empty_disk
  append_all (e ∷ es) = append hash e.0 e.1 e.2 (append_all es)

  append_all-Grown :
      (e : Bool × Text × Text) (es : List (Bool × Text × Text)) → Grown (append_all (e ∷ es))
  append_all-Grown e [] = first-Grown e.0 e.1 e.2
  append_all-Grown e (f ∷ es) =
      append-Grown e.0 e.1 e.2 (append_all (f ∷ es)) (append_all-Grown f es)

  Grown-verifies : (d : Disk) → Grown d → verify_chain hash d ≡ checked []
  unfolding verify_chain
  Grown-verifies d g = rw g.anchored (ap checked ((verify_iff hash g.anchor (all_lines d)).1 whole))
    where
      whole : IsChain hash (all_lines d)
      whole =
          let e : all_lines d ≡ lines (g.old ++ g.first ∷ g.rest) =
            rw (g.in_backup, g.in_main) (sym (lines-append g.old (g.first ∷ g.rest))) in
          rw (sym e) at g.chain

  -- A log that only `append` wrote, of at least one event, is accepted without an error, however often
  -- the file was full.
  pub append_all_verifies :
      (e : Bool × Text × Text) (es : List (Bool × Text × Text))
      → verify_chain hash (append_all (e ∷ es)) ≡ checked []
  append_all_verifies e es = Grown-verifies (append_all (e ∷ es)) (append_all-Grown e es)
