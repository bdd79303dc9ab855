-- ===== src/Audit/Accepted.antt =====
-- Which logs `verify_chain_files` of src/trimum_core/sec_monitor.py (lines 364 to 465) accepts, as
-- src/trimum_core/audit_store.py calls it.
use trimum.Base.{
  ◌≡◌, ◌↔◌, refl, inl, inr, Bool, true, false, ◌||◌, Option, none, some, List, [], ◌∷◌, ◌++◌,
  if◌then◌else◌, Text, same, same_iff, arith, Bool-cases,
}
use trimum.Audit.Chain.{
  Signed, Line, blank, malformed, legacy, signed, ChainError, Progress, at_start, on_anchor,
  is_genuine, is_text, is_set, check_link, check_hmac, seek_start, follow, check_line, check_lines,
  verify_chain_files,
}
use trimum.Audit.Store.{store_options}

nil-append :
    (xs ys zs : List ChainError) → ((xs ++ ys) ++ zs ≡ []) ↔ ((xs ≡ []) × (ys ≡ []) × (zs ≡ []))
nil-append [] [] zs = (λ q. (refl, refl, q), λ q. q.2)
nil-append [] (y ∷ ys) zs = (λ q. absurd cc, λ q. let no = q.1 in absurd cc)
nil-append (x ∷ xs) ys zs = (λ q. absurd cc, λ q. let no = q.0 in absurd cc)

no_error : (b : Bool) (e : ChainError) → ((if b then [] else e ∷ []) ≡ []) ↔ (b ≡ true)
no_error true e = (λ q. refl, λ q. refl)
no_error false e = (λ q. absurd cc, λ q. absurd cc)

is_text_iff : (o : Option Text) (t : Text) → (is_text o t || false ≡ true) ↔ (o ≡ some t)
is_text_iff none t = (λ q. absurd cc, λ q. absurd cc)
is_text_iff (some s) t = (λ q. ground (arith, same_iff s t), λ q. ground (arith, same_iff s t))

module _ (hash : Text → Text → Option Text → Text) where
  abbrev pub Genuine : Signed → Type 0
  Genuine r = r.hmac ≡ hash r.event_id r.content r.prev_hash

  -- Behind a line with the signature `h`: each line is blank, or signed and linked to the one before.
  abbrev pub IsLinked : Text → List Line → Type 0
  IsLinked h [] = Unit
  IsLinked h (blank ∷ ls) = IsLinked h ls
  IsLinked h (malformed ∷ ls) = ⊥
  IsLinked h (legacy i ∷ ls) = ⊥
  IsLinked h (signed r ∷ ls) = Genuine r × (r.prev_hash ≡ some h) × IsLinked r.hmac ls

  -- Old lines without a signature, and then a chain.
  abbrev pub IsChain : List Line → Type 0
  IsChain [] = ⊥
  IsChain (blank ∷ ls) = IsChain ls
  IsChain (malformed ∷ ls) = ⊥
  IsChain (legacy i ∷ ls) = IsChain ls
  IsChain (signed r ∷ ls) = Genuine r × IsLinked r.hmac ls

  -- The progress behind a signed line.
  abbrev behind : Text → Progress
  behind h = record { prev_hmac = h; chain_started = true; anchor_seen = true }

  Genuine-iff : (r : Signed) → (is_genuine hash r ≡ true) ↔ Genuine r
  unfolding is_genuine
  Genuine-iff r = same_iff r.hmac (hash r.event_id r.content r.prev_hash)

  check-IsLinked :
      (m h : Text) (ls : List Line)
      → (check_lines hash (store_options (some m)) ls (behind h) ≡ []) ↔ IsLinked h ls
  unfolding check_lines check_line follow
  check-IsLinked m h [] = (λ q. tt, λ q. refl)
  check-IsLinked m h (blank ∷ ls) = check-IsLinked m h ls
  check-IsLinked m h (malformed ∷ ls) = (λ q. absurd cc, λ q. absurd q)
  check-IsLinked m h (legacy i ∷ ls) = (λ q. absurd cc, λ q. absurd q)
  check-IsLinked m h (signed r ∷ ls) =
      let rest = check-IsLinked m r.hmac ls in
      let link = is_text r.prev_hash h || false in
      let all =
        nil-append (check_link hash link r) (check_hmac hash r)
          (check_lines hash (store_options (some m)) ls (behind r.hmac)) in
      let good = no_error (is_genuine hash r) (ChainError.hmac_mismatch r.event_id) in
      let joined = no_error link (ChainError.chain_broken r.event_id) in
      (
        λ q.
            let (a, b, c) = all.0 q in
            ((Genuine-iff r).0 (good.0 b), (is_text_iff r.prev_hash h).0 (joined.0 a), rest.0 c),
        λ q. all.1 (
          joined.1 ((is_text_iff r.prev_hash h).1 q.1),
          good.1 ((Genuine-iff r).1 q.0),
          rest.1 q.2,
        ),
      )

  -- The start of the chain is the line that the anchor names, or else the first line that is signed.
  start_found :
      (m : Text) (r : Signed)
      → ((seek_start hash (store_options (some m)) r at_start).0 ≡ check_hmac hash r)
        × ((seek_start hash (store_options (some m)) r at_start).1 ≡ on_anchor r)
  unfolding seek_start
  start_found m r = elim (Bool-cases (same m r.hmac)) [
    | inl q ↦ rw q (refl, refl)
    | inr q ↦ rw q (ground (arith, Bool-cases (is_set r.prev_hash)), refl)
  ]

  check-IsChain :
      (m : Text) (ls : List Line)
      → (check_lines hash (store_options (some m)) ls at_start ≡ []) ↔ IsChain ls
  unfolding check_lines check_line
  check-IsChain m [] = (λ q. absurd cc, λ q. absurd q)
  check-IsChain m (blank ∷ ls) = check-IsChain m ls
  check-IsChain m (malformed ∷ ls) = (λ q. absurd cc, λ q. absurd q)
  check-IsChain m (legacy i ∷ ls) = check-IsChain m ls
  check-IsChain m (signed r ∷ ls) =
      let rest = check-IsLinked m r.hmac ls in
      let start = start_found m r in
      let all =
        nil-append [] (check_hmac hash r)
          (check_lines hash (store_options (some m)) ls (behind r.hmac)) in
      let good = no_error (is_genuine hash r) (ChainError.hmac_mismatch r.event_id) in
      rw (start.0, start.1)
        (
          λ q. let (a, b, c) = all.0 q in ((Genuine-iff r).0 (good.0 b), rest.0 c),
          λ q. all.1 (refl, good.1 ((Genuine-iff r).1 q.0), rest.1 q.1),
        )

  -- With an anchor, whatever it says, and the options of the store, no error is found exactly in the
  -- logs that are old lines without a signature and then a chain.
  pub verify_iff :
      (m : Text) (ls : List Line)
      → (verify_chain_files hash (store_options (some m)) ls ≡ []) ↔ IsChain ls
  unfolding verify_chain_files
  verify_iff m ls = check-IsChain m ls
