-- ===== src/Audit/Chain.antt =====
-- `AuditChainVerifier.verify_chain_files` of src/trimum_core/sec_monitor.py (lines 364 to 465), on the
-- lines of all files one after another. `hash` is `compute_hash`: an HMAC of all fields but `hmac`.
-- A line of JSON that is no object, on which the code raises, is not among the lines.
use trimum.Base.{
  Bool, true, false, not, ◌&&◌, ◌||◌, Option, none, some, List, [], ◌∷◌, ◌++◌, if◌then◌else◌, Text,
  same,
}

-- A record with its signature; `content` holds the other fields.
pub record Signed : Type 0 where
  pub event_id : Text
  pub content : Text
  pub prev_hash : Option Text
  pub hmac : Text

pub data Line : Type 0 where
  blank malformed : Line
  legacy : Text → Line
  signed : Signed → Line

pub data ChainError : Type 0 where
  malformed_record : ChainError
  hmac_mismatch chain_broken missing_hmac start_missing : Text → ChainError
  start_not_found : ChainError

pub record Options : Type 0 where
  pub tolerate_legacy : Bool
  pub chain_start_hmac : Option Text
  pub allow_missing_anchor : Bool
  pub allow_stale_anchor : Bool

-- The local variables of the loop but for the errors.
pub record Progress : Type 0 where
  pub prev_hmac : Text
  pub chain_started : Bool
  pub anchor_seen : Bool

abbrev pub at_start : Progress
at_start = record { prev_hmac = []; chain_started = false; anchor_seen = false }

abbrev pub on_chain : Signed → Progress → Progress
on_chain r p = record { prev_hmac = r.hmac; chain_started = true; anchor_seen = p.anchor_seen }

abbrev pub on_anchor : Signed → Progress
on_anchor r = record { prev_hmac = r.hmac; chain_started = true; anchor_seen = true }

abbrev pub is_text : Option Text → Text → Bool
is_text none t = false
is_text (some s) t = same s t

-- `record.get("prev_hash") not in (None, "")`
abbrev pub is_set : Option Text → Bool
is_set none = false
is_set (some []) = false
is_set (some (_ ∷ _)) = true

-- Whether the start of the chain is still looked for.
abbrev pub seeks : Option Text → Progress → Bool
seeks none p = false
seeks (some _) p = not p.anchor_seen

module _ (hash : Text → Text → Option Text → Text) where
  unfoldable pub is_genuine : Signed → Bool
  is_genuine r = same r.hmac (hash r.event_id r.content r.prev_hash)

  abbrev pub check_hmac : Signed → List ChainError
  check_hmac r = if is_genuine r then [] else ChainError.hmac_mismatch r.event_id ∷ []

  abbrev pub check_link : Bool → Signed → List ChainError
  check_link ok r = if ok then [] else ChainError.chain_broken r.event_id ∷ []

  -- A signed line before the start was found.
  unfoldable pub seek_start : Options → Signed → Progress → List ChainError × Progress
  unfolding is_genuine
  seek_start o r p =
      if is_text o.chain_start_hmac r.hmac
      then (check_hmac r, on_anchor r)
      else if o.allow_stale_anchor
      then (
        check_link (not (is_set r.prev_hash) || o.allow_missing_anchor) r ++ check_hmac r,
        on_anchor r,
      )
      else (ChainError.start_missing r.event_id ∷ [], p)

  -- A signed line on the usual way.
  unfoldable pub follow : Options → Signed → Progress → List ChainError × Progress
  unfolding is_genuine
  follow o r p =
      let linked = is_text r.prev_hash p.prev_hmac in
      (
        check_link (linked || not p.chain_started && o.allow_missing_anchor) r ++ check_hmac r,
        on_chain r p,
      )

  -- The body of the loop.
  unfoldable pub check_line : Options → Line → Progress → List ChainError × Progress
  unfolding seek_start follow
  check_line o blank p = ([], p)
  check_line o malformed p = (ChainError.malformed_record ∷ [], p)
  check_line o (legacy i) p =
      if o.tolerate_legacy && (seeks o.chain_start_hmac p || not p.chain_started)
      then ([], p)
      else (ChainError.missing_hmac i ∷ [], p)
  check_line o (signed r) p = if seeks o.chain_start_hmac p then seek_start o r p else follow o r p

  unfoldable pub check_lines : Options → List Line → Progress → List ChainError
  unfolding check_line
  check_lines o [] p = if seeks o.chain_start_hmac p then ChainError.start_not_found ∷ [] else []
  check_lines o (l ∷ ls) p = let (errors, q) = check_line o l p in errors ++ check_lines o ls q

  unfoldable pub verify_chain_files : Options → List Line → List ChainError
  unfolding check_lines
  verify_chain_files o ls = check_lines o ls at_start
