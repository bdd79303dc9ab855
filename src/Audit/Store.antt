-- ===== src/Audit/Store.antt =====
-- `AuditStore` of src/trimum_core/audit_store.py (lines 202 to 391): the two files and the anchor,
-- `append` and `verify_chain`. What the file system does on a call is a success; `full` tells
-- whether the file has reached `max_bytes`. The lock makes an `append` one step.
use trimum.Base.{
  Bool, true, false, ◌||◌, Option, none, some, List, [], ◌∷◌, ◌++◌, if◌then◌else◌, Text,
}
use trimum.Audit.Chain.{Signed, Line, blank, signed, ChainError, Options, verify_chain_files}

pub record Disk : Type 0 where
  pub backup : Option (List Line)
  pub main : Option (List Line)
  pub marker : Option Text

abbrev pub or_no_lines : Option (List Line) → List Line
or_no_lines none = []
or_no_lines (some ls) = ls

abbrev pub later : Option Line → Line → Option Line
later (some k) l = some k
later none blank = none
later none l = some l

-- The last line that is not blank.
unfoldable pub last_line : List Line → Option Line
last_line [] = none
last_line (l ∷ ls) = later (last_line ls) l

-- `tail["hmac"]`, if it is a record that has one.
abbrev pub hmac_of : Option Line → Option Text
hmac_of (some (signed r)) = some r.hmac
hmac_of _ = none

unfoldable pub tail_hmac : List Line → Option Text
unfolding last_line
tail_hmac ls = hmac_of (last_line ls)

abbrev pub later_hmac : Text → Line → Text
later_hmac [] (signed r) = r.hmac
later_hmac t _ = t

-- `_last_chained_hmac`
unfoldable pub last_chained_hmac : List Line → Text
last_chained_hmac [] = []
last_chained_hmac (l ∷ ls) = later_hmac (last_chained_hmac ls) l

abbrev pub or_text : Option Text → Text → Text
or_text none t = t
or_text (some s) t = s

-- A file with content: the lines stand for what was written.
abbrev pub has_content : List Line → Bool
has_content [] = false
has_content (_ ∷ _) = true

-- `_current_prev_hash`
unfoldable pub current_prev_hash : Disk → Text
unfolding tail_hmac last_chained_hmac
current_prev_hash d =
    let ls = or_no_lines d.main in
    or_text (tail_hmac ls) (
      if has_content ls
      then last_chained_hmac ls
      else or_text (tail_hmac (or_no_lines d.backup)) (last_chained_hmac ls))

-- `_rotate_if_needed`
abbrev pub rotate : Bool → Disk → Disk
rotate false d = d
rotate true d = elim d.main [ none ↦ d | some ls ↦ record d { backup = some ls; main = none } ]

abbrev pub or_marker : Option Text → Text → Option Text
or_marker none t = some t
or_marker (some m) t = some m

abbrev pub all_lines : Disk → List Line
all_lines d = or_no_lines d.backup ++ or_no_lines d.main

abbrev pub is_signed : Line → Bool
is_signed (signed r) = true
is_signed _ = false

unfoldable pub any_signed : List Line → Bool
any_signed [] = false
any_signed (l ∷ ls) = is_signed l || any_signed ls

abbrev pub store_options : Option Text → Options
store_options m = record {
  tolerate_legacy = true;
  chain_start_hmac = m;
  allow_missing_anchor = true;
  allow_stale_anchor = true;
}

pub data Verdict : Type 0 where
  checked : List ChainError → Verdict
  anchor_missing : Verdict

module _ (hash : Text → Text → Option Text → Text) where
  abbrev pub sign : Text → Text → Text → Signed
  sign event_id content prev = record {
    event_id = event_id;
    content = content;
    prev_hash = some prev;
    hmac = hash event_id content (some prev);
  }

  abbrev pub write_line : Signed → Disk → Disk
  write_line r d = record d {
    main = some (or_no_lines d.main ++ signed r ∷ []);
    marker = or_marker d.marker r.hmac;
  }

  -- `append`, of an event without its chain fields.
  unfoldable pub append : Bool → Text → Text → Disk → Disk
  unfolding current_prev_hash
  append full event_id content d =
      write_line (sign event_id content (current_prev_hash d)) (rotate full d)

  -- `verify_chain`
  unfoldable pub verify_chain : Disk → Verdict
  unfolding any_signed verify_chain_files
  verify_chain d = elim d.marker [
    | some m ↦ checked (verify_chain_files hash (store_options (some m)) (all_lines d))
    | none ↦
        if any_signed (all_lines d)
        then anchor_missing
        else checked (verify_chain_files hash (store_options none) (all_lines d))
  ]
