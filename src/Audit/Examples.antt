-- ===== src/Audit/Examples.antt =====
-- Concrete audit logs (src/trimum_core/audit_store.py).
use trimum.Base.{
  ◌≡◌, ◌↔◌, true, false, Option, none, some, List, [], ◌∷◌, ◌++◌, refl, Text, codes, same,
}
use trimum.Audit.Chain.{Signed, Line, legacy, signed, ChainError, verify_chain_files}
use trimum.Audit.Store.{store_options, checked, verify_chain}
use trimum.Audit.Accepted.{IsChain, verify_iff}
use trimum.Audit.Growth.{append_all, append_all_verifies}

-- A signature that anyone can read.
abbrev plain : Text → Text → Option Text → Text
plain event_id content none = event_id ++ content
plain event_id content (some h) = event_id ++ content ++ h

abbrev first_record : Signed
first_record = record {
  event_id = codes "1";
  content = codes "a";
  prev_hash = some [];
  hmac = codes "1a";
}

-- The second record was changed.
abbrev second_record : Signed
second_record = record {
  event_id = codes "2";
  content = codes "x";
  prev_hash = some (codes "1a");
  hmac = codes "2b1a";
}

abbrev log : List Line
log = legacy (codes "0") ∷ signed first_record ∷ signed second_record ∷ []

change_found :
    verify_chain_files plain (store_options (some (codes "1a"))) log
    ≡ ChainError.hmac_mismatch (codes "2") ∷ []
unfolding verify_chain_files same
change_found = refl

verify_iff_example :
    (verify_chain_files plain (store_options (some (codes "1a"))) log ≡ []) ↔ IsChain plain log
verify_iff_example = verify_iff plain (codes "1a") log

append_all_verifies_example :
    verify_chain plain
      (append_all plain ((true, codes "2", codes "b") ∷ (false, codes "1", codes "a") ∷ []))
    ≡ checked []
append_all_verifies_example =
    append_all_verifies plain (true, codes "2", codes "b") ((false, codes "1", codes "a") ∷ [])
