-- ===== src/Resources.antt =====
-- Resource snapshots and limits: `_build_check_result` and the limits of `PsutilController`, from
-- src/trimum_core/resource_controller.py (lines 31 to 68, 109 to 170 and 267 to 286). Amounts are
-- whole numbers in a fixed unit each: the code only compares them.
use trimum.Base.{
  ℕ, ◌≤◌, ◌≡◌, ◌↔◌, Bool, true, false, List, [], ◌∷◌, ◌++◌, arith, if◌then◌else◌, ltb, Text, same,
  Option, none, some,
}
use trimum.Base.Dict.{Dict, lookup, insert, lookup-insert}
pub mod Tokens
pub mod TokenSums
pub mod Rates
mod Examples

pub record ResourceUsage : Type 0 where
  pub cpu_percent : ℕ
  pub memory_mb : ℕ
  pub io_read_bytes : ℕ
  pub io_write_bytes : ℕ
  pub file_writes_1m : ℕ
  pub network_requests_1m : ℕ

pub record ResourceLimits : Type 0 where
  pub max_cpu_percent : ℕ
  pub max_memory_mb : ℕ
  pub max_file_writes_per_minute : ℕ
  pub max_network_requests_per_minute : ℕ

pub data Resource : Type 0 where
  cpu_percent memory_mb file_writes_1m network_requests_1m : Resource

-- The message of a violation is a rendering of these three.
pub record Violation : Type 0 where
  pub resource : Resource
  pub limit : ℕ
  pub actual : ℕ

pub record ResourceCheckResult : Type 0 where
  pub allowed : Bool
  pub violations : List Violation

-- One `if usage > limit: violations.append(...)`
unfoldable pub check_one : Resource → ℕ → ℕ → List Violation → List Violation
check_one r actual limit vs =
    if ltb limit actual
    then vs ++ record { resource = r; limit = limit; actual = actual } ∷ []
    else vs

abbrev pub is_empty {ℓ} : {A : Type ℓ} → List A → Bool
is_empty [] = true
is_empty (_ ∷ _) = false

unfoldable pub build_check_result : ResourceUsage → ResourceLimits → ResourceCheckResult
unfolding check_one
build_check_result u l =
    let v1 = check_one Resource.cpu_percent u.cpu_percent l.max_cpu_percent [] in
    let v2 = check_one Resource.memory_mb u.memory_mb l.max_memory_mb v1 in
    let v3 = check_one Resource.file_writes_1m u.file_writes_1m l.max_file_writes_per_minute v2 in
    let v4 =
      check_one Resource.network_requests_1m u.network_requests_1m l.max_network_requests_per_minute
        v3 in
    record { allowed = is_empty v4; violations = v4 }

abbrev pub default_limits : ResourceLimits
default_limits = record {
  max_cpu_percent = 80;
  max_memory_mb = 512;
  max_file_writes_per_minute = 60;
  max_network_requests_per_minute = 30;
}

abbrev pub or_default_limits : Option ResourceLimits → ResourceLimits
or_default_limits none = default_limits
or_default_limits (some l) = l

unfoldable pub get_limits : Text → Dict ResourceLimits → ResourceLimits
get_limits agent limits = or_default_limits (lookup agent limits)

unfoldable pub set_limits : Text → ResourceLimits → Dict ResourceLimits → Dict ResourceLimits
set_limits agent l limits = insert agent l limits

unfoldable pub check_limits : Text → ResourceUsage → Dict ResourceLimits → ResourceCheckResult
unfolding get_limits build_check_result
check_limits agent usage limits = build_check_result usage (get_limits agent limits)

-- Every measured amount is within its limit.
pub record IsWithin (u : ResourceUsage) (l : ResourceLimits) : Type 0 where
  pub cpu : u.cpu_percent ≤ l.max_cpu_percent
  pub memory : u.memory_mb ≤ l.max_memory_mb
  pub writes : u.file_writes_1m ≤ l.max_file_writes_per_minute
  pub requests : u.network_requests_1m ≤ l.max_network_requests_per_minute

-- A usage is allowed exactly when every amount is within its limit.
pub build_check_result-IsWithin :
    (u : ResourceUsage) (l : ResourceLimits)
    → ((build_check_result u l).allowed ≡ true) ↔ IsWithin u l
unfolding build_check_result
build_check_result-IsWithin u l = (λ h. ground arith, λ w. ground (arith, w))

-- Setting the limits of one agent decides the checks of that agent alone.
pub check_limits-set_limits :
    (a b : Text) (u : ResourceUsage) (l : ResourceLimits) (limits : Dict ResourceLimits)
    → check_limits b u (set_limits a l limits)
      ≡ (if same b a then build_check_result u l else check_limits b u limits)
unfolding check_limits set_limits
check_limits-set_limits a b u l limits = ground (arith, lookup-insert b a l limits)
