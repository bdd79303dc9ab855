-- ===== src/Approvals/Ttl.antt =====
-- `ApprovalStore._parse_ttl` of src/trimum_core/approvals.py (lines 323 to 342), in whole seconds: of
-- the positive fractions of a second only those have a counterpart that are lost when they are added
-- to the clock's float.
use trimum.Base.{
  ℕ, ◌-◌, ◌+◌, ◌<◌, ◌≡◌, ◌⊎◌, true, false, List, [], ◌∷◌, ◌++◌, ltb, if◌then◌else◌, All, Text,
}
use trimum.Base.Int.{ℤ, pos, negsuc}
use trimum.Approvals.Request.{Outcome, returns, raises, is_expired, pending}
use trimum.Approvals.Store.{Ask, Store, request}

abbrev pub default_ttl_seconds : ℕ
default_ttl_seconds = 300

-- One source: `None`, a value that `float` refuses with one of the two errors that are caught (or
-- reads as not a number, which is not above 0 either), an integer that is too large for `float`,
-- which raises OverflowError, infinity, a positive number so small that the clock plus it is the
-- clock, or a whole number of seconds.
pub data TtlSource : Type 0 where
  absent malformed too_large infinite tiny : TtlSource
  seconds : ℤ → TtlSource

-- A time to live that is returned.
pub data Lifetime : Type 0 where
  lasting : ℕ → Lifetime
  endless vanishing : Lifetime

-- The `for` loop over the sources.
unfoldable pub first_ttl : List TtlSource → Outcome Lifetime
first_ttl [] = returns (lasting default_ttl_seconds)
first_ttl (absent ∷ rs) = first_ttl rs
first_ttl (malformed ∷ rs) = first_ttl rs
first_ttl (too_large ∷ rs) = raises
first_ttl (infinite ∷ rs) = returns endless
first_ttl (tiny ∷ rs) = returns vanishing
first_ttl (seconds (negsuc _) ∷ rs) = first_ttl rs
first_ttl (seconds (pos n) ∷ rs) = if ltb 0 n then returns (lasting n) else first_ttl rs

-- The explicit argument, the environment, the configuration, the store's default.
unfoldable pub parse_ttl : TtlSource → TtlSource → TtlSource → TtlSource → Outcome Lifetime
unfolding first_ttl
parse_ttl explicit env config default = first_ttl (explicit ∷ env ∷ config ∷ default ∷ [])

-- A source that gives no time to live.
abbrev pub IsUnusable : TtlSource → Type 0
IsUnusable absent = Unit
IsUnusable malformed = Unit
IsUnusable (seconds (negsuc _)) = Unit
IsUnusable (seconds (pos n)) = n ≡ 0
IsUnusable _ = ⊥

-- What the first source that is not unusable comes to.
abbrev pub Gives : TtlSource → Outcome Lifetime → Type 0
Gives too_large o = o ≡ raises
Gives infinite o = o ≡ returns endless
Gives tiny o = o ≡ returns vanishing
Gives (seconds (pos n)) o = (0 < n) × (o ≡ returns (lasting n))
Gives _ o = ⊥

-- The first source that is not unusable decides, and with none the default.
abbrev pub Chosen : List TtlSource → Outcome Lifetime → Type 0
Chosen sources o =
    (All IsUnusable sources × (o ≡ returns (lasting 300)))
    ⊎ ((us : List TtlSource) × (x : TtlSource) × (rs : List TtlSource) × (sources ≡ us ++ x ∷ rs)
        × All IsUnusable us
        × Gives x o)

-- The life of a request that is made with a number of seconds, or with none that the clock shows.
abbrev pub Times : Text → ℕ → Ask → Store → Outcome Lifetime → Type 0
Times id clock a s (returns (lasting ttl)) =
    let r = (request id clock ttl a s).0 in
    (r.status ≡ pending)
    × (is_expired clock r ≡ false)
    × (is_expired (clock + (ttl - 1)) r ≡ false)
    × (is_expired (clock + ttl) r ≡ true)
Times id clock a s (returns vanishing) =
    let r = (request id clock 0 a s).0 in (r.status ≡ pending) × (is_expired clock r ≡ true)
Times id clock a s _ = Unit
