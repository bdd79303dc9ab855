-- ===== src/Resources/Examples.antt =====
-- Concrete calls of src/trimum_core/resource_controller.py.
use trimum.Base.{ℕ, List, [], ◌∷◌, ◌≡◌, arith}
use trimum.Base.Int.{ℤ, pos, negsuc}
use trimum.Resources.{ResourceUsage}
use trimum.Resources.Tokens.{
  TokenUsage, no_slot, no_usage, recent, sum_usage, get_usage, record_usages,
}
use trimum.Resources.TokenSums.{get_usage-record_usages}

abbrev idle : ResourceUsage
idle = record {
  cpu_percent = 5;
  memory_mb = 100;
  io_read_bytes = 0;
  io_write_bytes = 0;
  file_writes_1m = 1;
  network_requests_1m = 0;
}

abbrev usage_of : ℕ → TokenUsage
usage_of n = record { prompt_tokens = n; completion_tokens = 1; total_tokens = 0; calls = 0 }

abbrev used_tokens : List (ℕ × TokenUsage)
used_tokens = (10, usage_of 5) ∷ (2000, usage_of 7) ∷ []

get_usage-record_usages_example :
    get_usage 5 2100 (record_usages 5 used_tokens no_slot)
    ≡ sum_usage no_usage (recent 300 2100 used_tokens)
get_usage-record_usages_example =
    get_usage-record_usages 5 2100 used_tokens (omega arith, (omega arith, tt))

abbrev counts : List (ℕ × ℤ)
counts = (10, pos 3) ∷ (65, negsuc 1) ∷ (90, pos 2) ∷ []
