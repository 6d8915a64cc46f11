-- ===== src/Spam/Stats.antt =====
-- cmd/thorchainspam/stats/stats.go: the counters, and what `Print` reads from them. The two rates
-- that it prints are `float64` quotients, and only their operands are here.
use thorchain_v.Base.{ℕ, suc, ◌+◌, ◌-◌, Bool, true, false, if◌then◌else◌}
use thorchain_v.Sdk.Types.{Time}

pub record Stats : Type 0 where
  pub num_error : ℕ
  pub num_successful : ℕ
  pub started : Bool
  pub started_at : Time

abbrev pub new_stats : Time → Stats
new_stats now = record { num_error = 0; num_successful = 0; started = false; started_at = now }

abbrev pub add_success : Stats → Stats
add_success s = record s { num_successful = suc s.num_successful }

abbrev pub add_error : Stats → Stats
add_error s = record s { num_error = suc s.num_error }

pub record Printed : Type 0 where
  pub total : ℕ
  pub num_error : ℕ
  pub num_successful : ℕ
  pub nanoseconds_passed : ℕ

abbrev start_at : Time → Stats → Stats
start_at now s = if s.started then s else record s { started = true; started_at = now }

-- The first call to print starts the clock.
unfoldable pub print : Time → Stats → Printed × Stats
print now s =
    let s' = start_at now s in
    (
      record {
        total = s'.num_successful + s'.num_error;
        num_error = s'.num_error;
        num_successful = s'.num_successful;
        nanoseconds_passed = now - s'.started_at;
      },
      s',
    )
