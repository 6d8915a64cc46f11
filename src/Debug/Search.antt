-- ===== src/Debug/Search.antt =====
-- The loop of `runHackCmd` in cmd/thorchaindebug/hack.go, a binary search for the height at which a
-- key first shows up in the store. `load` stands for `LoadVersion` and the read of the key there:
-- `none` is an error, at which the tool exits, else whether the key is stored.
pub mod Bounds
use thorchain_v.Base.{ℕ, zero, suc, ◌+◌, ◌/◌, Bool, true, false, Option, none, some, if◌then◌else◌}

pub record Heights : Type 0 where
  pub top_height : ℕ
  pub bottom_height : ℕ
  pub check_height : ℕ

abbrev pub start : ℕ → Heights
start last_block_height = record {
  top_height = last_block_height;
  bottom_height = 0;
  check_height = last_block_height;
}

abbrev pub between : ℕ → ℕ → Heights
between top bottom = record {
  top_height = top;
  bottom_height = bottom;
  check_height = (top + bottom) / 2;
}

abbrev checked : Heights → Option Bool → Option Heights
checked s none = none
checked s (some found) =
    some (
      if found then between s.check_height s.bottom_height else between s.top_height s.check_height)

unfoldable pub round : (ℕ → Option Bool) → Heights → Option Heights
round load s = checked s (load s.check_height)

abbrev after : Option Heights → (Heights → Option Heights) → Option Heights
after none f = none
after (some s) f = f s

-- The state after so many rounds of the loop, which has no exit of its own.
unfoldable pub rounds : (ℕ → Option Bool) → ℕ → Heights → Option Heights
unfolding round
rounds load zero s = some s
rounds load (suc n) s = after (rounds load n s) (round load)
