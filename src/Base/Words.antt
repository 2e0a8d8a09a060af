-- ===== src/Base/Words.antt =====
-- Machine integers with checked addition, and the clock.
use Prim.Native.Nat.{ℕ, ◌+◌, ◌-◌, ◌*◌, ◌^◌}
use mathlib.Core.Option.{Option, none, some}
use concord_api.Base.Tests.{leb, if◌then◌else◌}

-- `checked_add` of an unsigned integer whose largest value is `max`.
abbrev pub checked_add : ℕ → ℕ → ℕ → Option ℕ
checked_add max a b = if leb (a + b) max then some (a + b) else none

abbrev pub u32_max : ℕ
u32_max = 2 ^ 32 - 1

abbrev pub u64_max : ℕ
u64_max = 2 ^ 64 - 1

-- An `Instant` in nanoseconds; seconds are an `i64`, as in the standard library for Unix.
abbrev pub instant_max : ℕ
instant_max = 2 ^ 63 * 1_000_000_000 - 1
