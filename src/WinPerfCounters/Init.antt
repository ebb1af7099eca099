-- ===== src/WinPerfCounters/Init.antt =====
-- `Init` (win_perf_counters.go): the configuration is checked once.
pub mod Accepted
use win_perf_counters.Int.{ℤ, pos, negsuc}
use win_perf_counters.Prelude.{
  ℕ, ◌-◌, ◌^◌, Bool, true, false, not, ◌&&◌, ◌||◌, List, [], ◌∷◌, ltb, if◌then◌else◌,
}
use win_perf_counters.Query.Buffer.{initial_buffer_size}
use win_perf_counters.Result.{
  buffer_size_too_small, buffer_size_too_large, wildcards_not_localized, Result, ok, err,
}
use win_perf_counters.Text.{Text, codes, contains}
use win_perf_counters.WinPerfCounters.Model.{Config, PerfObject}

abbrev pub less : ℤ → ℕ → Bool
less (pos n) m = ltb n m
less (negsuc n) m = true

abbrev pub greater : ℤ → ℕ → Bool
greater (pos n) m = ltb m n
greater (negsuc n) m = false

abbrev pub max_uint32 : ℕ
max_uint32 = 0xFFFFFFFF

-- The inner loops over `wildcards`: "*" and "?".
unfoldable pub has_wildcard : Text → Bool
has_wildcard s = contains s (codes "*") || contains s (codes "?")

unfoldable pub any_wildcard : List Text → Bool
any_wildcard [] = false
any_wildcard (s ∷ ss) = has_wildcard s || any_wildcard ss

-- `found`, after the loop over the objects.
unfoldable pub found_wildcard : List PerfObject → Bool
found_wildcard [] = false
found_wildcard (o ∷ os) = has_wildcard o.object_name || any_wildcard o.counters || found_wildcard os

-- `Init`
unfoldable pub init : Config → Result (Unit {0})
unfolding found_wildcard any_wildcard has_wildcard contains
init m =
    if less m.max_buffer_size initial_buffer_size
    then err buffer_size_too_small
    else if greater m.max_buffer_size max_uint32
    then err buffer_size_too_large
    else if m.use_wildcards_expansion
        && not m.localize_wildcards_expansion
        && found_wildcard m.object
    then err wildcards_not_localized
    else ok tt
