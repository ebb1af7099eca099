-- ===== src/WinPerfCounters/Init/Accepted.antt =====
-- Which configurations `Init` accepts.
use win_perf_counters.Int.{ℤ, pos, negsuc}
use win_perf_counters.Prelude.{◌≤◌, ◌≡◌, ◌≢◌, All, ◌↔◌, true, false, List, [], ◌∷◌, arith}
use win_perf_counters.Query.Buffer.{initial_buffer_size}
use win_perf_counters.Result.{ok}
use win_perf_counters.Text.{Text, contains, has_prefix}
use win_perf_counters.WinPerfCounters.Init.{
  max_uint32, has_wildcard, any_wildcard, found_wildcard, init,
}
use win_perf_counters.WinPerfCounters.Model.{Config, PerfObject}

-- The size is one that a `uint32` can hold, and not below the first buffer.
abbrev pub IsBufferSize : ℤ → Type 0
IsBufferSize (pos n) = (initial_buffer_size ≤ n) × (n ≤ max_uint32)
IsBufferSize (negsuc n) = ⊥

abbrev pub IsLiteral : Text → Type 0
IsLiteral = All (λ c. (c ≢ b'*') × (c ≢ b'?'))

-- No object has a wildcard in its name or in the name of a counter.
abbrev pub NoWildcards : List PerfObject → Type 0
NoWildcards = All (λ o. IsLiteral o.object_name × All IsLiteral o.counters)

has_wildcard_iff : (s : Text) → (has_wildcard s ≡ false) ↔ IsLiteral s
unfolding has_wildcard contains has_prefix
has_wildcard_iff [] = ground arith
has_wildcard_iff (c ∷ s) = ground (arith, has_wildcard_iff s)

any_wildcard_iff : (ss : List Text) → (any_wildcard ss ≡ false) ↔ All IsLiteral ss
unfolding any_wildcard
any_wildcard_iff [] = ground arith
any_wildcard_iff (s ∷ ss) = ground (arith, has_wildcard_iff s, any_wildcard_iff ss)

found_wildcard_iff : (os : List PerfObject) → (found_wildcard os ≡ false) ↔ NoWildcards os
unfolding found_wildcard
found_wildcard_iff [] = ground arith
found_wildcard_iff (o ∷ os) =
    ground
      (arith, has_wildcard_iff o.object_name, any_wildcard_iff o.counters, found_wildcard_iff os)

-- `Init` returns nil exactly when the buffer size is from 1024 to the largest `uint32` and, if
-- wildcards are expanded but not localized, no name of an object or a counter has a wildcard.
pub init_iff :
    (m : Config)
    → (init m ≡ ok tt) ↔ (
        IsBufferSize m.max_buffer_size
        × (m.use_wildcards_expansion ≡ true
            → m.localize_wildcards_expansion ≡ false
            → NoWildcards m.object))
unfolding init
init_iff m = (
  λ h. (ground arith, λ u l. ground (arith, found_wildcard_iff m.object)),
  λ h. ground (arith, found_wildcard_iff m.object),
)
