-- ===== src/WinPerfCounters/Items/Others.antt =====
-- `addItem` touches the entry of its own computer only.
use win_perf_counters.Dict.Texts.{lookup-insert_other}
use win_perf_counters.Dict.{lookup}
use win_perf_counters.Prelude.{◌≡◌, ◌≢◌, refl, ◌∙◌, Option}
use win_perf_counters.Text.{Text, text_eq}
use win_perf_counters.WinPerfCounters.Items.Changes.{ItemInvariant}
use win_perf_counters.WinPerfCounters.Items.Invariants.{add_item-Preserves}
use win_perf_counters.WinPerfCounters.Items.{ItemArgs, add_item}
use win_perf_counters.WinPerfCounters.Model.{HostCountersInfo, State, PerformanceQuery, System}

module _ {W Q T D : Type 0} (queries : PerformanceQuery W Q T D) (system : System W T) (k c : Text)
    (other : c ≢ k) where
  -- The entry of `k` is what it was at the start.
  entry-ItemInvariant :
      (x : Option (HostCountersInfo Q T))
      → ItemInvariant queries system (λ (s : State W Q T D). lookup text_eq k s.host_counters ≡ x) c
  entry-ItemInvariant x = record {
    cached = λ s name i. i;
    queried = λ s h q w e i. lookup-insert_other c k _ s.host_counters other ∙ i;
    created = λ s tag i. lookup-insert_other c k _ s.host_counters other ∙ i;
    appended = λ s h item e n i. lookup-insert_other c k _ s.host_counters other ∙ i;
  }

  -- Adding an item for one computer leaves the entry of every other computer in the map as it was,
  -- or absent as it was, whether it succeeds, fails or panics.
  pub add_item_others :
      (path : Text) (args : ItemArgs) (s : State W Q T D)
      → lookup text_eq k (add_item queries system path c args s).1.host_counters
        ≡ lookup text_eq k s.host_counters
  add_item_others path args s =
      ((add_item-Preserves queries system c (entry-ItemInvariant (lookup text_eq k s.host_counters))
          path args).outcome
        s refl).1
