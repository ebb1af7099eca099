-- ===== src/WinPerfCounters/Hosts/Broken.antt =====
-- A host whose query is not open stays like that while the configuration is parsed.
use win_perf_counters.Dict.{lookup}
use win_perf_counters.Prelude.{
  ◌≡◌, sym, ◌∙◌, subst, inl, inr, Bool, false, some, [], ◌∷◌, Bool-cases, arith,
}
use win_perf_counters.Text.Equality.{text_eq_iff, text_eq_self}
use win_perf_counters.Text.{Text, text_eq}
use win_perf_counters.WinPerfCounters.Ensures.{Preserves, keeping}
use win_perf_counters.WinPerfCounters.Hosts.Cleaning.{HasUnopened}
use win_perf_counters.WinPerfCounters.Hosts.Invariants.{parse_config-Preserves}
use win_perf_counters.WinPerfCounters.Hosts.{parse_config}
use win_perf_counters.WinPerfCounters.Implementation.{QueryLaws}
use win_perf_counters.WinPerfCounters.Items.Others.{add_item_others}
use win_perf_counters.WinPerfCounters.Items.Unopened.{IsUnopened, add_item-IsUnopened}
use win_perf_counters.WinPerfCounters.Items.{ItemArgs, add_item}
use win_perf_counters.WinPerfCounters.Model.{
  HostCountersInfo, Hosts, State, PerformanceQuery, System,
}

module _ {W Q T D : Type 0} (queries : PerformanceQuery W Q T D) (system : System W T)
    (is_open : Q → Bool) (laws : QueryLaws queries is_open) where
  lookup-HasUnopened :
      (k : Text) (hosts : Hosts Q T) (h : HostCountersInfo Q T)
      → lookup text_eq k hosts ≡ some h
      → is_open h.query ≡ false
      → HasUnopened queries system is_open laws hosts
  unfolding lookup
  lookup-HasUnopened k [] h e shut = cc
  lookup-HasUnopened k ((j, g) ∷ hosts) h e shut = elim (Bool-cases (text_eq j k)) [
    | inl same ↦ inl (ground arith)
    | inr differ ↦ inr (lookup-HasUnopened k hosts h (ground arith) shut)
  ]

  -- A host whose query is not open is one of the map's.
  pub IsUnopened-HasUnopened :
      (k : Text) (hosts : Hosts Q T)
      → IsUnopened queries system is_open laws k hosts
      → HasUnopened queries system is_open laws hosts
  IsUnopened-HasUnopened k hosts u = lookup-HasUnopened k hosts u.host u.found u.shut

  -- The host `k` is in the map, and its query is not open.
  abbrev pub StaysUnopened : Text → State W Q T D → Type 0
  StaysUnopened k s = IsUnopened queries system is_open laws k s.host_counters

  add_any_item-IsUnopened :
      (k path c : Text) (args : ItemArgs) (s : State W Q T D)
      → IsUnopened queries system is_open laws k s.host_counters
      → IsUnopened queries system is_open laws k
          (add_item queries system path c args s).1.host_counters
  add_any_item-IsUnopened k path c args s u = elim (Bool-cases (text_eq c k)) [
    | inl same ↦
        let e = (text_eq_iff c k).0 same in
        subst
          (λ j.
            IsUnopened queries system is_open laws j
              (add_item queries system path c args s).1.host_counters)
          e
          (add_item-IsUnopened queries system is_open laws path c args s
            (subst (λ j. IsUnopened queries system is_open laws j s.host_counters) (sym e) u)).1
    | inr differ ↦ record {
      host = u.host;
      found =
          add_item_others queries system k c (λ e. cc (e, differ, text_eq_self k)) path args s
          ∙ u.found;
      shut = u.shut;
    }
  ]

  pub add_any_item-Preserves :
      (k path c : Text) (args : ItemArgs)
      → Preserves (StaysUnopened k) (add_item queries system path c args)
  add_any_item-Preserves k path c args =
      keeping (StaysUnopened k) _ (λ s i. add_any_item-IsUnopened k path c args s i)

  -- `parseConfig` opens no query of a host that is in the map already: one that is not open before is
  -- not open afterwards, whatever objects are configured and whether they insist on their counters.
  pub parse_config-IsUnopened :
      (k : Text) (s : State W Q T D)
      → IsUnopened queries system is_open laws k s.host_counters
      → IsUnopened queries system is_open laws k (parse_config queries system s).1.host_counters
  unfolding parse_config
  parse_config-IsUnopened k s h =
      ((parse_config-Preserves queries system (StaysUnopened k) (add_any_item-Preserves k)
          (λ s' sources i. i)).outcome
        s h).1
