-- ===== src/WinPerfCounters/Items/Working.antt =====
-- `addItem` without expansion (win_perf_counters.go) succeeds where every query is open.
use win_perf_counters.Dict.Entries.{insert-All, lookup-All}
use win_perf_counters.Dict.Laws.{lookup-insert_all, insert-insert}
use win_perf_counters.Dict.{lookup, insert}
use win_perf_counters.Names
use win_perf_counters.Prelude.{
  ℕ, ◌≡◌, refl, Bool, true, false, not, Option, none, some, List, [], ◌∷◌, ◌++◌, arith,
  if◌then◌else◌,
}
use win_perf_counters.Result.{Result}
use win_perf_counters.Text.Equality.{text_eq_iff}
use win_perf_counters.Text.{Text, text_eq}
use win_perf_counters.WinPerfCounters.Items.Changes.{source_tag_lem}
use win_perf_counters.WinPerfCounters.Items.{
  ItemArgs, source_tag, on_query, find_or_create_host, create_if, append_counter, read_config,
  add_single, add_item, put_host, new_host, to_uint32,
}
use win_perf_counters.WinPerfCounters.Model.{
  PerfObject, HostCountersInfo, State, PerformanceQuery, System, Action, ◌>>=◌,
}
use win_perf_counters.WinPerfCounters.Working.{
  IsOk, Achieves, bind-Achieves, Works, IsWorking, IsReady, moved-IsReady,
}

module _ {W Q T D : Type 0} (queries : PerformanceQuery W Q T D) (system : System W T)
    (is_open : Q → Bool) (objects : List PerfObject) (working : IsWorking queries is_open) where
  abbrev Ready : State W Q T D → Type 0
  Ready = IsReady is_open objects

  -- The computer is in the map.
  pub record HasHost (c : Text) (s : State W Q T D) : Type 0 where
    pub ready : IsReady is_open objects s
    pub host : HostCountersInfo Q T
    pub found : lookup text_eq c s.host_counters ≡ some host

  host_open :
      (c : Text) (h : HostCountersInfo Q T) (s : State W Q T D)
      → lookup text_eq c s.host_counters ≡ some h
      → Ready s
      → is_open h.query ≡ true
  host_open c h s e i =
      lookup-All text_eq (λ (h : HostCountersInfo Q T). is_open h.query ≡ true) c h s.host_counters
        e i.all_open

  -- An entry with an open query.
  put-HasHost :
      (c : Text) (h : HostCountersInfo Q T) (s : State W Q T D) (w : W)
      → is_open h.query ≡ true
      → Ready s
      → HasHost c (record (put_host queries system c h s) { world = w })
  put-HasHost c h s w opened i = record {
    ready =
        moved-IsReady is_open objects s _ refl refl refl
          (insert-All text_eq (λ (h : HostCountersInfo Q T). is_open h.query ≡ true) c h
            s.host_counters opened i.all_open)
          i;
    host = h;
    found =
        let same : text_eq c c ≡ true = (text_eq_iff c c).1 refl in
        rw (lookup-insert_all text_eq text_eq_iff c c h s.host_counters, same) refl;
  }

  source_tag-Ready : (c : Text) → Achieves Ready Ready (source_tag queries system c)
  source_tag-Ready c = record {
    outcome = λ s i.
        let (tag, name, t) = source_tag_lem queries system c s in
        rw t (tt, moved-IsReady is_open objects s _ refl refl refl i.all_open i);
  }

  on_query-HasHost :
      {A : Type 0} (c : Text) (method : Q → W → Result A × Q × W)
      → Works is_open method
      → Achieves (HasHost c) (HasHost c) (on_query queries system c method)
  unfolding on_query
  on_query-HasHost c method works = record {
    outcome = λ s i.
        let (good, opened) = works i.host.query s.world (host_open c i.host s i.found i.ready) in
        rw i.found (good, put-HasHost c _ s _ opened i.ready);
  }

  either-Works :
      {A : Type 0} (b : Bool) (m n : Q → W → Result A × Q × W)
      → Works is_open m
      → (b ≡ false → Works is_open n)
      → Works is_open (if b then m else n)
  either-Works true m n p q = p
  either-Works false m n p q = q refl

  create_if-HasHost :
      (found : Option (HostCountersInfo Q T)) (c tag : Text) (s : State W Q T D)
      → lookup text_eq c s.host_counters ≡ found
      → Ready s
      → IsOk (create_if queries system found c tag s).0
        × HasHost c (create_if queries system found c tag s).1
  unfolding on_query
  create_if-HasHost (some h) c tag s e i = (tt, record { ready = i; host = h; found = e })
  create_if-HasHost none c tag s e i =
      let h : HostCountersInfo Q T = new_host queries system s.config c tag in
      let (good, opened) = working.opens c (to_uint32 s.config.max_buffer_size) s.world i.limited in
      let same : text_eq c c ≡ true = (text_eq_iff c c).1 refl in
      let stored : lookup text_eq c (insert text_eq c h s.host_counters) ≡ some h =
        rw (lookup-insert_all text_eq text_eq_iff c c h s.host_counters, same) refl in
      rw (stored, insert-insert text_eq text_eq_iff c h _ s.host_counters)
        (good, put-HasHost c _ s _ opened i)

  find_or_create_host-HasHost :
      (c tag : Text) → Achieves Ready (HasHost c) (find_or_create_host queries system c tag)
  unfolding find_or_create_host
  find_or_create_host-HasHost c tag = record { outcome = λ s i. create_if-HasHost _ c tag s refl i }

  append_counter-HasHost :
      (c : Text) (item : Names.Counter)
      → Achieves (HasHost c) Ready (append_counter queries system c item)
  unfolding append_counter
  append_counter-HasHost c item = record {
    outcome = λ s i. rw i.found (
      tt,
      (put-HasHost c (record i.host { counters = i.host.counters ++ (item ∷ []) }) s s.world
          (host_open c i.host s i.found i.ready) i.ready).ready,
    );
  }

  add_single-HasHost :
      (path c : Text) (args : ItemArgs) (handle : ℕ)
      → Achieves (HasHost c) Ready (add_single queries system path c args handle)
  unfolding add_single
  add_single-HasHost path c args handle = append_counter-HasHost c _

  not_taken :
      {A : Type 0} (m n : Action W Q T D A) (b : Bool) (s : State W Q T D)
      → b ≡ false
      → IsOk (n s).0 × Ready (n s).1
      → IsOk ((if b then m else n) s).0 × Ready ((if b then m else n) s).1
  not_taken m n true s e h = absurd (ground arith)
  not_taken m n false s e h = h

  -- What follows the test for expansion.
  if_single :
      {A : Type 0} (c : Text) (m n : Action W Q T D A)
      → Achieves (HasHost c) Ready n
      → Achieves
          (HasHost c)
          Ready
          (read_config queries system >>= λ config. if config.use_wildcards_expansion then m else n)
  if_single c m n h = record {
    outcome =
        λ s i. not_taken m n s.config.use_wildcards_expansion s i.ready.single (h.outcome s i);
  }

  pub add_item-IsReady :
      (path c : Text) (args : ItemArgs) → Achieves Ready Ready (add_item queries system path c args)
  unfolding add_item
  add_item-IsReady path c args = bind-Achieves Ready Ready Ready _ _ (source_tag-Ready c) (λ tag.
      bind-Achieves Ready (HasHost c) Ready _ _ (find_or_create_host-HasHost c tag) (λ u.
        bind-Achieves (HasHost c) (HasHost c) Ready _ _
          (on_query-HasHost c _ (
            either-Works (not queries.is_vista_or_newer) _ _ (working.adds path)
              (λ vista. working.adds_english (ground arith) path)))
          (λ handle. if_single c _ _ (add_single-HasHost path c args handle))))
