-- ===== src/WinPerfCounters/Items/Single.antt =====
-- What a successful `addItem` without expansion leaves (win_perf_counters.go): one more counter, at
-- the end of those of its host.
use mathlib.Core.List.{map-append}
use win_perf_counters.Dict.{lookup}
use win_perf_counters.Names
use win_perf_counters.Names.{new_counter}
use win_perf_counters.Prelude.{
  ℕ, ◌≡◌, refl, sym, ap, ◌∙◌, subst, Bool, true, false, Option, none, some, [], ◌∷◌, ◌++◌,
  if◌then◌else◌, inl, inr, Bool-cases, arith, append-nil,
}
use win_perf_counters.Result.{Result, ok}
use win_perf_counters.Text.Equality.{text_eq_iff}
use win_perf_counters.Text.{Text, text_eq}
use win_perf_counters.WinPerfCounters.Items.Changes.{source_tag_lem}
use win_perf_counters.WinPerfCounters.Items.Grown.{
  counters_of, shape, item_of, Grows, stays, grow_twice, bind_inv, counters_of-insert,
}
use win_perf_counters.WinPerfCounters.Items.{
  ItemArgs, source_tag, on_query, on_query_of, find_or_create_host, create_if, append_counter,
  append_to, add_single, add_item, put_host, new_host,
}
use win_perf_counters.WinPerfCounters.Model.{
  Config, HostCountersInfo, State, PerformanceQuery, System, Action,
}

module _ {W Q T D : Type 0} (queries : PerformanceQuery W Q T D) (system : System W T) where
  -- An entry of the map with the counters that stood there, or a new one with none.
  put_same :
      (c : Text) (h : HostCountersInfo Q T) (s : State W Q T D) (w : W)
      → h.counters ≡ counters_of c s.host_counters
      → Grows [] s (record (put_host queries system c h s) { world = w })
  put_same c h s w e = record {
    same_config = refl;
    grown = λ k. elim (Bool-cases (text_eq c k)) [
      | inl same ↦
          let here : c ≡ k = (text_eq_iff c k).0 same in
          rw (counters_of-insert k c h s.host_counters, same, e, here) (sym (append-nil _))
      | inr differ ↦ rw (counters_of-insert k c h s.host_counters, differ) (sym (append-nil _))
    ];
  }

  on_query_of-Grows :
      {A : Type 0} (found : Option (HostCountersInfo Q T)) (c : Text)
      (method : Q → W → Result A × Q × W) (a : A) (s s' : State W Q T D)
      → lookup text_eq c s.host_counters ≡ found
      → on_query_of queries system found c method s ≡ (ok a, s')
      → Grows [] s s'
  on_query_of-Grows none c method a s s' f e = absurd (ground arith)
  on_query_of-Grows (some h) c method a s s' f e = subst (Grows [] s) (ap (λ o. o.1) e) (
      put_same c (record h { query = (method h.query s.world).1 }) s (method h.query s.world).2
        (rw f refl))

  on_query-Grows :
      {A : Type 0} (c : Text) (method : Q → W → Result A × Q × W) (a : A) (s s' : State W Q T D)
      → on_query queries system c method s ≡ (ok a, s')
      → Grows [] s s'
  unfolding on_query
  on_query-Grows c method a s s' e = on_query_of-Grows _ c method a s s' refl e

  create_if-Grows :
      (found : Option (HostCountersInfo Q T)) (c tag : Text) (s s' : State W Q T D)
      → lookup text_eq c s.host_counters ≡ found
      → create_if queries system found c tag s ≡ (ok tt, s')
      → Grows [] s s'
  create_if-Grows (some h) c tag s s' f e = subst (Grows [] s) (ap (λ o. o.1) e) (stays s)
  create_if-Grows none c tag s s' f e =
      let h : HostCountersInfo Q T = new_host queries system s.config c tag in
      grow_twice [] [] s (put_host queries system c h s) s' (put_same c h s s.world (rw f refl))
        (on_query-Grows c queries.open_query tt (put_host queries system c h s) s' e)

  find_or_create_host-Grows :
      (c tag : Text) (s s' : State W Q T D)
      → find_or_create_host queries system c tag s ≡ (ok tt, s')
      → Grows [] s s'
  unfolding find_or_create_host
  find_or_create_host-Grows c tag s s' e = create_if-Grows _ c tag s s' refl e

  append_to-Grows :
      (found : Option (HostCountersInfo Q T)) (c : Text) (item : Names.Counter)
      (s s' : State W Q T D)
      → lookup text_eq c s.host_counters ≡ found
      → append_to queries system found c item s ≡ (ok tt, s')
      → Grows ((c, shape item) ∷ []) s s'
  append_to-Grows none c item s s' f e = absurd (ground arith)
  append_to-Grows (some h) c item s s' f e =
      let h' : HostCountersInfo Q T = record h { counters = h.counters ++ (item ∷ []) } in
      subst (Grows ((c, shape item) ∷ []) s) (ap (λ o. o.1) e) (record {
        same_config = refl;
        grown = λ k. elim (Bool-cases (text_eq c k)) [
          | inl same ↦
              let here : c ≡ k = (text_eq_iff c k).0 same in
              let before : counters_of k s.host_counters ≡ h.counters =
                subst (λ j. counters_of j s.host_counters ≡ h.counters) here (rw f refl) in
              rw (counters_of-insert k c h' s.host_counters, same, before)
                (map-append shape h.counters (item ∷ []))
          | inr differ ↦ rw (counters_of-insert k c h' s.host_counters, differ) (sym (append-nil _))
        ];
      })

  append_counter-Grows :
      (c : Text) (item : Names.Counter) (s s' : State W Q T D)
      → append_counter queries system c item s ≡ (ok tt, s')
      → Grows ((c, shape item) ∷ []) s s'
  unfolding append_counter
  append_counter-Grows c item s s' e = append_to-Grows _ c item s s' refl e

  source_tag-Grows :
      (c tag : Text) (s s' : State W Q T D)
      → source_tag queries system c s ≡ (ok tag, s')
      → Grows [] s s'
  source_tag-Grows c tag s s' e =
      let (tag', name, t) = source_tag_lem queries system c s in
      subst (Grows [] s) (ap (λ o. o.1) (sym t ∙ e))
        (record { same_config = refl; grown = λ k. sym (append-nil _) })

  add_single-Grows :
      (path c : Text) (args : ItemArgs) (handle : ℕ) (s s' : State W Q T D)
      → add_single queries system path c args handle s ≡ (ok tt, s')
      → Grows ((c, item_of path c args) ∷ []) s s'
  unfolding add_single new_counter
  add_single-Grows path c args handle s s' e = append_counter-Grows c _ s s' e

  if_false :
      {A : Type 0} (b : Bool) (m n : Action W Q T D A) (o : Result A × State W Q T D)
      (s : State W Q T D)
      → b ≡ false
      → (if b then m else n) s ≡ o
      → n s ≡ o
  if_false true m n o s e f = absurd (ground arith)
  if_false false m n o s e f = f

  -- Without expansion, an `addItem` that succeeds adds the item's counter to its computer.
  pub add_item-Grows :
      (path c : Text) (args : ItemArgs) (s s' : State W Q T D)
      → s.config.use_wildcards_expansion ≡ false
      → add_item queries system path c args s ≡ (ok tt, s')
      → Grows ((c, item_of path c args) ∷ []) s s'
  unfolding add_item
  add_item-Grows path c args s s' single e =
      let (tag, s₁, tagged, e₁) = bind_inv _ _ tt s' e in
      let (u, s₂, found, e₂) = bind_inv _ _ tt s' e₁ in
      let (handle, s₃, added, e₃) = bind_inv _ _ tt s' e₂ in
      let g₁ = source_tag-Grows c tag s s₁ tagged in
      let g₂ = find_or_create_host-Grows c tag s₁ s₂ found in
      let g₃ = on_query-Grows c _ handle s₂ s₃ added in
      let before = grow_twice [] [] s s₂ s₃ (grow_twice [] [] s s₁ s₂ g₁ g₂) g₃ in
      let none_expanded : s₃.config.use_wildcards_expansion ≡ false =
        ap (λ (config : Config). config.use_wildcards_expansion) before.same_config ∙ single in
      grow_twice [] ((c, item_of path c args) ∷ []) s s₃ s' before (
        add_single-Grows path c args handle s₃ s'
          (if_false s₃.config.use_wildcards_expansion _ _ _ s₃ none_expanded e₃))
