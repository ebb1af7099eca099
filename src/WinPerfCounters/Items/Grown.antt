-- ===== src/WinPerfCounters/Items/Grown.antt =====
-- The counters of the hosts in the map (win_perf_counters.go), and how they grow.
use win_perf_counters.Dict.Laws.{lookup-insert_all}
use win_perf_counters.Dict.{lookup, insert}
use win_perf_counters.Names
use win_perf_counters.Names.{new_counter}
use win_perf_counters.Prelude.{
  ◌≡◌, refl, sym, ◌∙◌, Option, none, some, List, [], ◌∷◌, ◌++◌, map, if◌then◌else◌, inl, inr,
  Bool-cases, arith, append-nil, append_assoc,
}
use win_perf_counters.Result.{Result, ok, err, panic, out_of_fuel}
use win_perf_counters.Text.Equality.{text_eq_iff}
use win_perf_counters.Text.{Text, text_eq}
use win_perf_counters.WinPerfCounters.Items.{ItemArgs}
use win_perf_counters.WinPerfCounters.Model.{HostCountersInfo, Hosts, State, Action, continue}

abbrev counters_if : {Q T : Type 0} → Option (HostCountersInfo Q T) → List Names.Counter
counters_if none = []
counters_if (some h) = h.counters

-- The counters of a computer.
abbrev pub counters_of : {Q T : Type 0} → Text → Hosts Q T → List Names.Counter
counters_of k hosts = counters_if (lookup text_eq k hosts)

-- A counter without the handle that pdh.dll gave it.
abbrev pub shape : Names.Counter → Names.Counter
shape c = record c { counter_handle = 0 }

-- The counter of an item, with no handle yet.
abbrev pub item_of : Text → Text → ItemArgs → Names.Counter
item_of path c args =
    new_counter 0 path c args.object_name args.instance_name args.counter_name args.measurement
      args.include_total args.use_raw_value

-- Of counters for several computers, those for one.
abbrev pub for_computer : Text → List (Text × Names.Counter) → List Names.Counter
for_computer k [] = []
for_computer k ((c, item) ∷ items) =
    if text_eq c k then item ∷ for_computer k items else for_computer k items

pub for_computer-append :
    (k : Text) (xs ys : List (Text × Names.Counter))
    → for_computer k (xs ++ ys) ≡ for_computer k xs ++ for_computer k ys
for_computer-append k [] ys = refl
for_computer-append k ((c, item) ∷ xs) ys = ground (arith, for_computer-append k xs ys)

-- The configuration stays, and every computer has its counters and behind them the new ones.
pub record Grows {W Q T D : Type 0} (items : List (Text × Names.Counter)) (s s' : State W Q T D)
    : Type 0 where
  pub same_config : s'.config ≡ s.config
  pub grown :
      (k : Text)
      → map shape (counters_of k s'.host_counters)
        ≡ map shape (counters_of k s.host_counters) ++ for_computer k items

module _ {W Q T D : Type 0} where
  pub stays : (s : State W Q T D) → Grows [] s s
  stays s = record { same_config = refl; grown = λ k. sym (append-nil _) }

  pub grow_twice :
      (xs ys : List (Text × Names.Counter)) (s s' s'' : State W Q T D)
      → Grows xs s s'
      → Grows ys s' s''
      → Grows (xs ++ ys) s s''
  grow_twice xs ys s s' s'' g h = record {
    same_config = h.same_config ∙ g.same_config;
    grown = λ k.
        rw (h.grown k, g.grown k, for_computer-append k xs ys)
          (append_assoc _ (for_computer k xs) (for_computer k ys));
  }

  -- A bind that succeeds is two actions that succeed.
  pub bind_inv :
      {A B : Type 0} (o : Result A × State W Q T D) (f : A → Action W Q T D B) (b : B)
      (s' : State W Q T D)
      → continue o f ≡ (ok b, s')
      → (a : A) × (t : State W Q T D) × (o ≡ (ok a, t)) × (f a t ≡ (ok b, s'))
  bind_inv (ok a, t) f b s' e = (a, t, refl, e)
  bind_inv (err x, t) f b s' e = absurd (ground arith)
  bind_inv (panic, t) f b s' e = absurd (ground arith)
  bind_inv (out_of_fuel, t) f b s' e = absurd (ground arith)

pub counters_of-insert :
    {Q T : Type 0} (k c : Text) (h : HostCountersInfo Q T) (hosts : Hosts Q T)
    → counters_of k (insert text_eq c h hosts)
      ≡ (if text_eq c k then h.counters else counters_of k hosts)
counters_of-insert k c h hosts = elim (Bool-cases (text_eq c k)) [
  | inl same ↦ rw (lookup-insert_all text_eq text_eq_iff k c h hosts, same) refl
  | inr differ ↦ rw (lookup-insert_all text_eq text_eq_iff k c h hosts, differ) refl
]
