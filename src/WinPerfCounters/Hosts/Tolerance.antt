-- ===== src/WinPerfCounters/Hosts/Tolerance.antt =====
-- Which errors `parseConfig` returns.
use win_perf_counters.Prelude.{◌≡◌, refl, ◌≢◌, false, List, [], ◌∷◌, All}
use win_perf_counters.Result.{Result, ok, err, panic, out_of_fuel}
use win_perf_counters.Text.{Text}
use win_perf_counters.WinPerfCounters.Hosts.{
  tolerate, named_computer, parse_instance, parse_computer, computers_of, parse_object,
  default_sources, parse_objects, parse_config,
}
use win_perf_counters.WinPerfCounters.Model.{
  PerfObject, State, PerformanceQuery, System, Action, continue, for_each,
}

abbrev pub NoError {ℓ} : {A : Type ℓ} → Result A → Type 0
NoError (ok a) = Unit
NoError (err e) = ⊥
NoError panic = Unit
NoError out_of_fuel = Unit

-- The object does not insist on its counters.
abbrev pub IsTolerant : PerfObject → Type 0
IsTolerant o = o.fail_on_missing ≡ false

module _ {W Q T D : Type 0} where
  continue-NoError :
      (o : Result (Unit {0}) × State W Q T D) (f : Unit {0} → Action W Q T D (Unit {0}))
      → NoError o.0
      → ((u : Unit {0}) (s : State W Q T D) → NoError (f u s).0)
      → NoError (continue o f).0
  continue-NoError (ok u, s) f h k = k u s
  continue-NoError (err e, s) f h k = h
  continue-NoError (panic, s) f h k = tt
  continue-NoError (out_of_fuel, s) f h k = tt

  for_each-NoError :
      {A : Type 0} (P : A → Type 0) (xs : List A) (f : A → Action W Q T D (Unit {0}))
      (s : State W Q T D)
      → All P xs
      → ((x : A) → P x → (s : State W Q T D) → NoError (f x s).0)
      → NoError (for_each xs f s).0
  for_each-NoError P [] f s a h = tt
  for_each-NoError P (x ∷ xs) f s a h =
      continue-NoError (f x s) (λ u. for_each xs f) (h x a.0 s)
        (λ u s'. for_each-NoError P xs f s' a.1 h)

  tolerate-NoError :
      (queries : PerformanceQuery W Q T D) (system : System W T)
      (o : Result (Unit {0}) × State W Q T D)
      → NoError (tolerate queries system false o).0
  tolerate-NoError queries system (ok u, s) = tt
  tolerate-NoError queries system (err e, s) = tt
  tolerate-NoError queries system (panic, s) = tt
  tolerate-NoError queries system (out_of_fuel, s) = tt

All-Unit : {A : Type 0} (xs : List A) → All (λ x. Unit {0}) xs
All-Unit [] = tt
All-Unit (x ∷ xs) = (tt, All-Unit xs)

module _ {W Q T D : Type 0} (queries : PerformanceQuery W Q T D) (system : System W T) where
  parse_instance-NoError :
      (o : PerfObject) (computer counter inst : Text) (s : State W Q T D)
      → IsTolerant o
      → NoError (parse_instance queries system o computer counter inst s).0
  unfolding parse_instance
  parse_instance-NoError o computer counter inst s t = rw t (tolerate-NoError queries system _)

  parse_computer-NoError :
      (o : PerfObject) (computer : Text) (s : State W Q T D)
      → IsTolerant o
      → NoError (parse_computer queries system o computer s).0
  unfolding parse_computer
  parse_computer-NoError o computer s t =
      for_each-NoError (λ c. Unit {0}) o.counters _ s (All-Unit o.counters)
        (λ counter u s'.
          for_each-NoError (λ c. Unit {0}) o.instances _ s' (All-Unit o.instances)
            (λ inst v s''.
              parse_instance-NoError o (named_computer queries system computer) counter inst s'' t))

  parse_object-NoError :
      (common : List Text) (o : PerfObject) (s : State W Q T D)
      → IsTolerant o
      → NoError (parse_object queries system common o s).0
  unfolding parse_object
  parse_object-NoError common o s t =
      let computers = computers_of queries system common o.sources in
      for_each-NoError (λ c. Unit {0}) computers _ s (All-Unit computers)
        (λ computer u s'. parse_computer-NoError o computer s' t)

  parse_objects-NoError :
      (os : List PerfObject) (common : List Text) (s : State W Q T D)
      → os ≢ []
      → All IsTolerant os
      → NoError (parse_objects queries system os common s).0
  parse_objects-NoError [] common s ne t = absurd (ne refl)
  parse_objects-NoError (o ∷ os) common s ne t =
      for_each-NoError IsTolerant (o ∷ os) (parse_object queries system common) s t
        (λ x p s'. parse_object-NoError common x s' p)

  -- With some object configured, and none that insists on its counters, `parseConfig` returns no
  -- error, whatever the errors of the single items.
  pub parse_config-NoError :
      (s : State W Q T D)
      → s.config.object ≢ []
      → All IsTolerant s.config.object
      → NoError (parse_config queries system s).0
  unfolding parse_config
  parse_config-NoError s ne t =
      let common = default_sources queries system s.config.sources in
      parse_objects-NoError s.config.object common
        (record s { config = record s.config { sources = common } }) ne t
