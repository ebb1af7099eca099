-- ===== src/WinPerfCounters/Hosts/Cleaning.antt =====
-- What `cleanQueries` does with a host whose query is not open.
use win_perf_counters.Prelude.{◌≡◌, refl, ◌≢◌, ◌⊎◌, inl, inr, Bool, false, List, [], ◌∷◌, arith, ap}
use win_perf_counters.Result.{Error, uninitialized_query, Result, ok, err, panic, out_of_fuel}
use win_perf_counters.Text.{Text}
use win_perf_counters.WinPerfCounters.Hosts.{
  put_first, each_host, in_hosts, on_host, close_hosts, forget_hosts, clean_queries,
}
use win_perf_counters.WinPerfCounters.Implementation.{QueryLaws}
use win_perf_counters.WinPerfCounters.Model.{
  HostCountersInfo, Hosts, State, PerformanceQuery, System, continue,
}

abbrev pub keys : {Q T : Type 0} → Hosts Q T → List Text
keys [] = []
keys ((k, h) ∷ hosts) = k ∷ keys hosts

module _ {W Q T : Type 0}
    (method : HostCountersInfo Q T → W → Result (Unit {0}) × HostCountersInfo Q T × W) where
  -- The first round decides how the loop goes on.
  pub data Looped (k : Text) (h : HostCountersInfo Q T) (hosts : Hosts Q T) (w : W) : Type 0 where
    goes_on :
        each_host method ((k, h) ∷ hosts) w
          ≡ put_first method k (method h w).1 (each_host method hosts (method h w).2)
        → (method h w).0 ≡ ok tt
        → Looped k h hosts w
    stops :
        (r : Result (Unit {0}))
        → r ≢ ok tt
        → each_host method ((k, h) ∷ hosts) w ≡ (r, (k, (method h w).1) ∷ hosts, (method h w).2)
        → Looped k h hosts w

  first_round :
      (k : Text) (h : HostCountersInfo Q T) (hosts : Hosts Q T) (w : W) (r : Result (Unit {0}))
      → (method h w).0 ≡ r
      → Looped k h hosts w
  unfolding each_host
  first_round k h hosts w (ok u) e = goes_on (rw (e, each_host)) e
  first_round k h hosts w (err x) e = stops (err x) (λ f. cc) (rw (e, each_host))
  first_round k h hosts w panic e = stops panic (λ f. cc) (rw (e, each_host))
  first_round k h hosts w out_of_fuel e = stops out_of_fuel (λ f. cc) (rw (e, each_host))

  pub looped :
      (k : Text) (h : HostCountersInfo Q T) (hosts : Hosts Q T) (w : W) → Looped k h hosts w
  looped k h hosts w = first_round k h hosts w (method h w).0 refl

  pub each_host-err :
      (k : Text) (h : HostCountersInfo Q T) (hosts : Hosts Q T) (w : W) {x : Error}
      {h' : HostCountersInfo Q T} {w' : W}
      → method h w ≡ (err x, h', w')
      → each_host method ((k, h) ∷ hosts) w ≡ (err x, (k, h') ∷ hosts, w')
  unfolding each_host
  each_host-err k h hosts w e = ground arith

  -- The loop keeps the hosts, whatever it does to each of them.
  pub keys-each_host : (hosts : Hosts Q T) (w : W) → keys (each_host method hosts w).1 ≡ keys hosts
  keys-each_host [] w = unfold each_host in refl
  keys-each_host ((k, h) ∷ hosts) w = elim (looped k h hosts w) [
    | goes_on e f ↦ rw e (ap (◌∷◌ k) (keys-each_host hosts (method h w).2))
    | stops r ne e ↦ rw e refl
  ]

-- After anything but success the next action is not run.
pub continue_stops :
    {W Q T D : Type 0} {A B : Type 0} (o : Result B × State W Q T D)
    (f : B → State W Q T D → Result A × State W Q T D)
    → ((b : B) → o.0 ≢ ok b)
    → ((a : A) → (continue o f).0 ≢ ok a) × ((continue o f).1 ≡ o.1)
continue_stops (ok u, s) f h = absurd (h u refl)
continue_stops (err e, s) f h = (λ a x. cc, refl)
continue_stops (panic, s) f h = (λ a x. cc, refl)
continue_stops (out_of_fuel, s) f h = (λ a x. cc, refl)

module _ {W Q T D : Type 0} (queries : PerformanceQuery W Q T D) (system : System W T)
    (is_open : Q → Bool) (laws : QueryLaws queries is_open) where
  -- Some host's query is not open.
  abbrev pub HasUnopened : Hosts Q T → Type 0
  HasUnopened [] = ⊥
  HasUnopened ((k, h) ∷ hosts) = (is_open h.query ≡ false) ⊎ HasUnopened hosts

  -- A method that reports a query as not initialized if it is not open, and changes nothing then.
  module _ (method : Q → W → Result (Unit {0}) × Q × W)
      (reports : (q : Q) (w : W)
        → is_open q ≡ false
        → method q w ≡ (err uninitialized_query, q, w)) where
    reported :
        (h : HostCountersInfo Q T) (w : W)
        → is_open h.query ≡ false
        → on_host queries system method h w ≡ (err uninitialized_query, h, w)
    reported h w shut = rw (reports h.query w shut) refl

    -- The loop over the hosts does not succeed, and leaves such a host in the map.
    pub loop-HasUnopened :
        (hosts : Hosts Q T) (w : W)
        → HasUnopened hosts
        → let loop = each_host (on_host queries system method) hosts w in
          (loop.0 ≢ ok tt) × HasUnopened loop.1
    loop-HasUnopened [] w h = elim h [ ]
    loop-HasUnopened ((k, h) ∷ hosts) w (inl shut) =
        rw (each_host-err (on_host queries system method) k h hosts w (reported h w shut))
          (λ e. cc, inl shut)
    loop-HasUnopened ((k, h) ∷ hosts) w (inr later) =
        elim (looped (on_host queries system method) k h hosts w) [
          | goes_on e f ↦ rw e (
            (loop-HasUnopened hosts (on_host queries system method h w).2 later).0,
            inr (loop-HasUnopened hosts (on_host queries system method h w).2 later).1,
          )
          | stops r ne e ↦ rw e (ne, inr later)
        ]

  -- If some host's query is not open, `cleanQueries` does not succeed, and afterwards the map still
  -- holds all the hosts, and one whose query is not open.
  pub clean_queries-HasUnopened :
      (s : State W Q T D)
      → HasUnopened s.host_counters
      → let (r, s') = clean_queries queries system s in
        (r ≢ ok tt)
        × HasUnopened s'.host_counters
        × (keys s'.host_counters ≡ keys s.host_counters)
        × (s'.last_refreshed ≡ s.last_refreshed)
  unfolding clean_queries close_hosts
  clean_queries-HasUnopened s u =
      let method = on_host queries system queries.close in
      let loop = each_host method s.host_counters s.world in
      let (failed, still) =
        loop-HasUnopened queries.close laws.close_unopened s.host_counters s.world u in
      let (bad, same) =
        continue_stops (in_hosts queries system loop s) (λ u. forget_hosts queries system)
          (λ u. failed) in
      (bad tt, rw same still, rw same (keys-each_host method s.host_counters s.world), rw same refl)
