-- ===== src/WinPerfCounters/Handles/Hosts.antt =====
-- The handles that the hosts of the map hold, over the loops of win_perf_counters.go.
use mathlib.Core.List.{Perm}
use mathlib.Core.List.Perm
use win_perf_counters.Dict.{lookup, insert}
use win_perf_counters.Prelude.{
  ℕ, ◌≡◌, refl, arith, some, none, List, [], ◌∷◌, ◌++◌, inl, inr, Bool-cases, swap_parts, subst,
  change_both, regroup, ungroup,
}
use win_perf_counters.Result.{Result, ok, err, panic, out_of_fuel}
use win_perf_counters.Text.{Text, text_eq}
use win_perf_counters.WinPerfCounters.Hosts.{each_host}
use win_perf_counters.WinPerfCounters.Model.{HostCountersInfo, Hosts}

module _ {Q T : Type 0} (holds : Q → List ℕ) where
  abbrev pub handles_of : Hosts Q T → List ℕ
  handles_of [] = []
  handles_of ((k, h) ∷ hosts) = holds h.query ++ handles_of hosts

  -- One host of the map, and whatever is put in its place.
  pub record Placed (c : Text) (h : HostCountersInfo Q T) (hosts : Hosts Q T) : Type 0 where
    pub rest : List ℕ
    pub before : Perm (handles_of hosts) (holds h.query ++ rest)
    pub after :
        (h' : HostCountersInfo Q T)
        → Perm (handles_of (insert text_eq c h' hosts)) (holds h'.query ++ rest)

  pub found-Placed :
      (c : Text) (h : HostCountersInfo Q T) (hosts : Hosts Q T)
      → lookup text_eq c hosts ≡ some h
      → Placed c h hosts
  unfolding lookup insert
  found-Placed c h [] e = cc
  found-Placed c h ((k, j) ∷ hosts) e = elim (Bool-cases (text_eq k c)) [
    | inl here ↦
        let same : j ≡ h = ground (arith, rw here at e) in
        subst (λ i. Placed c i ((k, j) ∷ hosts)) same
          (record {
            rest = handles_of hosts;
            before = Perm.refl _;
            after = λ h'. rw here (Perm.refl _);
          })
    | inr there ↦
        let p = found-Placed c h hosts (rw there at e) in
        record {
          rest = holds j.query ++ p.rest;
          before =
              Perm.trans (Perm.append_left (holds j.query) p.before)
                (swap_parts (holds j.query) (holds h.query) p.rest);
          after = λ h'. rw there (
              Perm.trans (Perm.append_left (holds j.query) (p.after h'))
                (swap_parts (holds j.query) (holds h'.query) p.rest));
        }
  ]

  pub insert_new :
      (c : Text) (h : HostCountersInfo Q T) (hosts : Hosts Q T)
      → lookup text_eq c hosts ≡ none
      → Perm (handles_of (insert text_eq c h hosts)) (holds h.query ++ handles_of hosts)
  unfolding lookup insert
  insert_new c h [] e = Perm.refl _
  insert_new c h ((k, j) ∷ hosts) e = elim (Bool-cases (text_eq k c)) [
    | inl here ↦ absurd (ground (arith, rw here at e))
    | inr there ↦ rw there (
        Perm.trans (Perm.append_left (holds j.query) (insert_new c h hosts (rw there at e)))
          (swap_parts (holds j.query) (holds h.query) (handles_of hosts)))
  ]

module _ {W Q T : Type 0} (live : W → List ℕ) (holds : Q → List ℕ)
    (method : HostCountersInfo Q T → W → Result (Unit {0}) × HostCountersInfo Q T × W)
    (keeps : (others : List ℕ) (h : HostCountersInfo Q T) (w : W)
      → Perm (live w) (holds h.query ++ others)
      → Perm (live (method h w).2) (holds (method h w).1.query ++ others)) where
  after_round :
      (h : HostCountersInfo Q T) (hosts : Hosts Q T) (others : List ℕ) (w : W)
      → Perm (live w) ((holds h.query ++ handles_of holds hosts) ++ others)
      → Perm
          (live (method h w).2)
          (holds (method h w).1.query ++ (handles_of holds hosts ++ others))
  after_round h hosts others w p =
      keeps (handles_of holds hosts ++ others) h w
        (regroup (holds h.query) (handles_of holds hosts) others p)

  -- The rounds that follow one round, given how it ends.
  each_next-Keeps :
      (k : Text) (h : HostCountersInfo Q T) (hosts : Hosts Q T) (others : List ℕ) (w : W)
      (r : Result (Unit {0}))
      → (method h w).0 ≡ r
      → Perm (live w) (handles_of holds ((k, h) ∷ hosts) ++ others)
      → ((more : List ℕ) (w' : W)
          → Perm (live w') (handles_of holds hosts ++ more)
          → Perm
              (live (each_host method hosts w').2)
              (handles_of holds (each_host method hosts w').1 ++ more))
      → Perm
          (live (each_host method ((k, h) ∷ hosts) w).2)
          (handles_of holds (each_host method ((k, h) ∷ hosts) w).1 ++ others)
  unfolding each_host
  each_next-Keeps k h hosts others w (ok u) e p rest =
      let (r, hosts', w') = each_host method hosts (method h w).2 in
      rw (e, each_host)
        (change_both (holds h.query) (holds (method h w).1.query) (handles_of holds hosts)
          (handles_of holds hosts') others p (λ more. keeps more h w)
          (λ more. rest more (method h w).2))
  each_next-Keeps k h hosts others w (err x) e p rest =
      rw (e, each_host) (ungroup _ (handles_of holds hosts) others (after_round h hosts others w p))
  each_next-Keeps k h hosts others w panic e p rest =
      rw (e, each_host) (ungroup _ (handles_of holds hosts) others (after_round h hosts others w p))
  each_next-Keeps k h hosts others w out_of_fuel e p rest =
      rw (e, each_host) (ungroup _ (handles_of holds hosts) others (after_round h hosts others w p))

  pub each_host-Keeps :
      (hosts : Hosts Q T) (others : List ℕ) (w : W)
      → Perm (live w) (handles_of holds hosts ++ others)
      → Perm
          (live (each_host method hosts w).2)
          (handles_of holds (each_host method hosts w).1 ++ others)
  each_host-Keeps [] others w p = unfold each_host in p
  each_host-Keeps ((k, h) ∷ hosts) others w p =
      each_next-Keeps k h hosts others w _ refl p (each_host-Keeps hosts)
