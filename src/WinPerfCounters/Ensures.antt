-- ===== src/WinPerfCounters/Ensures.antt =====
-- Actions that keep an invariant of the state and whose value is as described.
use win_perf_counters.Prelude.{◌≡◌, sym, subst, Bool, true, false, List, [], ◌∷◌, if◌then◌else◌}
use win_perf_counters.Result.{Result, ok, err, panic, out_of_fuel, OnOk}
use win_perf_counters.WinPerfCounters.Model.{State, Action, pure, continue, ◌>>=◌, for_each}

-- Whatever the action returns, the invariant holds of the state that it leaves.
pub record Ensures {W Q T D A : Type 0} (I : State W Q T D → Type 0) (P : A → Type 0)
    (a : Action W Q T D A) : Type 0 where
  pub outcome : (s : State W Q T D) → I s → OnOk P (a s).0 × I (a s).1

-- Nothing is said of the value.
abbrev pub Anything {ℓ} : {A : Type ℓ} → A → Type 0
Anything a = Unit

abbrev pub Preserves : {W Q T D A : Type 0} → (State W Q T D → Type 0) → Action W Q T D A → Type 0
Preserves I a = Ensures I Anything a

module _ {W Q T D : Type 0} (I : State W Q T D → Type 0) where
  pub anything : {A : Type 0} (r : Result A) → OnOk Anything r
  anything (ok a) = tt
  anything (err e) = tt
  anything panic = tt
  anything out_of_fuel = tt

  -- An action is described by what it does to the state alone.
  pub keeping :
      {A : Type 0} (a : Action W Q T D A) → ((s : State W Q T D) → I s → I (a s).1) → Preserves I a
  keeping a h = record { outcome = λ s i. (anything (a s).0, h s i) }

  continue-Ensures :
      {A B : Type 0} (P : A → Type 0) (R : B → Type 0) (o : Result A × State W Q T D)
      (f : A → Action W Q T D B)
      → OnOk P o.0 × I o.1
      → ((a : A) → P a → Ensures I R (f a))
      → OnOk R (continue o f).0 × I (continue o f).1
  continue-Ensures P R (ok a, s) f h g = (g a h.0).outcome s h.1
  continue-Ensures P R (err e, s) f h g = (tt, h.1)
  continue-Ensures P R (panic, s) f h g = (tt, h.1)
  continue-Ensures P R (out_of_fuel, s) f h g = (tt, h.1)

  pub bind-Ensures :
      {A B : Type 0} {P : A → Type 0} {R : B → Type 0} (m : Action W Q T D A)
      (f : A → Action W Q T D B)
      → Ensures I P m
      → ((a : A) → P a → Ensures I R (f a))
      → Ensures I R (m >>= f)
  bind-Ensures {P} {R} m f h g = record {
    outcome = λ s i. continue-Ensures P R (m s) f (h.outcome s i) g;
  }

  pub bind-Preserves :
      {A B : Type 0} (m : Action W Q T D A) (f : A → Action W Q T D B)
      → Preserves I m
      → ((a : A) → Preserves I (f a))
      → Preserves I (m >>= f)
  bind-Preserves m f h g = bind-Ensures m f h (λ a p. g a)

  pub pure-Ensures :
      {A : Type 0} {P : A → Type 0} (a : A)
      → P a
      → Ensures I P (pure {W = W} {Q = Q} {T = T} {D = D} a)
  pure-Ensures a p = record { outcome = λ s i. (p, i) }

  pub pure-Preserves : {A : Type 0} (a : A) → Preserves I (pure {W = W} {Q = Q} {T = T} {D = D} a)
  pure-Preserves a = pure-Ensures a tt

  pub if-Ensures :
      {A : Type 0} {P : A → Type 0} (b : Bool) (m n : Action W Q T D A)
      → Ensures I P m
      → Ensures I P n
      → Ensures I P (if b then m else n)
  if-Ensures true m n h g = h
  if-Ensures false m n h g = g

  pub for_each-Preserves :
      {A : Type 0} (xs : List A) (f : A → Action W Q T D (Unit {0}))
      → ((a : A) → Preserves I (f a))
      → Preserves I (for_each xs f)
  for_each-Preserves [] f h = pure-Preserves tt
  for_each-Preserves (x ∷ xs) f h =
      bind-Preserves (f x) (λ u. for_each xs f) (h x) (λ u. for_each-Preserves xs f h)

  -- A loop whose first round establishes the invariant.
  pub for_each_first :
      {A : Type 0} {xs : List A} (x : A) (rest : List A) (f : A → Action W Q T D (Unit {0}))
      (s : State W Q T D)
      → xs ≡ x ∷ rest
      → I (f x s).1
      → ((a : A) → Preserves I (f a))
      → I (for_each xs f s).1
  for_each_first x rest f s e i h =
      subst (λ l. I (for_each l f s).1) (sym e)
        (continue-Ensures Anything Anything (f x s) (λ u. for_each rest f) (anything (f x s).0, i)
          (λ u p. for_each-Preserves rest f h)).1

  -- A branch that is taken on the state it starts in.
  pub branch-Ensures :
      {A : Type 0} (P : A → Type 0) (b : Bool) (x y : Result A × State W Q T D)
      → OnOk P x.0 × I x.1
      → OnOk P y.0 × I y.1
      → OnOk P (if b then x else y).0 × I (if b then x else y).1
  branch-Ensures P true x y h g = h
  branch-Ensures P false x y h g = g
