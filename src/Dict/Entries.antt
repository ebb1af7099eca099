-- ===== src/Dict/Entries.antt =====
-- What all the values of a map have in common is kept by an assignment and found by a lookup.
use win_perf_counters.Dict.{lookup, insert}
use win_perf_counters.Prelude.{
  ◌≡◌, Bool, some, List, [], ◌∷◌, All, inl, inr, Bool-cases, subst, arith,
}

module _ {K V : Type 0} (same : K → K → Bool) (P : V → Type 0) where
  pub insert-All :
      (k : K) (v : V) (m : List (K × V))
      → P v
      → All (λ e. P e.1) m
      → All (λ e. P e.1) (insert same k v m)
  unfolding insert
  insert-All k v [] p a = (p, tt)
  insert-All k v ((j, w) ∷ m) p a = elim (Bool-cases (same j k)) [
    | inl here ↦ rw here (p, a.1)
    | inr there ↦ rw there (a.0, insert-All k v m p a.1)
  ]

  pub lookup-All :
      (k : K) (v : V) (m : List (K × V)) → lookup same k m ≡ some v → All (λ e. P e.1) m → P v
  unfolding lookup
  lookup-All k v [] e a = cc
  lookup-All k v ((j, w) ∷ m) e a = elim (Bool-cases (same j k)) [
    | inl here ↦ subst P (ground arith) a.0
    | inr there ↦ lookup-All k v m (ground arith) a.1
  ]
