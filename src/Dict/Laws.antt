-- ===== src/Dict/Laws.antt =====
-- Maps whose keys are compared by a test that decides equality: what an assignment leaves at every
-- key, and that no key stands twice.
use win_perf_counters.Dict.{lookup, insert}
use win_perf_counters.Prelude.{
  ◌≡◌, refl, ◌↔◌, Bool, true, none, some, List, [], ◌∷◌, if◌then◌else◌, arith, inl, inr, Bool-cases,
}

abbrev pub Decides : {K : Type 0} → (K → K → Bool) → Type 0
Decides {K} same = (j k : K) → (same j k ≡ true) ↔ (j ≡ k)

module _ {K V : Type 0} (same : K → K → Bool) where
  -- No key stands twice.
  abbrev pub NodupKeys : List (K × V) → Type 0
  NodupKeys [] = Unit
  NodupKeys ((k, v) ∷ m) = (lookup same k m ≡ none) × NodupKeys m

module _ {K V : Type 0} (same : K → K → Bool) (decides : Decides same) where
  pub lookup-insert_all :
      (j k : K) (v : V) (m : List (K × V))
      → lookup same j (insert same k v m) ≡ (if same k j then some v else lookup same j m)
  unfolding lookup insert
  lookup-insert_all j k v [] = refl
  lookup-insert_all j k v ((i, w) ∷ m) =
      ground (arith, decides i k, decides i j, decides k j, lookup-insert_all j k v m)

  -- Of two assignments to a key the first leaves nothing.
  pub insert-insert :
      (k : K) (v v' : V) (m : List (K × V))
      → insert same k v' (insert same k v m) ≡ insert same k v' m
  unfolding insert
  insert-insert k v v' [] = rw ((decides k k).1 refl) refl
  insert-insert k v v' ((i, w) ∷ m) = elim (Bool-cases (same i k)) [
    | inl here ↦ rw (here, (decides k k).1 refl) refl
    | inr there ↦ rw (there, there, insert-insert k v v' m) refl
  ]

  pub insert-NodupKeys :
      (k : K) (v : V) (m : List (K × V)) → NodupKeys same m → NodupKeys same (insert same k v m)
  unfolding insert lookup
  insert-NodupKeys k v [] n = (refl, tt)
  insert-NodupKeys k v ((j, w) ∷ m) n = elim (Bool-cases (same j k)) [
    | inl here ↦ rw here (ground (arith, decides j k, n.0), n.1)
    | inr there ↦ rw there (
      ground (arith, decides j k, decides k j, n.0, lookup-insert_all j k v m),
      insert-NodupKeys k v m n.1,
    )
  ]
