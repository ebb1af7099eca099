-- ===== src/Dict/Texts.antt =====
-- Maps whose keys are texts: what an assignment leaves at its own key and at the others.
use win_perf_counters.Dict.{lookup, insert}
use win_perf_counters.Prelude.{◌≡◌, ◌≢◌, some, List, [], ◌∷◌, arith}
use win_perf_counters.Text.Equality.{text_eq_iff, text_eq_self}
use win_perf_counters.Text.{Text, text_eq}

pub lookup-insert_other :
    {V : Type 0} (j k : Text) (v : V) (m : List (Text × V))
    → j ≢ k
    → lookup text_eq k (insert text_eq j v m) ≡ lookup text_eq k m
unfolding lookup insert
lookup-insert_other j k v [] ne = ground (arith, text_eq_iff j k)
lookup-insert_other j k v ((i, w) ∷ m) ne =
    ground
      (arith, text_eq_iff i j, text_eq_iff i k, text_eq_iff j k, lookup-insert_other j k v m ne)

pub lookup-insert :
    {V : Type 0} (j : Text) (v : V) (m : List (Text × V))
    → lookup text_eq j (insert text_eq j v m) ≡ some v
unfolding lookup insert
lookup-insert j v [] = ground (arith, text_eq_self j)
lookup-insert j v ((i, w) ∷ m) = ground (arith, text_eq_self j, lookup-insert j v m)
