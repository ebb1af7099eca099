-- ===== src/Path/Brackets.antt =====
-- The texts that a counter path is made of, by their brackets.
use win_perf_counters.Prelude.{ℕ, ◌≢◌, [], ◌∷◌, ◌++◌}
use win_perf_counters.Text.{Text}

abbrev pub IsPlainByte : ℕ → Type 0
IsPlainByte c = (c ≢ b'\\') × (c ≢ b'(') × (c ≢ b')')

-- No backslash and no bracket.
pub data IsPlain : Text → Type 0 where
  plain_nil : IsPlain []
  plain_byte : (c : ℕ) (t : Text) → IsPlainByte c → IsPlain t → IsPlain (c ∷ t)

-- Every bracket has its partner; backslashes may stand anywhere.
pub data IsBalanced : Text → Type 0 where
  balanced_nil : IsBalanced []
  balanced_byte : (c : ℕ) (t : Text) → c ≢ b'(' → c ≢ b')' → IsBalanced t → IsBalanced (c ∷ t)
  balanced_group :
      (t u : Text) → IsBalanced t → IsBalanced u → IsBalanced (b'(' ∷ (t ++ (b')' ∷ u)))

-- Balanced, with every backslash inside a bracket.
pub data IsName : Text → Type 0 where
  name_nil : IsName []
  name_byte : (c : ℕ) (t : Text) → IsPlainByte c → IsName t → IsName (c ∷ t)
  name_group : (t u : Text) → IsBalanced t → IsName u → IsName (b'(' ∷ (t ++ (b')' ∷ u)))
