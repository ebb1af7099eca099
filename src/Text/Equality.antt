-- ===== src/Text/Equality.antt =====
-- The comparison of strings decides equality.
use win_perf_counters.Prelude.{
  ◌≡◌, refl, ◌≢◌, ◌↔◌, inl, inr, true, false, [], ◌∷◌, arith, Bool-cases,
}
use win_perf_counters.Text.{Text, text_eq}

pub text_eq_iff : (a b : Text) → (text_eq a b ≡ true) ↔ (a ≡ b)
unfolding text_eq
text_eq_iff [] [] = ground arith
text_eq_iff (x ∷ a) (y ∷ b) = ground (arith, text_eq_iff a b)
text_eq_iff _ _ = ground arith

pub text_eq_self : (a : Text) → text_eq a a ≡ true
text_eq_self a = (text_eq_iff a a).1 refl

pub text_eq_ne : (a b : Text) → a ≢ b → text_eq a b ≡ false
text_eq_ne a b ne = elim (Bool-cases (text_eq a b)) [
  | inl same ↦ absurd (ne ((text_eq_iff a b).0 same))
  | inr differ ↦ differ
]
