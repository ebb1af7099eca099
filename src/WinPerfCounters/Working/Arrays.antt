-- ===== src/WinPerfCounters/Working/Arrays.antt =====
-- Reading the arrays of a pdh.dll (performance_query.go) returns, if they can be read.
use win_perf_counters.Pdh.Api.{Reply, Item, Pdh}
use win_perf_counters.Prelude.{
  ℕ, ◌≡◌, ◌<◌, ◌≤◌, ◌^◌, true, leb, Option, none, some, List, [], ◌∷◌, All, length, either_branch,
  arith,
}
use win_perf_counters.Query.Buffer.Content.{fill_buffer-OnOk}
use win_perf_counters.Query.Buffer.Rounds.{fill_buffer-Returns}
use win_perf_counters.Query.Buffer.{buffer_rounds, initial_buffer_size}
use win_perf_counters.Query.Strings.{
  Runes, until_zero, decode_line, utf16_ptr_to_string, utf16_opt_to_string, utf8,
}
use win_perf_counters.Query.Values.{read_buffer}
use win_perf_counters.Query.{Query, NamedValue, is_valid_status, valid_items, counter_items}
use win_perf_counters.Result
use win_perf_counters.Result.{Result, ok, err, panic, out_of_fuel, Returns, OnOk}

-- A pointer to units that a zero ends, or none.
abbrev pub EndsInZero : Option (List ℕ) → Type 0
EndsInZero none = Unit
EndsInZero (some units) = (line : List ℕ) × (until_zero units ≡ some line)

-- An array that can be read: at most 2 ^ 20 items, each with a name that ends.
abbrev pub IsReadable : {V : Type 0} → List (Item V) → Type 0
IsReadable items = (length items ≤ 2 ^ 20) × All (λ i. EndsInZero i.sz_name) items

name-Returns : (s : Option (List ℕ)) → EndsInZero s → Returns (utf16_opt_to_string s)
unfolding utf16_opt_to_string utf16_ptr_to_string decode_line
name-Returns none ends = tt
name-Returns (some units) (line, e) = rw e tt

-- A value is read under the name, the rest behind it.
item-Returns :
    {V : Type 0} (v : V) (name : Result Runes) (rest : Result (List (NamedValue V)))
    → Returns name
    → Returns rest
    → Returns (
        Result.◌>>=◌ name
          (λ n. Result.◌>>=◌ rest (λ values. ok (record { name = utf8 n; value = v } ∷ values))))
item-Returns v (ok n) (ok values) p q = tt
item-Returns v (ok n) (err x) p q = tt
item-Returns v (ok n) panic p q = q
item-Returns v (ok n) out_of_fuel p q = q
item-Returns v (err x) rest p q = tt
item-Returns v panic rest p q = p
item-Returns v out_of_fuel rest p q = p

valid_items-Returns :
    {V : Type 0} (items : List (Item V))
    → All (λ i. EndsInZero i.sz_name) items
    → Returns (valid_items items)
unfolding valid_items
valid_items-Returns [] h = tt
valid_items-Returns {V} (i ∷ items) h =
    either_branch {A = Result (List (NamedValue V))} Returns (is_valid_status i.fmt_value.c_status)
      (item-Returns i.fmt_value.value _ _ (name-Returns i.sz_name h.0)
        (valid_items-Returns items h.1))
      (valid_items-Returns items h.1)

counter_items-Returns :
    {V : Type 0} (items : List (Item V)) → IsReadable items → Returns (counter_items items)
unfolding counter_items
counter_items-Returns items (few, named) =
    let short : leb (length items) (2 ^ 20) ≡ true = ground arith in
    rw short (valid_items-Returns items named)

decoded-Returns :
    {A B : Type 0} (P : A → Type 0) (r : Result A) (decode : A → Result B)
    → Returns r
    → OnOk P r
    → ((a : A) → P a → Returns (decode a))
    → Returns (Result.◌>>=◌ r decode)
decoded-Returns P (ok a) decode p q h = h a q
decoded-Returns P (err x) decode p q h = tt
decoded-Returns P panic decode p q h = p
decoded-Returns P out_of_fuel decode p q h = p

module _ {W T D : Type 0} (api : Pdh W T D) where
  pub read_buffer-Returns :
      {V : Type 0} (call : ℕ → W → Reply (List (Item V)) × W) (q : Query) (w : W)
      → ((n : ℕ) (w : W) → (call n w).0.size < 2 ^ 31)
      → ((n : ℕ) (w : W) → IsReadable (call n w).0.content)
      → q.max_buffer_size < 2 ^ 31
      → Returns (read_buffer api call counter_items q w).0
  read_buffer-Returns call q w sizes readable small =
      decoded-Returns IsReadable _ counter_items
        (fill_buffer-Returns api.format_message call q.max_buffer_size w small sizes)
        (fill_buffer-OnOk IsReadable api.format_message call readable buffer_rounds
          q.max_buffer_size initial_buffer_size w)
        counter_items-Returns
