-- ===== src/Tests/PathExamples.antt =====
-- Counter paths, formatted and read back.
use win_perf_counters.Path.Brackets.{
  IsPlain, plain_nil, plain_byte, IsBalanced, balanced_nil, balanced_byte, balanced_group, IsName,
  name_nil, name_byte, name_group,
}
use win_perf_counters.Path.RoundTrip.{
  info, shown_computer, shown_instance, FitsInstance, named, extract-format_path,
  extract_first_byte,
}
use win_perf_counters.Path.Safety.{extract_counter_info-Returns}
use win_perf_counters.Path.{extract_counter_info, format_path, format_local}
use win_perf_counters.Prelude.{◌≡◌, ◌∷◌, ◌++◌, arith}
use win_perf_counters.Result.{ok, Returns}
use win_perf_counters.Text.{codes}

box-IsPlain : IsPlain (codes "box")
box-IsPlain =
    plain_byte b'b' (codes "ox") (omega arith) (
      plain_byte b'o' (codes "x") (omega arith)
        (plain_byte b'x' (codes "") (omega arith) plain_nil))

-- "Net"
net-IsName : IsName (codes "Net")
net-IsName =
    name_byte b'N' (codes "et") (omega arith)
      (name_byte b'e' (codes "t") (omega arith) (name_byte b't' (codes "") (omega arith) name_nil))

-- "(\)b"
instance-IsBalanced : IsBalanced (codes "(\\)b")
instance-IsBalanced =
    balanced_group (codes "\\") (codes "b")
      (balanced_byte b'\\' (codes "") (omega arith) (omega arith) balanced_nil)
      (balanced_byte b'b' (codes "") (omega arith) (omega arith) balanced_nil)

net-FitsInstance : FitsInstance (codes "Net") (codes "(\\)b")
net-FitsInstance = named (codes "Net") (codes "(\\)b") net-IsName instance-IsBalanced (λ e. cc)

-- "B(n)"
counter-IsName : IsName (codes "B(n)")
counter-IsName = name_byte b'B' (codes "(n)") (omega arith) (
    name_group (codes "n") (codes "")
      (balanced_byte b'n' (codes "") (omega arith) (omega arith) balanced_nil) name_nil)

extract-format_path_example :
    extract_counter_info (format_path (codes "box") (codes "Net") (codes "(\\)b") (codes "B(n)"))
    ≡ ok (
        info
          (shown_computer (codes "box"))
          (codes "Net")
          (shown_instance (codes "(\\)b"))
          (codes "B(n)"))
extract-format_path_example =
    extract-format_path (codes "box") (codes "Net") (codes "(\\)b") (codes "B(n)") box-IsPlain
      net-FitsInstance counter-IsName

extract_first_byte_example :
    extract_counter_info
      (b'x' ∷ b'\\' ∷ (codes "box" ++ format_local (codes "Net") (codes "(\\)b") (codes "B(n)")))
    ≡ ok (info (codes "box") (codes "Net") (shown_instance (codes "(\\)b")) (codes "B(n)"))
extract_first_byte_example =
    extract_first_byte b'x' (codes "box") (codes "Net") (codes "(\\)b") (codes "B(n)") (omega arith)
      (omega arith) box-IsPlain (λ e. cc) net-FitsInstance counter-IsName

extract_counter_info-Returns_example : Returns (extract_counter_info (codes "\\)x(y\\)"))
extract_counter_info-Returns_example = extract_counter_info-Returns (codes "\\)x(y\\)")
