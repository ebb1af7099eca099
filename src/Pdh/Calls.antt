-- ===== src/Pdh/Calls.antt =====
-- The functions of pdh.go, over the procedures of the library: each passes its arguments on, and
-- keeps 32 bits of the word that comes back.
use win_perf_counters.Int.{ℤ}
use win_perf_counters.Pdh.Api.{Reply, CounterData, Item, Pdh}
use win_perf_counters.Pdh.Codes.{error_success, error_failure}
use win_perf_counters.Pdh.Dll.{
  Written, Message, units, failure, Dll, Runtime, uint32_of, pdh_fmt_long, pdh_fmt_large,
  pdh_fmt_double_nocap100, format_message_flags, has_nul, decimal,
}
use win_perf_counters.Pdh.FileTime.{FileTime, unix_nanos}
use win_perf_counters.Pdh.Layout.{Layouts}
use win_perf_counters.Pdh.Memory.{signed}
use win_perf_counters.Pdh.Reading.{
  Memory, read_long, read_large, read_double, read_raw, read_items, read_full_path, read_data,
}
use win_perf_counters.Prelude.{ℕ, Option, none, some, List, [], ◌∷◌, ◌++◌, ◌==◌, if◌then◌else◌}
use win_perf_counters.Query.Strings.Encode.{encode_from, encode_utf16}
use win_perf_counters.Query.Strings.{decode_utf16, utf8}
use win_perf_counters.Text.{Text, codes}

module _ {W T D : Type 0} (layouts : Layouts) (go : Runtime W T D) (dll : Dll W) where
  -- `syscall.UTF16PtrFromString`: nil for a string with a NUL, of which the calls drop the error.
  unfoldable pub utf16_ptr_from_string : Text → Option (List ℕ)
  unfolding encode_from
  utf16_ptr_from_string s = if has_nul s then none else some (encode_utf16 s ++ (0 ∷ []))

  -- What a call returns beside what it writes.
  abbrev pub with_uint32 : {A B : Type 0} → (A → B) → (ℕ × A) × W → (ℕ × B) × W
  with_uint32 f ((ret, a), w) = ((uint32_of ret, f a), w)

  abbrev pub same : {A : Type 0} → A → A
  same a = a

  abbrev uint32_ret : ℕ × W → ℕ × W
  uint32_ret (ret, w) = (uint32_of ret, w)

  -- `pdhAddCounter`, with 0 for its user data as it is called.
  unfoldable pub pdh_add_counter : ℕ → Text → W → (ℕ × ℕ) × W
  unfolding utf16_ptr_from_string
  pdh_add_counter query path w =
      with_uint32 same (dll.add_counter_w query (utf16_ptr_from_string path) 0 w)

  -- `pdhAddEnglishCounter` where the procedure was found.
  unfoldable pub pdh_add_english_counter_found :
      (ℕ → Option (List ℕ) → ℕ → W → (ℕ × ℕ) × W) → ℕ → Text → W → (ℕ × ℕ) × W
  unfolding utf16_ptr_from_string
  pdh_add_english_counter_found call query path w =
      with_uint32 same (call query (utf16_ptr_from_string path) 0 w)

  abbrev pub found_english_counter :
      Option (ℕ → Option (List ℕ) → ℕ → W → (ℕ × ℕ) × W) → Option (ℕ → Text → W → (ℕ × ℕ) × W)
  found_english_counter none = none
  found_english_counter (some call) = some (pdh_add_english_counter_found call)

  -- `pdhCloseQuery`
  unfoldable pub pdh_close_query : ℕ → W → ℕ × W
  pdh_close_query query w = uint32_ret (dll.close_query query w)

  -- `pdhCollectQueryData`
  unfoldable pub pdh_collect_query_data : ℕ → W → ℕ × W
  pdh_collect_query_data query w = uint32_ret (dll.collect_query_data query w)

  abbrev with_clock : ℕ → W → (ℕ × T) × W
  with_clock ret w = let (t, w') = go.now w in ((ret, t), w')

  -- The conversion of the local time that was collected.
  unfoldable pub convert_file_time : FileTime → W → (ℕ × T) × W
  unfolding unix_nanos
  convert_file_time local w =
      let ((ret, utc), w') = dll.local_file_time_to_file_time local w in
      if ret == 0
      then with_clock (uint32_of error_failure) w'
      else ((uint32_of error_success, go.unix (signed 64 (unix_nanos utc))), w')

  -- `pdhCollectQueryDataWithTime`: the whole word is compared here, and its lower half returned.
  unfoldable pub pdh_collect_query_data_with_time : ℕ → W → (ℕ × T) × W
  unfolding convert_file_time
  pdh_collect_query_data_with_time query w =
      let ((ret, local), w') = dll.collect_query_data_with_time query w in
      if ret == error_success then convert_file_time local w' else with_clock (uint32_of ret) w'

  -- `pdhGetFormattedCounterValueLong`, `…Large` and `…Double`
  unfoldable pub pdh_get_formatted_counter_value_long : ℕ → W → (ℕ × CounterData ℤ) × W
  unfolding read_data
  pdh_get_formatted_counter_value_long counter w =
      with_uint32 (read_long layouts) (dll.get_formatted_counter_value counter pdh_fmt_long w)

  unfoldable pub pdh_get_formatted_counter_value_large : ℕ → W → (ℕ × CounterData ℤ) × W
  unfolding read_data
  pdh_get_formatted_counter_value_large counter w =
      with_uint32 (read_large layouts) (dll.get_formatted_counter_value counter pdh_fmt_large w)

  unfoldable pub pdh_get_formatted_counter_value_double : ℕ → W → (ℕ × CounterData D) × W
  unfolding read_data
  pdh_get_formatted_counter_value_double counter w =
      with_uint32 (read_double layouts go.float64_of_bits)
        (dll.get_formatted_counter_value counter pdh_fmt_double_nocap100 w)

  -- What a call with a buffer leaves, and what the caller reads there.
  abbrev reply_of : {P : Type 0} → (ℕ → Memory → P) → Written × W → Reply P × W
  reply_of content (r, w) =
      (record { status = uint32_of r.ret; size = r.size; content = content r.count r.memory }, w)

  -- `pdhGetFormattedCounterArrayLong`, `…Large` and `…Double`
  unfoldable pub pdh_get_formatted_counter_array_long : ℕ → ℕ → W → Reply (List (Item ℤ)) × W
  unfolding read_items read_data
  pdh_get_formatted_counter_array_long counter size w =
      reply_of (read_items layouts layouts.item_long (codes "FmtValue") (read_long layouts))
        (dll.get_formatted_counter_array_w counter pdh_fmt_long size w)

  unfoldable pub pdh_get_formatted_counter_array_large : ℕ → ℕ → W → Reply (List (Item ℤ)) × W
  unfolding read_items read_data
  pdh_get_formatted_counter_array_large counter size w =
      reply_of (read_items layouts layouts.item_large (codes "FmtValue") (read_large layouts))
        (dll.get_formatted_counter_array_w counter pdh_fmt_large size w)

  unfoldable pub pdh_get_formatted_counter_array_double : ℕ → ℕ → W → Reply (List (Item D)) × W
  unfolding read_items read_data
  pdh_get_formatted_counter_array_double counter size w =
      reply_of
        (read_items layouts layouts.item_double (codes "FmtValue")
          (read_double layouts go.float64_of_bits))
        (dll.get_formatted_counter_array_w counter pdh_fmt_double_nocap100 size w)

  -- `pdhOpenQuery`, with no log file and no user data as it is called.
  unfoldable pub pdh_open_query : W → (ℕ × ℕ) × W
  pdh_open_query w = with_uint32 same (dll.open_query 0 0 w)

  abbrev pub reply32 : Reply (List ℕ) × W → Reply (List ℕ) × W
  reply32 (r, w) = (record r { status = uint32_of r.status }, w)

  -- `pdhExpandWildCardPath`: on the local computer; what is passed as the flags is the address of a
  -- variable that holds them.
  unfoldable pub pdh_expand_wild_card_path : Text → ℕ → W → Reply (List ℕ) × W
  unfolding utf16_ptr_from_string
  pdh_expand_wild_card_path path size w =
      reply32
        (dll.expand_wild_card_path_w 0 (utf16_ptr_from_string path) size (go.flags_address w) w)

  abbrev message_text : ℕ → Message → Text
  message_text code (units us) = utf8 (decode_utf16 us)
  message_text code (failure e) = codes "(pdhErr=" ++ decimal 10 code ++ codes ") " ++ e

  -- `pdhFormatError`
  unfoldable pub pdh_format_error : ℕ → Text
  unfolding utf8 decode_utf16
  pdh_format_error code = message_text code (dll.format_message format_message_flags code)

  -- `pdhGetCounterInfo`, without the explaining text as it is called, and the path that the caller
  -- reads.
  unfoldable pub pdh_get_counter_info : ℕ → ℕ → W → Reply (Option (List ℕ)) × W
  unfolding read_full_path
  pdh_get_counter_info counter size w =
      reply_of (λ count memory. read_full_path layouts memory)
        (dll.get_counter_info_w counter 0 size w)

  -- `pdhGetRawCounterValue`
  unfoldable pub pdh_get_raw_counter_value : ℕ → W → (ℕ × CounterData ℤ) × W
  unfolding read_data
  pdh_get_raw_counter_value counter w =
      with_uint32 (read_raw layouts) (dll.get_raw_counter_value counter w)

  -- `pdhGetRawCounterArray`
  unfoldable pub pdh_get_raw_counter_array : ℕ → ℕ → W → Reply (List (Item ℤ)) × W
  unfolding read_items read_data
  pdh_get_raw_counter_array counter size w =
      reply_of (read_items layouts layouts.raw_counter_item (codes "RawValue") (read_raw layouts))
        (dll.get_raw_counter_array_w counter size w)

  -- `pdhValidatePath`
  unfoldable pub pdh_validate_path : Text → W → ℕ × W
  unfolding utf16_ptr_from_string
  pdh_validate_path path w = uint32_ret (dll.validate_path_w (utf16_ptr_from_string path) w)

  -- What performance_query.go calls.
  abbrev pub pdh_dll : Pdh W T D
  pdh_dll = record {
    open_query = pdh_open_query;
    close_query = pdh_close_query;
    add_counter = pdh_add_counter;
    add_english_counter = found_english_counter dll.add_english_counter_w;
    collect_query_data = pdh_collect_query_data;
    collect_query_data_with_time = pdh_collect_query_data_with_time;
    get_counter_info = pdh_get_counter_info;
    expand_wild_card_path = pdh_expand_wild_card_path;
    get_formatted_long = pdh_get_formatted_counter_value_long;
    get_formatted_large = pdh_get_formatted_counter_value_large;
    get_formatted_double = pdh_get_formatted_counter_value_double;
    get_raw_value = pdh_get_raw_counter_value;
    get_array_long = pdh_get_formatted_counter_array_long;
    get_array_large = pdh_get_formatted_counter_array_large;
    get_array_double = pdh_get_formatted_counter_array_double;
    get_raw_array = pdh_get_raw_counter_array;
    format_message = pdh_format_error;
    now = go.now;
  }
