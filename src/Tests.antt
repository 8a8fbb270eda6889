-- ===== src/Tests.antt =====
-- The library at concrete inputs: a body with two signals under three names.
pub mod Serving
pub mod Limits
use vcd_tools_rs.Prelude.{
  length, if_intro, if◌then◌else◌, true, ◌≤◌, ◌<◌, ◌^◌, map, ℕ, ◌≡◌, refl, ◌++◌, ap, ◌∙◌, false,
  none, some, List, [], ◌∷◌, Text, codes, get_elem?, arith, ok, err,
}
use vcd_tools_rs.Prelude.Keys.{text_eqb, text_eq}
use vcd_tools_rs.Prelude.Assoc.{lookup, contains_key, entries, push, insert}
use vcd_tools_rs.Errors.{QueryResult, missing_signals, missing_signal, from_vcd, into_vcd_error}
use vcd_tools_rs.Value.{ChangeValue, TimeWindow, contains}
use vcd_tools_rs.Vcd.{
  timestamp, change_scalar, change_vector, BitValue, v0, v1, unknown, VcdDisplay, shift_bits,
  is_integer,
}
use vcd_tools_rs.Value.{
  Formats, TargetValue, ascii_lower, parse_target_value, format_value_for_signal, normalize_target,
}
use vcd_tools_rs.Value.RoundTrip.{parse_target-format_value}
use vcd_tools_rs.Errors.Conversions.{into_vcd_error-from_vcd}
use vcd_tools_rs.Catalog.Invariant.{IsCatalog, from_scope_items-IsCatalog}
use vcd_tools_rs.Catalog.Names.{declared, names-from_scope_items}
use vcd_tools_rs.Catalog.{
  SignalCatalog, SignalMeta, ScopeItem, ScopeItems, scope, var, nil, cons, from_scope_items,
  collect, add_scope, add_signal, put_signal, signal_name, join_dot, from_len, names,
}
use vcd_tools_rs.Catalog
use vcd_tools_rs.Query.Context.{
  World, legacy_unlimited, check_at, check, check_signal_count, over_limit, exceeded,
}
use vcd_tools_rs.Query.Opened
use vcd_tools_rs.Query.Opened.{OpenedVcd}
use vcd_tools_rs.Query.Stream.Checks.{Calm}
use vcd_tools_rs.Query.Stream.Passed.{Passes}
use vcd_tools_rs.Query.Extract.Collect.{drained}
use vcd_tools_rs.Query.Stream.{
  TargetSelection, bindings, contains_id, bind_target, selection_of, resolve_loop, resolve,
  new_stream, validated, selected_change_stream, selected_value, join_comma,
  vector_to_change_value_selected,
}
use vcd_tools_rs.Query.Stream.Selection.{IsSelection, bound, missing_of, resolve_lem}
use vcd_tools_rs.Query.Extract.{TimeValue, OpenedTimeValueIter, new_iter, extract, collect_rows}
use vcd_tools_rs.Query.Extract.Emission.{NoRowLimits}
use vcd_tools_rs.Query.Extract.Promise.{
  collect_rows-extract, collect_rows-extract_sound, collect_rows-extract_terminates, query_rows,
  change_rows,
}
use vcd_tools_rs.Query.Extract.Opening.{extract-known, extract-missing}
use vcd_tools_rs.Vcd.{vector_to_change_value}
use vcd_tools_rs.Vcd.Vectors.{vector_to_change_value_lem}
use vcd_tools_rs.Query.Find.{find_nth_occurrence}
use vcd_tools_rs.Query.Find.Occurrence.{find_nth_occurrence_lem, nth_match}
use vcd_tools_rs.Query.Compare.{ComparisonOptions, compare_signal_timeline}
use vcd_tools_rs.Query.Compare.Identical.{compare_signal_timeline_refl}
use vcd_tools_rs.Query.Compare.Whole.{compare_signals}
use vcd_tools_rs.Query.Toggles.{count_toggles}
use vcd_tools_rs.Query.Toggles.Texts.{toggles, texts_of, requested}
use vcd_tools_rs.Query.Toggles.Counts.{count_toggles_lem}
use vcd_tools_rs.Query.Metadata.{compute_metadata, compute_time_bounds}
use vcd_tools_rs.Query.Metadata.Agreement.{as_query, described, compute_metadata-eq-time_bounds}
use vcd_tools_rs.Server.Utf8.{from_utf8}
use vcd_tools_rs.Server.Lines.{
  JsonLineAccumulator, new_accumulator, push_bytes, push_loop, push_byte, poison, frame,
  accumulator_poisoned, line_too_long,
}
use vcd_tools_rs.Server.Lines.Chunks.{push_bytes_after_error}
use vcd_tools_rs.Server.Lines.Bounds.{IsBounded, push_bytes-IsBounded}
use vcd_tools_rs.Query.Extract.Legacy.{collect_legacy, new_legacy}
use vcd_tools_rs.Query.Extract.Legacy.Answers.{SameTargets, as_vcd}
use vcd_tools_rs.Query.Extract.Legacy.Equivalence.{collect_rows-eq-legacy}

abbrev clk : Text
clk = codes "clk"

abbrev bus : Text
bus = codes "bus"

abbrev alias : Text
alias = codes "alias"

abbrev meta : ℕ → Text → ℕ → SignalMeta
meta id name size = record { id_code = id; full_name = name; size = size; type_ = 0; scope = none }

abbrev opened : OpenedVcd
opened = record {
  catalog = record {
    signals = meta 1 clk 1 ∷ meta 2 bus 4 ∷ meta 2 alias 4 ∷ [];
    by_name = (clk, 0) ∷ (bus, 1) ∷ (alias, 2) ∷ [];
    aliases_by_id = (1, 0 ∷ []) ∷ (2, 1 ∷ 2 ∷ []) ∷ [];
    scopes = [];
  };
  timescale = none;
  body =
      ok (timestamp 0)
      ∷ ok (change_scalar 1 v0)
      ∷ ok (change_vector 2 (v1 ∷ v0 ∷ v1 ∷ v0 ∷ []))
      ∷ ok (timestamp 7)
      ∷ ok (change_scalar 1 v1)
      ∷ ok (timestamp 20)
      ∷ ok (change_vector 2 (v0 ∷ v0 ∷ v1 ∷ v0 ∷ []))
      ∷ [];
}

abbrev display : VcdDisplay
display = record { show_value = show_bit; show_vector = λ v. codes "xxxx" }
  where
    show_bit : BitValue → Text
    show_bit v0 = codes "0"
    show_bit v1 = codes "1"
    show_bit (unknown n) = codes "x"

-- A clock that stands, and a file that nobody touches.
abbrev still : World
still = record { now = λ m. 0; validate = λ m. ok tt }

abbrev window : TimeWindow
window = record { start = none; end = some 10 }

still-Calm : Calm still legacy_unlimited
unfolding check_at
still-Calm = record { checks = λ m. refl; validates = λ m. refl; no_command_limit = refl }

free : NoRowLimits legacy_unlimited
free = record { no_max_rows = refl; no_max_result_bytes = refl }

abbrev both : TargetSelection
both = record {
  by_id =
      (
        2,
        record { request_index = 0; name = alias; size = 4 }
            ∷ record { request_index = 1; name = bus; size = 4 }
            ∷ [],
      )
      ∷ [];
  request_count = 2;
}

abbrev iterator : OpenedTimeValueIter
iterator = record {
  stream = new_stream opened.body both window legacy_unlimited 6;
  context = legacy_unlimited;
  pending = [];
  rows = 0;
  logical_bytes = 0;
  terminated = false;
}

extracted : (extract still opened (alias ∷ bus ∷ []) window legacy_unlimited 0).0 ≡ ok iterator
unfolding extract selected_change_stream resolve resolve_loop bind_target selection_of check_at
    check check_signal_count over_limit exceeded validated Opened.signal Catalog.key_by_name
    Catalog.signal lookup push new_iter text_eqb
extracted = refl

both-IsSelection : IsSelection both
unfolding contains_id contains_key bindings entries
both-IsSelection = record { bound = λ id c. ground arith; few = λ id. ground arith }

same : SameTargets both ((2, alias ∷ bus ∷ []) ∷ [])
unfolding contains_id contains_key bindings entries lookup
same id = ground arith

collect_rows-eq-legacy_example :
    (r : QueryResult (List TimeValue)) × (collect_rows still display 20 iterator ≡ some r)
    × (collect_legacy display 20 (new_legacy opened.body ((2, alias ∷ bus ∷ []) ∷ []) window)
        ≡ some (as_vcd r))
unfolding new_iter
collect_rows-eq-legacy_example =
    collect_rows-eq-legacy still display legacy_unlimited both ((2, alias ∷ bus ∷ []) ∷ []) window
      opened.body 6 20 still-Calm free both-IsSelection same (omega arith)

collect_rows-extract_example :
    collect_rows still display 20 iterator
    ≡ some (query_rows display opened (alias ∷ bus ∷ []) window 0 opened.body)
collect_rows-extract_example =
    collect_rows-extract still opened (alias ∷ bus ∷ []) window legacy_unlimited display 0 20
      iterator extracted still-Calm free (omega arith)

abbrev bus_rows : List TimeValue
bus_rows =
    record { signal = alias; time = 0; value = ChangeValue.integer 10 }
    ∷ record { signal = bus; time = 0; value = ChangeValue.integer 10 }
    ∷ []

expected_rows : query_rows display opened (alias ∷ bus ∷ []) window 0 opened.body ≡ ok bus_rows
unfolding query_rows change_rows bound selected_value vector_to_change_value_selected is_integer
    shift_bits contains Opened.signal Catalog.key_by_name Catalog.signal lookup text_eqb
expected_rows = refl

collect_rows-extract_sound_example :
    (query_rows display opened (alias ∷ bus ∷ []) window 0 opened.body ≡ ok bus_rows)
    × (missing_of opened (alias ∷ bus ∷ []) ≡ [])
    × Passes still iterator.stream.moment (drained still display 20 iterator).stream.moment
collect_rows-extract_sound_example =
    collect_rows-extract_sound still opened (alias ∷ bus ∷ []) window legacy_unlimited display 0 20
      iterator bus_rows opened.body extracted (omega arith) (λ n after last passed. refl)
      (collect_rows-extract_example ∙ ap some expected_rows)

collect_rows-extract_terminates_example :
    (r : QueryResult (List TimeValue)) × (collect_rows still display 20 iterator ≡ some r)
collect_rows-extract_terminates_example =
    collect_rows-extract_terminates still opened (alias ∷ bus ∷ []) window legacy_unlimited display
      0 20 iterator extracted (omega arith)

all_known : missing_of opened (alias ∷ bus ∷ []) ≡ []
unfolding missing_of Opened.signal Catalog.key_by_name Catalog.signal lookup text_eqb
all_known = refl

abbrev ghost : Text
ghost = codes "ghost"

some_missing : missing_of opened (bus ∷ ghost ∷ []) ≡ ghost ∷ []
unfolding missing_of Opened.signal Catalog.key_by_name Catalog.signal lookup text_eqb
some_missing = refl

extract-known_example :
    (it : OpenedTimeValueIter) × ((extract still opened
        (alias ∷ bus ∷ [])
        window
        legacy_unlimited
        0).0
      ≡ ok it)
extract-known_example =
    extract-known still opened (alias ∷ bus ∷ []) window legacy_unlimited still-Calm 0 refl
      all_known

extract-missing_example :
    (extract still opened (bus ∷ ghost ∷ []) window legacy_unlimited 0).0
    ≡ err (from_vcd (missing_signals (join_comma (missing_of opened (bus ∷ ghost ∷ [])))))
extract-missing_example =
    extract-missing still opened (bus ∷ ghost ∷ []) window legacy_unlimited still-Calm 0 refl
      (λ h. ground (arith, some_missing))

resolved : (resolve still opened legacy_unlimited (alias ∷ bus ∷ []) 1).0 ≡ ok both
unfolding resolve resolve_loop bind_target selection_of check_at check check_signal_count over_limit
    exceeded Opened.signal Catalog.key_by_name Catalog.signal lookup push text_eqb
resolved = refl

resolve_lem_example :
    (missing_of opened (alias ∷ bus ∷ []) ≡ [])
    × ((id : ℕ) → bindings both id ≡ bound opened id 0 (alias ∷ bus ∷ []))
    × IsSelection both
    × (both.request_count ≡ 2)
resolve_lem_example = resolve_lem still opened legacy_unlimited (alias ∷ bus ∷ []) both 1 resolved

abbrev tree : ScopeItems
tree =
    cons
      (scope (codes "t") (
        cons (var (record { code = 1; size = 1; var_type = 0; reference = clk; index = none })) (
          cons
            (var (record {
              code = 2;
              size = 4;
              var_type = 0;
              reference = bus;
              index = some (codes "[3:0]");
            }))
            nil)))
      nil

abbrev tree_meta : ℕ → Text → ℕ → SignalMeta
tree_meta id name size = record {
  id_code = id;
  full_name = name;
  size = size;
  type_ = 0;
  scope = some 0;
}

abbrev tree_catalog : SignalCatalog
tree_catalog = record {
  signals = tree_meta 1 (codes "t.clk") 1 ∷ tree_meta 2 (codes "t.bus[3:0]") 4 ∷ [];
  by_name = (codes "t.clk", 0) ∷ (codes "t.bus[3:0]", 1) ∷ [];
  aliases_by_id = (1, 0 ∷ []) ∷ (2, 1 ∷ []) ∷ [];
  scopes = record { component = codes "t"; parent = none } ∷ [];
}

catalogued : from_scope_items tree ≡ ok tree_catalog
unfolding from_scope_items collect add_scope add_signal put_signal signal_name join_dot from_len
    insert push contains_key text_eqb
catalogued = refl

from_scope_items-IsCatalog_example : IsCatalog tree_catalog
from_scope_items-IsCatalog_example = from_scope_items-IsCatalog tree tree_catalog catalogued

names-from_scope_items_example :
    (names tree_catalog ≡ declared tree [])
    × ((i j : ℕ) (m n : SignalMeta)
        → get_elem? tree_catalog.signals i ≡ some m
        → get_elem? tree_catalog.signals j ≡ some n
        → m.full_name ≡ n.full_name
        → i ≡ j)
names-from_scope_items_example = names-from_scope_items tree tree_catalog catalogued

-- ASCII texts are all that the example formats.
abbrev formats : Formats
formats = record {
  lowercase = map ascii_lower;
  show_f64 = λ b. codes "0.0";
  lowercase_ascii = λ t h. refl;
}

parse_target-format_value_example :
    parse_target_value formats (format_value_for_signal formats (ChangeValue.integer 10) 8)
    ≡ TargetValue.integer 10
parse_target-format_value_example = parse_target-format_value formats 10 8 (omega arith)

into_vcd_error-from_vcd_example :
    into_vcd_error (from_vcd (missing_signal clk)) ≡ missing_signal clk
into_vcd_error-from_vcd_example = into_vcd_error-from_vcd (missing_signal clk)

bus_row :
    query_rows display opened (bus ∷ []) window 0 opened.body
    ≡ ok (record { signal = bus; time = 0; value = ChangeValue.integer 10 } ∷ [])
unfolding query_rows change_rows bound selected_value vector_to_change_value_selected is_integer
    shift_bits contains Opened.signal Catalog.key_by_name Catalog.signal lookup text_eqb
bus_row = refl

bus_known : Opened.signal opened bus ≡ some (meta 2 bus 4)
unfolding Opened.signal Catalog.key_by_name Catalog.signal lookup text_eqb
bus_known = refl

find_nth_occurrence_lem_example :
    find_nth_occurrence still display formats opened 20 bus
      (TargetValue.integer 10)
      1
      window
      legacy_unlimited
      0
    ≡ some (
        ok (
          nth_match still display formats
              (normalize_target formats (TargetValue.integer 10))
              0
              (record { signal = bus; time = 0; value = ChangeValue.integer 10 } ∷ []),
          4,
        ))
find_nth_occurrence_lem_example =
    find_nth_occurrence_lem still display formats opened 20 bus (TargetValue.integer 10) 0 window
      legacy_unlimited 0 (meta 2 bus 4)
      (record { signal = bus; time = 0; value = ChangeValue.integer 10 } ∷ []) still-Calm free refl
      bus_known bus_row (omega arith)

compute_metadata-eq-time_bounds_example :
    (compute_metadata still legacy_unlimited opened 0).0
    ≡ as_query (described opened (compute_time_bounds opened.body))
compute_metadata-eq-time_bounds_example =
    compute_metadata-eq-time_bounds still legacy_unlimited still-Calm opened 0

abbrev short_lines : JsonLineAccumulator
short_lines = new_accumulator 3

abbrev broken : JsonLineAccumulator
broken = record { buffer = []; max_line_bytes = 3; poisoned = true }

too_long : push_bytes (codes "{  }") short_lines ≡ (err (line_too_long 3 4), broken)
unfolding push_bytes push_loop push_byte poison
too_long = refl

push_bytes_after_error_example : push_bytes (10 ∷ []) broken ≡ (err accumulator_poisoned, broken)
push_bytes_after_error_example =
    push_bytes_after_error (codes "{  }") (10 ∷ []) short_lines broken (line_too_long 3 4) too_long

push_bytes-IsBounded_example : IsBounded 3 (push_bytes (codes "{  }") short_lines).1
push_bytes-IsBounded_example =
    push_bytes-IsBounded 3 (codes "{  }") short_lines
      (record { same_bound = refl; room = omega arith })

ten_is_integer : is_integer (v1 ∷ v0 ∷ v1 ∷ v0 ∷ []) ≡ true
unfolding is_integer
ten_is_integer = refl

vector_to_change_value_lem_example :
    (vector_to_change_value display (v1 ∷ v0 ∷ v1 ∷ v0 ∷ []) ≡ ChangeValue.integer 10)
    × (10 < 2 ^ 4)
    × (4 ≤ 128)
vector_to_change_value_lem_example =
    vector_to_change_value_lem display (v1 ∷ v0 ∷ v1 ∷ v0 ∷ []) ten_is_integer

abbrev options : ComparisonOptions
options = record {
  max_mismatches = some 1;
  signals_only = [];
  ignore_unknown = false;
  time_window = window;
}

abbrev changes : List (ℕ × ChangeValue)
changes =
    (0, ChangeValue.text (codes "0"))
    ∷ (5, ChangeValue.text (codes "X"))
    ∷ (5, ChangeValue.integer 3)
    ∷ (9, ChangeValue.integer 4)
    ∷ []

compare_signal_timeline_refl_example :
    (compare_signal_timeline still legacy_unlimited formats options clk 5 changes changes 0).0
    ≡ ok (some ([], 0))
compare_signal_timeline_refl_example =
    compare_signal_timeline_refl still legacy_unlimited still-Calm formats options clk changes 5 0
      (omega arith)

count_toggles_lem_example :
    (counts : List (Text × ℕ)) × (count_toggles formats opened still display 20
        (alias ∷ bus ∷ [])
        window
        legacy_unlimited
        0
      ≡ some (ok counts))
    × ((name : Text)
        → lookup name counts ≡ (
            if requested name (alias ∷ bus ∷ [])
            then some (toggles (texts_of formats opened name bus_rows))
            else none))
count_toggles_lem_example =
    count_toggles_lem formats opened still display (alias ∷ bus ∷ []) window legacy_unlimited 20 0
      bus_rows still-Calm free refl all_known (omega arith) expected_rows
