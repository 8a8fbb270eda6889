-- ===== src/Query/Stream.antt =====
-- src/query/stream.rs: target selection and the body decoder.
pub mod Checks
pub mod Trace
pub mod Selection
pub mod Passed
use vcd_tools_rs.Prelude.{
  ℕ, zero, suc, ◌+◌, ◌%◌, Bool, true, false, ◌&&◌, Option, none, some, List, [], ◌∷◌, ◌++◌, Text,
  codes, length, ltb, nat_eqb, saturating_add, if◌then◌else◌, Result, ok, err, nat_eq,
}
use vcd_tools_rs.Prelude.Assoc.{contains_key, entries, push}
use vcd_tools_rs.Errors.{
  VcdError, io, missing_signals, QueryError, QueryResult, limit_exceeded, commands, from_vcd,
}
use vcd_tools_rs.Value.{ChangeValue, TimeWindow, contains, after_end}
use vcd_tools_rs.Vcd.{
  Item, Command, timestamp, change_scalar, change_vector, change_real, change_string, other,
  VcdDisplay, Vector, shift_bits, is_integer,
}
use vcd_tools_rs.Catalog.{SignalMeta}
use vcd_tools_rs.Query.Exec.{Exec, ◌>>=◌, ◌>>◌, raise, pure}
use vcd_tools_rs.Query.Context.{World, QueryContext, check_at, check, check_signal_count}
use vcd_tools_rs.Query.Opened.{OpenedVcd, signal}

abbrev pub command_check_interval : ℕ
command_check_interval = 4096

pub record TargetBinding : Type 0 where
  pub request_index : ℕ
  pub name : Text
  pub size : ℕ

pub record TargetSelection : Type 0 where
  pub by_id : List (ℕ × List TargetBinding)
  pub request_count : ℕ

-- What the loop of `resolve` has gathered: the bindings by code, and the missing names.
pub record Resolution : Type 0 where
  pub by_id : List (ℕ × List TargetBinding)
  pub missing : List Text

unfoldable pub bind_target : ℕ → Text → Option SignalMeta → Resolution → Resolution
bind_target request_index name none r = record r { missing = r.missing ++ name ∷ [] }
bind_target request_index name (some m) r = record r {
  by_id =
      push m.id_code (record { request_index = request_index; name = m.full_name; size = m.size })
        r.by_id;
}

-- `missing.join(", ")`.
unfoldable pub join_comma : List Text → Text
join_comma [] = []
join_comma (t ∷ []) = t
join_comma (t ∷ u ∷ ts) = t ++ codes ", " ++ join_comma (u ∷ ts)

unfoldable pub selection_of : ℕ → Resolution → QueryResult TargetSelection
selection_of request_count r = elim (r.missing) [
  | [] ↦ ok (record { by_id = r.by_id; request_count = request_count })
  | n ∷ ns ↦ err (from_vcd (missing_signals (join_comma (n ∷ ns))))
]

unfoldable pub contains_id : TargetSelection → ℕ → Bool
contains_id s id = contains_key id s.by_id

unfoldable pub bindings : TargetSelection → ℕ → List TargetBinding
bindings s id = entries id s.by_id

module _ (w : World) (o : OpenedVcd) (c : QueryContext) where
  unfoldable pub resolve_loop : ℕ → List Text → Resolution → Exec ℕ Resolution
  resolve_loop request_index [] r = pure r
  resolve_loop request_index (name ∷ names) r = do
    check w c
    resolve_loop (suc request_index) names (bind_target request_index name (signal o name) r)

  -- `TargetSelection::resolve`.
  unfoldable pub resolve : List Text → Exec ℕ TargetSelection
  resolve targets = do
    check_signal_count w c (length targets)
    r ← resolve_loop 0 targets (record { by_id = []; missing = [] })
    λ moment. (selection_of (length targets) r, moment)

pub record SelectedChange : Type 0 where
  pub id_code : ℕ
  pub time : ℕ
  pub value : ChangeValue

-- `items` is what the parser has still to yield, and `moment` the next look at the surroundings.
pub record SelectedChangeStream : Type 0 where
  pub items : List Item
  pub selection : TargetSelection
  pub window : TimeWindow
  pub context : QueryContext
  pub current_time : ℕ
  pub command_count : ℕ
  pub finished : Bool
  pub moment : ℕ

abbrev pub new_stream :
    List Item → TargetSelection → TimeWindow → QueryContext → ℕ → SelectedChangeStream
new_stream items selection window context moment = record {
  items = items;
  selection = selection;
  window = window;
  context = context;
  current_time = 0;
  command_count = 0;
  finished = false;
  moment = moment;
}

-- An error of the reader as `QueryError::from` turns it.
unfoldable pub validated : Result VcdError (Unit {0}) → QueryResult (Unit {0})
validated (ok u) = ok u
validated (err e) = err (from_vcd e)

unfoldable pub vector_to_change_value_selected : VcdDisplay → Vector → ChangeValue
vector_to_change_value_selected d vector =
    if is_integer vector
    then ChangeValue.integer (shift_bits 0 vector)
    else ChangeValue.text (d.show_vector vector)

-- The value of `convert_selected`, with the code that it belongs to.
unfoldable pub selected_value : VcdDisplay → Command → Option (ℕ × ChangeValue)
selected_value d (change_scalar id value) = some (id, ChangeValue.text (d.show_value value))
selected_value d (change_vector id vector) = some (id, vector_to_change_value_selected d vector)
selected_value d (change_real id value) = some (id, ChangeValue.float value)
selected_value d (change_string id value) = some (id, ChangeValue.text value)
selected_value d (timestamp time) = none
selected_value d other = none

abbrev pub Out : Type 0
Out = Option (QueryResult SelectedChange) × SelectedChangeStream

abbrev pub StreamExec : Type 0
StreamExec = Exec SelectedChangeStream (Unit {0})

unfoldable pub fail : QueryError → SelectedChangeStream → Out
fail e s = (some (err e), record s { finished = true })

unfoldable pub check_command_limit : StreamExec
check_command_limit s = elim (s.context.limits.max_commands) [
  | none ↦ (ok tt, s)
  | some limit ↦
      if ltb limit s.command_count
      then (err (limit_exceeded commands limit s.command_count), s)
      else (ok tt, s)
]

unfoldable pub increment_command_count : SelectedChangeStream → SelectedChangeStream
increment_command_count s = record s { command_count = saturating_add s.command_count 1 }

module _ (w : World) where
  unfoldable pub check_context : StreamExec
  check_context s = (check_at w s.context s.moment, record s { moment = suc s.moment })

  -- `reader().validate_complete().map_err(QueryError::from)`.
  unfoldable pub validate_complete : StreamExec
  validate_complete s = (validated (w.validate s.moment), record s { moment = suc s.moment })

  unfoldable pub validate_current_generation : StreamExec
  validate_current_generation = do check_context; validate_complete; check_context

  unfoldable pub check_periodic_context : StreamExec
  check_periodic_context s =
      if nat_eqb (s.command_count % command_check_interval) 0 then check_context s else (ok tt, s)

  unfoldable pub check_timestamp_context : Item → StreamExec
  check_timestamp_context (ok (timestamp time)) s = check_context s
  check_timestamp_context (ok _) s = (ok tt, s)
  check_timestamp_context (err e) s = (ok tt, s)

  unfoldable pub finish_success : StreamExec
  finish_success s =
      if s.finished
      then (ok tt, s)
      else (do
        check_context
        validate_complete
        check_context
        λ t. (ok tt, record t { finished = true }))
          s

  -- `match self.finish_success() { Ok(()) => None, Err(error) => self.fail(error) }`.
  unfoldable pub finish : SelectedChangeStream → Out
  finish s = let (r, t) = finish_success s in elim r [ ok u ↦ (none, t) | err e ↦ fail e t ]

  -- The checks that stand between the parser's answer and its use.
  unfoldable pub admit : Item → StreamExec
  admit item = do check_periodic_context; check_timestamp_context item; check_command_limit

module _ (w : World) (d : VcdDisplay) where
  -- The delivery of a selected change.
  unfoldable pub deliver : ℕ → ChangeValue → SelectedChangeStream → Out
  deliver id value s =
      let (r, t) = check_context w s in
      elim r [
        | ok u ↦ (some (ok (record { id_code = id; time = s.current_time; value = value })), t)
        | err e ↦ fail e t
      ]

  -- The body of the loop behind the checks; `rest` is the next round.
  unfoldable pub dispatch : Item → (SelectedChangeStream → Out) → SelectedChangeStream → Out
  dispatch (err e) rest s = fail (QueryError.vcd (io e)) s
  dispatch (ok (timestamp time)) rest s =
      let t = record s { current_time = time } in
      if after_end s.window time then finish w t else rest t
  dispatch (ok command) rest s = elim (selected_value d command) [
    | none ↦ rest s
    | some (id, value) ↦
        if contains_id s.selection id && contains s.window s.current_time
        then deliver id value s
        else rest s
  ]

  unfoldable pub next_loop : List Item → SelectedChangeStream → Out
  next_loop [] s = finish w s
  next_loop (item ∷ rest) s =
      let (r, t) = admit w item (increment_command_count (record s { items = rest })) in
      elim r [ ok u ↦ dispatch item (next_loop rest) t | err e ↦ fail e t ]

  -- `Iterator::next`.
  unfoldable pub next : SelectedChangeStream → Out
  next s = if s.finished then (none, s) else next_loop s.items s

module _ (w : World) (o : OpenedVcd) where
  unfoldable pub selected_change_stream :
      List Text → TimeWindow → QueryContext → Exec ℕ SelectedChangeStream
  selected_change_stream targets window context = do
    check w context
    selection ← resolve w o context targets
    check w context
    λ moment. (validated (w.validate moment), suc moment)
    λ moment. (ok (new_stream o.body selection window context moment), moment)
