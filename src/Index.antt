-- ===== src/Index.antt =====
-- src/lib.rs: the compatibility index of the path-based API.
use vcd_tools_rs.Prelude.{
  ℕ, Option, none, some, List, [], ◌∷◌, ◌++◌, Text, if◌then◌else◌, Result, ok, err,
}
use vcd_tools_rs.Prelude.Keys.{text_eq, nat_eq}
use vcd_tools_rs.Prelude.Assoc.{lookup, insert, contains_key, push}
use vcd_tools_rs.Errors.{VcdError, duplicate_signal}

pub record Signal : Type 0 where
  pub name : Text
  pub id_code : ℕ
  pub size : ℕ
  pub type_ : ℕ
  pub scope : List Text

pub record SignalIndex : Type 0 where
  pub by_id : List (ℕ × List Signal)
  pub by_name : List (Text × Signal)

-- The loop of `build`.
unfoldable pub build_loop : List Signal → SignalIndex → Result VcdError SignalIndex
build_loop [] index = ok index
build_loop (sig ∷ signals) index =
    let rest = build_loop signals (record {
      by_id = push sig.id_code sig index.by_id;
      by_name = insert sig.name sig index.by_name;
    }) in
    if contains_key sig.name index.by_name then err (duplicate_signal sig.name) else rest

-- `SignalIndex::build`.
unfoldable pub build : List Signal → Result VcdError SignalIndex
build signals = build_loop signals (record { by_id = []; by_name = [] })

-- A target that `build_target_map` looks up, with the map and the missing names so far.
unfoldable pub map_target :
    Text → Option Signal → List (ℕ × List Text) × List Text → List (ℕ × List Text) × List Text
map_target name none (mapping, missing) = (mapping, missing ++ name ∷ [])
map_target name (some sig) (mapping, missing) = (push sig.id_code sig.name mapping, missing)

unfoldable pub map_targets :
    SignalIndex → List Text → List (ℕ × List Text) × List Text → List (ℕ × List Text) × List Text
map_targets index [] m = m
map_targets index (name ∷ targets) m =
    map_targets index targets (map_target name (lookup name index.by_name) m)

unfoldable pub build_target_map : SignalIndex → List Text → List (ℕ × List Text) × List Text
build_target_map index targets = map_targets index targets ([], [])
