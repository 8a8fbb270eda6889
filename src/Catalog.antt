-- ===== src/Catalog.antt =====
-- src/catalog.rs: the compact signal catalogue and its builder.
pub mod Invariant
pub mod Names
use vcd_tools_rs.Prelude.{
  ℕ, zero, suc, ◌+◌, ◌^◌, Bool, true, false, Option, none, some, List, [], ◌∷◌, ◌++◌, map, reverse,
  Text, codes, length, get_elem?, ltb, nat_eqb, if◌then◌else◌, Result, ok, err, ◌>>=◌, text_eq,
  nat_eq,
}
use vcd_tools_rs.Prelude.Assoc.{lookup, insert, contains_key, entries, push}
use vcd_tools_rs.Errors.{VcdError, duplicate_signal, parse}

-- `vcd::Var`; the index of a reference is the text that the `vcd` crate prints for it, and the
-- type of a variable is a number that is only copied.
pub record Var : Type 0 where
  pub code : ℕ
  pub size : ℕ
  pub var_type : ℕ
  pub reference : Text
  pub index : Option Text

-- `vcd::ScopeItem`, with the variants that the program does not name as one.
mutual
  pub data ScopeItem : Type 0 where
    scope : Text → ScopeItems → ScopeItem
    var : Var → ScopeItem
    comment : ScopeItem

  pub data ScopeItems : Type 0 where
    nil : ScopeItems
    cons : ScopeItem → ScopeItems → ScopeItems

pub record ScopeNode : Type 0 where
  pub component : Text
  pub parent : Option ℕ

pub record SignalMeta : Type 0 where
  pub id_code : ℕ
  pub full_name : Text
  pub size : ℕ
  pub type_ : ℕ
  pub scope : Option ℕ

-- A `SignalKey` or a `ScopeKey` is its `u32`.
pub record SignalCatalog : Type 0 where
  pub signals : List SignalMeta
  pub by_name : List (Text × ℕ)
  pub aliases_by_id : List (ℕ × List ℕ)
  pub scopes : List ScopeNode

unfoldable pub catalog_capacity_error : VcdError
catalog_capacity_error = parse (codes "VCD signal catalog exceeds supported size")

-- `SignalKey::from_len` and `ScopeKey::from_len`.
unfoldable pub from_len : ℕ → Result VcdError ℕ
from_len len = if ltb len (2 ^ 32) then ok len else err catalog_capacity_error

-- The builder has the fields of the catalogue, which `finish` boxes.
abbrev pub CatalogBuilder : Type 0
CatalogBuilder = SignalCatalog

abbrev pub new_builder : CatalogBuilder
new_builder = record { signals = []; by_name = []; aliases_by_id = []; scopes = [] }

unfoldable pub add_scope : Text → Option ℕ → CatalogBuilder → Result VcdError (ℕ × CatalogBuilder)
add_scope component parent b = do
  key ← from_len (length b.scopes)
  ok (key, record b { scopes = b.scopes ++ record { component = component; parent = parent } ∷ [] })

unfoldable pub join_dot : Text → Text → Text
join_dot [] name = name
join_dot (c ∷ prefix) name = (c ∷ prefix) ++ b'.' ∷ name

abbrev index_text : Option Text → Text
index_text none = []
index_text (some index) = index

-- The full name that `add_signal` builds.
unfoldable pub signal_name : Text → Var → Text
signal_name prefix v = join_dot prefix (v.reference ++ index_text v.index)

-- `push` of the metadata, `insert` into `by_name`, and `push` onto the aliases of the code.
unfoldable pub put_signal : Option ℕ → Text → Var → ℕ → CatalogBuilder → CatalogBuilder
put_signal owner full_name v key b = record b {
  signals =
      b.signals
      ++ record {
        id_code = v.code;
        full_name = full_name;
        size = v.size;
        type_ = v.var_type;
        scope = owner;
      }
        ∷ [];
  by_name = insert full_name key b.by_name;
  aliases_by_id = push v.code key b.aliases_by_id;
}

unfoldable pub add_signal : Option ℕ → Text → Var → CatalogBuilder → Result VcdError CatalogBuilder
add_signal owner prefix v b = do
  key ← from_len (length b.signals)
  if contains_key (signal_name prefix v) b.by_name
      then err (duplicate_signal (signal_name prefix v))
      else ok (put_signal owner (signal_name prefix v) v key b)

unfoldable mutual
  pub collect_item : ScopeItem → Option ℕ → Text → CatalogBuilder → Result VcdError CatalogBuilder
  collect_item (scope component children) parent prefix b = do
    (key, b') ← add_scope component parent b
    collect children (some key) (join_dot prefix component) b'
  collect_item (var v) parent prefix b = add_signal parent prefix v b
  collect_item comment parent prefix b = ok b

  pub collect : ScopeItems → Option ℕ → Text → CatalogBuilder → Result VcdError CatalogBuilder
  collect nil parent prefix b = ok b
  collect (cons item items) parent prefix b = do
    b' ← collect_item item parent prefix b
    collect items parent prefix b'

unfoldable pub from_scope_items : ScopeItems → Result VcdError SignalCatalog
from_scope_items items = collect items none [] new_builder

module _ (c : SignalCatalog) where
  unfoldable pub len : ℕ
  len = length c.signals

  unfoldable pub has_no_signals : Bool
  has_no_signals = nat_eqb (length c.signals) 0

  -- `none` stands for the panic of an index out of range.
  unfoldable pub signal : ℕ → Option SignalMeta
  signal key = get_elem? c.signals key

  unfoldable pub key_by_name : Text → Option ℕ
  key_by_name name = lookup name c.by_name

  unfoldable pub aliases : ℕ → List ℕ
  aliases id = entries id c.aliases_by_id

  unfoldable pub names : List Text
  names = map (λ s. s.full_name) c.signals
