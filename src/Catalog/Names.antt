-- ===== src/Catalog/Names.antt =====
-- src/catalog.rs: the names of a catalogue are those of its declarations.
use vcd_tools_rs.Prelude.{
  ℕ, ◌≡◌, sym, ap, ◌∙◌, Option, none, some, List, [], ◌∷◌, ◌++◌, append_assoc, append-nil,
  map-append, map, Text, get_elem?, ok, >>=-eq-ok, arith,
}
use vcd_tools_rs.Catalog.{
  Var, ScopeItem, ScopeItems, scope, var, comment, nil, cons, SignalMeta, SignalCatalog,
  CatalogBuilder, new_builder, from_len, add_scope, signal_name, join_dot, put_signal, add_signal,
  collect_item, collect, from_scope_items, names,
}
use vcd_tools_rs.Catalog.Invariant.{from_scope_items-IsCatalog}

-- The full names that a tree declares under a prefix, in order.
unfoldable mutual
  pub declared_item : ScopeItem → Text → List Text
  declared_item (scope component children) prefix = declared children (join_dot prefix component)
  declared_item (var v) prefix = signal_name prefix v ∷ []
  declared_item comment prefix = []

  pub declared : ScopeItems → Text → List Text
  declared nil prefix = []
  declared (cons item items) prefix = declared_item item prefix ++ declared items prefix

add_signal-names :
    (o : Option ℕ) (prefix : Text) (v : Var) (b b' : CatalogBuilder)
    → add_signal o prefix v b ≡ ok b'
    → names b' ≡ names b ++ signal_name prefix v ∷ []
unfolding add_signal from_len names put_signal
add_signal-names o prefix v b b' h =
    let full = signal_name prefix v in
    let m : SignalMeta = record {
      id_code = v.code;
      full_name = full;
      size = v.size;
      type_ = v.var_type;
      scope = o;
    } in
    let e : b.signals ++ m ∷ [] ≡ b'.signals = ground arith in
    ap (map (λ (s : SignalMeta). s.full_name)) (sym e)
    ∙ map-append (λ (s : SignalMeta). s.full_name) b.signals (m ∷ [])

add_scope-names :
    (component : Text) (parent : Option ℕ) (b b' : CatalogBuilder) (key : ℕ)
    → add_scope component parent b ≡ ok (key, b')
    → names b' ≡ names b
unfolding add_scope from_len names
add_scope-names component parent b b' key h =
    let e : b'.signals ≡ b.signals = ground arith in ap (map (λ (s : SignalMeta). s.full_name)) e

mutual
  unfolding collect_item collect declared_item declared

  collect_item-names :
      (item : ScopeItem) (o : Option ℕ) (prefix : Text) (b b' : CatalogBuilder)
      → collect_item item o prefix b ≡ ok b'
      → names b' ≡ names b ++ declared_item item prefix
  collect_item-names (scope component children) o prefix b b' h =
      let ((key, c), e, f) = >>=-eq-ok (add_scope component o b) _ h in
      collect-names children (some key) (join_dot prefix component) c b' f
      ∙ ap (λ ns. ns ++ declared children (join_dot prefix component))
          (add_scope-names component o b c key e)
  collect_item-names (var v) o prefix b b' h = add_signal-names o prefix v b b' h
  collect_item-names comment o prefix b b' h = ap names (ground arith) ∙ sym (append-nil (names b))

  collect-names :
      (items : ScopeItems) (o : Option ℕ) (prefix : Text) (b b' : CatalogBuilder)
      → collect items o prefix b ≡ ok b'
      → names b' ≡ names b ++ declared items prefix
  collect-names nil o prefix b b' h = ap names (ground arith) ∙ sym (append-nil (names b))
  collect-names (cons item items) o prefix b b' h =
      let (c, e, f) = >>=-eq-ok (collect_item item o prefix b) _ h in
      collect-names items o prefix c b' f
      ∙ ap (λ ns. ns ++ declared items prefix) (collect_item-names item o prefix b c e)
      ∙ append_assoc (names b) (declared_item item prefix) (declared items prefix)

-- A catalogue lists the full names that its tree declares, in the order of the declarations, and
-- no two of its signals have the same name.
pub names-from_scope_items :
    (items : ScopeItems) (c : SignalCatalog)
    → from_scope_items items ≡ ok c
    → (names c ≡ declared items [])
      × ((i j : ℕ) (m n : SignalMeta)
          → get_elem? c.signals i ≡ some m
          → get_elem? c.signals j ≡ some n
          → m.full_name ≡ n.full_name
          → i ≡ j)
unfolding from_scope_items names
names-from_scope_items items c h = (
  collect-names items none [] new_builder c h,
  λ i j m n a b e.
      let inv = from_scope_items-IsCatalog items c h in
      let p = inv.keyed i m a in let q = inv.keyed j n b in ground arith,
)
