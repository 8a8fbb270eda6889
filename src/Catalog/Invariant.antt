-- ===== src/Catalog/Invariant.antt =====
-- src/catalog.rs: what holds of every catalogue that the builder returns.
use mathlib.Core.Path.{subst}
use vcd_tools_rs.Prelude.{
  ℕ, suc, ◌+◌, ◌<◌, ◌≤◌, ◌≡◌, refl, sym, ap, ◌∙◌, inl, inr, Option, none, some, List, [], ◌∷◌, ◌++◌,
  Text, length, get_elem?, if◌then◌else◌, ok, >>=-eq-ok, text_eq, nat_eq, arith, Bool-cases,
  nat_eqb, text_eqb, text_eqb_iff, length-append, get_elem?-append_left, get_elem?-append_last,
  get_elem?-append-cases,
}
use vcd_tools_rs.Prelude.Assoc.{
  lookup, contains_key, entries, lookup-insert, entries-push, contains_key-false,
}
use vcd_tools_rs.Catalog.{
  Var, ScopeItem, ScopeItems, scope, var, comment, nil, cons, ScopeNode, SignalMeta, SignalCatalog,
  CatalogBuilder, new_builder, from_len, add_scope, signal_name, join_dot, put_signal, add_signal,
  collect_item, collect, from_scope_items,
}

-- The keys, from `key` on, of the signals with a code.
abbrev pub keys_with : ℕ → ℕ → List SignalMeta → List ℕ
keys_with id key [] = []
keys_with id key (m ∷ ms) =
    let rest = keys_with id (suc key) ms in if nat_eqb m.id_code id then key ∷ rest else rest

pub record IsCatalog (c : SignalCatalog) : Type 0 where
  -- A name's key leads to the signal of that name, and each signal's name leads to its key: so no
  -- two signals have one name.
  pub named :
      (name : Text) (key : ℕ)
      → lookup name c.by_name ≡ some key
      → (m : SignalMeta) × (get_elem? c.signals key ≡ some m) × (m.full_name ≡ name)
  pub keyed :
      (key : ℕ) (m : SignalMeta)
      → get_elem? c.signals key ≡ some m
      → lookup m.full_name c.by_name ≡ some key
  -- The aliases of a code are the keys of all signals with that code, in order.
  pub aliased : (id : ℕ) → entries id c.aliases_by_id ≡ keys_with id 0 c.signals
  -- The parent of a scope stands before it, and the scope of a signal is in the arena.
  pub nested :
      (key parent : ℕ) (n : ScopeNode)
      → get_elem? c.scopes key ≡ some n
      → n.parent ≡ some parent
      → parent < key
  pub owned :
      (key owner : ℕ) (m : SignalMeta)
      → get_elem? c.signals key ≡ some m
      → m.scope ≡ some owner
      → owner < length c.scopes

-- The scope that a builder adds to is in its arena.
abbrev IsOwner : Option ℕ → CatalogBuilder → Type 0
IsOwner o b = (owner : ℕ) → o ≡ some owner → owner < length b.scopes

keys_with-append :
    (id key : ℕ) (ms : List SignalMeta) (m : SignalMeta)
    → keys_with id key (ms ++ m ∷ []) ≡ (
        if nat_eqb m.id_code id
        then keys_with id key ms ++ (key + length ms) ∷ []
        else keys_with id key ms)
keys_with-append id key [] m = ground arith
keys_with-append id key (n ∷ ms) m = ground (arith, keys_with-append id (suc key) ms m)

new_builder-IsCatalog : IsCatalog new_builder
unfolding lookup entries
new_builder-IsCatalog = record {
  named = λ name key h. cc;
  keyed = λ key m h. cc;
  aliased = λ id. refl;
  nested = λ key parent n h p. cc;
  owned = λ key owner m h p. cc;
}

module _ (owner : Option ℕ) (name : Text) (v : Var) (b : CatalogBuilder) (inv : IsCatalog b)
    (own : IsOwner owner b) (fresh : lookup name b.by_name ≡ none) where
  abbrev new_meta : SignalMeta
  new_meta = record {
    id_code = v.code;
    full_name = name;
    size = v.size;
    type_ = v.var_type;
    scope = owner;
  }

  abbrev added : CatalogBuilder
  added = put_signal owner name v (length b.signals) b

  added_named :
      (n : Text) (key : ℕ)
      → lookup n added.by_name ≡ some key
      → (m : SignalMeta) × (get_elem? added.signals key ≡ some m) × (m.full_name ≡ n)
  unfolding put_signal
  added_named n key h = elim (Bool-cases (text_eqb name n)) [
    | inl e ↦ (
      new_meta,
      ground (
        arith,
        lookup-insert name n (length b.signals) b.by_name,
        get_elem?-append_last b.signals new_meta,
      ),
      (text_eqb_iff name n).0 e,
    )
    | inr e ↦
        (let (m, at, is) =
            inv.named n key (sym (lookup-insert name n (length b.signals) b.by_name ∙ rw e) ∙ h) in
          (m, get_elem?-append_left b.signals (new_meta ∷ []) key at, is))
  ]

  added_keyed :
      (key : ℕ) (m : SignalMeta)
      → get_elem? added.signals key ≡ some m
      → lookup m.full_name added.by_name ≡ some key
  unfolding put_signal
  added_keyed key m h = elim (get_elem?-append-cases b.signals new_meta key h) [
    | inl e ↦ ground (
      arith,
      lookup-insert name m.full_name (length b.signals) b.by_name,
      inv.keyed key m e,
      text_eqb_iff name m.full_name,
    )
    | inr (e, f) ↦ ground (
      arith,
      lookup-insert name m.full_name (length b.signals) b.by_name,
      text_eqb_iff name m.full_name,
    )
  ]

  added_aliased : (id : ℕ) → entries id added.aliases_by_id ≡ keys_with id 0 added.signals
  unfolding put_signal
  added_aliased id = ground (
    arith,
    entries-push v.code id (length b.signals) b.aliases_by_id,
    keys_with-append id 0 b.signals new_meta,
    inv.aliased id,
  )

  added_owned :
      (key o : ℕ) (m : SignalMeta)
      → get_elem? added.signals key ≡ some m
      → m.scope ≡ some o
      → o < length added.scopes
  unfolding put_signal
  added_owned key o m h p = elim (get_elem?-append-cases b.signals new_meta key h) [
    | inl e ↦ inv.owned key o m e p
    | inr (e, f) ↦ own o (ap (λ (x : SignalMeta). x.scope) f ∙ p)
  ]

  put_signal-IsCatalog : IsCatalog added
  put_signal-IsCatalog = record {
    named = added_named;
    keyed = added_keyed;
    aliased = added_aliased;
    nested = unfold put_signal in inv.nested;
    owned = added_owned;
  }

-- What building does to a catalogue: it stays well formed, and its scopes stay where they are.
pub record Grows (b b' : CatalogBuilder) : Type 0 where
  pub well_formed : IsCatalog b'
  pub scopes_kept : length b.scopes ≤ length b'.scopes

add_signal-Grows :
    (o : Option ℕ) (prefix : Text) (v : Var) (b b' : CatalogBuilder)
    → IsCatalog b
    → IsOwner o b
    → add_signal o prefix v b ≡ ok b'
    → Grows b b'
unfolding add_signal from_len
add_signal-Grows o prefix v b b' inv own h =
    elim (Bool-cases (contains_key (signal_name prefix v) b.by_name)) [
      | inl e ↦ ground arith
      | inr e ↦
          (let same : put_signal o (signal_name prefix v) v (length b.signals) b ≡ b' =
              ground arith in
            subst (Grows b) same (record {
              well_formed =
                  put_signal-IsCatalog o (signal_name prefix v) v b inv own
                    (contains_key-false (signal_name prefix v) b.by_name e);
              scopes_kept = unfold put_signal in omega arith;
            }))
    ]

abbrev with_scope : Text → Option ℕ → CatalogBuilder → CatalogBuilder
with_scope component parent b = record b {
  scopes = b.scopes ++ record { component = component; parent = parent } ∷ [];
}

with_scope-IsCatalog :
    (component : Text) (parent : Option ℕ) (b : CatalogBuilder)
    → IsCatalog b
    → IsOwner parent b
    → IsCatalog (with_scope component parent b)
with_scope-IsCatalog component parent b inv own = record {
  named = inv.named;
  keyed = inv.keyed;
  aliased = inv.aliased;
  nested = λ key p n h e.
      elim (get_elem?-append-cases b.scopes (record { component = component; parent = parent }) key
        h) [
          | inl at ↦ inv.nested key p n at e
          | inr (last, is) ↦ omega (arith, own p (ap (λ (x : ScopeNode). x.parent) is ∙ e))
        ];
  owned = λ key o m h e. omega (
    arith,
    inv.owned key o m h e,
    length-append b.scopes (record { component = component; parent = parent } ∷ []),
  );
}

add_scope-eq :
    (component : Text) (parent : Option ℕ) (b b' : CatalogBuilder) (key : ℕ)
    → add_scope component parent b ≡ ok (key, b')
    → (length b.scopes ≡ key) × (with_scope component parent b ≡ b')
unfolding add_scope from_len
add_scope-eq component parent b b' key h = ground arith

-- The new scope is the owner of what its children add.
add_scope-Grows :
    (component : Text) (parent : Option ℕ) (b b' : CatalogBuilder) (key : ℕ)
    → IsCatalog b
    → IsOwner parent b
    → add_scope component parent b ≡ ok (key, b')
    → Grows b b' × IsOwner (some key) b'
add_scope-Grows component parent b b' key inv own h =
    let (k, e) = add_scope-eq component parent b b' key h in
    let more = length-append b.scopes (record { component = component; parent = parent } ∷ []) in
    (
      subst (Grows b) e (record {
        well_formed = with_scope-IsCatalog component parent b inv own;
        scopes_kept = omega (arith, more);
      }),
      λ o p.
          let q : key ≡ o = ground arith in
          omega (arith, more, ap (λ (x : CatalogBuilder). length x.scopes) e),
    )

mutual
  unfolding collect_item collect

  collect_item-Grows :
      (item : ScopeItem) (o : Option ℕ) (prefix : Text) (b b' : CatalogBuilder)
      → IsCatalog b
      → IsOwner o b
      → collect_item item o prefix b ≡ ok b'
      → Grows b b'
  collect_item-Grows (scope component children) o prefix b b' inv own h =
      let ((key, c), e, f) = >>=-eq-ok (add_scope component o b) _ h in
      let (g, next) = add_scope-Grows component o b c key inv own e in
      let k =
        collect-Grows children (some key) (join_dot prefix component) c b' g.well_formed next f in
      record {
        well_formed = k.well_formed;
        scopes_kept = omega (arith, g.scopes_kept, k.scopes_kept);
      }
  collect_item-Grows (var v) o prefix b b' inv own h = add_signal-Grows o prefix v b b' inv own h
  collect_item-Grows comment o prefix b b' inv own h =
      subst (Grows b) (ground arith) (record { well_formed = inv; scopes_kept = omega arith })

  collect-Grows :
      (items : ScopeItems) (o : Option ℕ) (prefix : Text) (b b' : CatalogBuilder)
      → IsCatalog b
      → IsOwner o b
      → collect items o prefix b ≡ ok b'
      → Grows b b'
  collect-Grows nil o prefix b b' inv own h =
      subst (Grows b) (ground arith) (record { well_formed = inv; scopes_kept = omega arith })
  collect-Grows (cons item items) o prefix b b' inv own h =
      let (c, e, f) = >>=-eq-ok (collect_item item o prefix b) _ h in
      let g = collect_item-Grows item o prefix b c inv own e in
      let k =
        collect-Grows items o prefix c b' g.well_formed
          (λ x p. omega (arith, own x p, g.scopes_kept)) f in
      record {
        well_formed = k.well_formed;
        scopes_kept = omega (arith, g.scopes_kept, k.scopes_kept);
      }

-- Every catalogue that the builder returns is well formed.
pub from_scope_items-IsCatalog :
    (items : ScopeItems) (c : SignalCatalog) → from_scope_items items ≡ ok c → IsCatalog c
unfolding from_scope_items
from_scope_items-IsCatalog items c h =
    (collect-Grows items none [] new_builder c new_builder-IsCatalog (λ o p. cc) h).well_formed
