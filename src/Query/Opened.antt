-- ===== src/Query/Opened.antt =====
-- src/opened/mod.rs: the part of an opened VCD generation that queries read.
use vcd_tools_rs.Prelude.{ℕ, Option, none, some, List, Text}
use vcd_tools_rs.Catalog
use vcd_tools_rs.Catalog.{SignalCatalog, SignalMeta}
use vcd_tools_rs.Vcd.{Item}

-- The catalogue, the magnitude and the unit of the timescale, and what the parser of a query
-- yields, which reads the file from the start of the body. That is the body of this generation
-- unless the file is changed while it is read.
pub record OpenedVcd : Type 0 where
  pub catalog : SignalCatalog
  pub timescale : Option (ℕ × ℕ)
  pub body : List Item

abbrev meta_of : SignalCatalog → Option ℕ → Option SignalMeta
meta_of c none = none
meta_of c (some key) = Catalog.signal c key

-- `OpenedVcd::signal`, and the metadata that the `SignalRef` is read for. The keys of `by_name` are
-- in range in every catalogue that the builder returns.
unfoldable pub signal : OpenedVcd → Text → Option SignalMeta
unfolding Catalog.key_by_name Catalog.signal
signal o name = meta_of o.catalog (Catalog.key_by_name o.catalog name)
