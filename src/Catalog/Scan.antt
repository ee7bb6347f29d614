-- ===== src/Catalog/Scan.antt =====
-- `scan_catalog` and `scan_aggregations` of src/protocol.rs.
use fulltext.Prelude.{
  ℕ, zero, suc, ◌+◌, Bool, ◌&&◌, ◌||◌, ltb, ◌==◌, if◌then◌else◌, is_empty, length,
}
use fulltext.Error.{invalid}
use fulltext.Cursor.{
  Parser, pure, reject, reject_if, ◌>>=◌, ◌>>◌, u8, u32, f64, boolean, byte_string, repeat,
}
use fulltext.Query.Wire.{out_of_fuel}
use fulltext.Catalog.{catalog_count, max_aggregation_depth, aggregation_fuel}

-- The second byte is read only where the first is in order.
unfoldable pub scan_sort : Parser (Unit {0})
scan_sort = do
  _ ← byte_string
  direction ← u8
  reject_if (ltb 1 direction) (invalid "invalid sort ordering")
  missing ← u8
  reject_if (ltb 1 missing) (invalid "invalid sort ordering")

unfoldable pub scan_bound : Parser (Unit {0})
scan_bound = do present ← boolean; if present then (do _ ← f64; pure tt) else pure tt

unfoldable pub scan_range : Parser (Unit {0})
unfolding scan_bound
scan_range = do scan_bound; scan_bound

unfoldable pub scan_ranges : Parser (Unit {0})
unfolding scan_range
scan_ranges = do
  ranges ← catalog_count 2
  reject_if (ranges == 0) (invalid "range aggregation requires ranges")
  _ ← repeat ranges scan_range
  pure tt

unfoldable pub scan_kind : ℕ → Parser (Unit {0})
unfolding scan_ranges
scan_kind kind =
    if kind == 0
    then (do _ ← u32; pure tt)
    else if kind == 1
    then pure tt
    else if kind == 2
    then (do _ ← f64; pure tt)
    else if kind == 3
    then scan_ranges
    else reject (invalid "unknown aggregation kind")

unfoldable pub scan_aggregation : Parser ℕ → Parser (Unit {0})
scan_aggregation below = do
  name ← byte_string
  reject_if (is_empty name || ltb 128 (length name))
      (invalid "aggregation names require 1 to 128 UTF-8 bytes")
  _ ← byte_string
  kind ← u8
  scan_kind kind
  children ← below
  reject_if (kind == 1 && ltb 0 children) (invalid "stats aggregations cannot have children")

unfoldable pub scan_aggregations : ℕ → ℕ → Parser ℕ
scan_aggregations zero depth = reject out_of_fuel
scan_aggregations (suc fuel) depth = do
  count ← catalog_count 13
  reject_if (ltb 0 count && ltb max_aggregation_depth depth)
      (invalid "aggregation nesting exceeds its depth limit")
  _ ← repeat count (scan_aggregation (scan_aggregations fuel (depth + 1)))
  pure count

unfoldable pub scan_catalog : Parser Bool
scan_catalog = do
  sorts ← catalog_count 6
  _ ← repeat sorts scan_sort
  count ← scan_aggregations aggregation_fuel 1
  pure (ltb 0 sorts || ltb 0 count)
