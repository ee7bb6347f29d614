-- ===== src/Catalog.antt =====
-- Sorting and aggregation: the requests of src/catalog.rs and their readers in src/protocol.rs.
pub mod Scan
pub mod Validate
pub mod Agree
pub mod Moves
pub mod Shape
use fulltext.Prelude.{
  ℕ, zero, suc, ◌+◌, ◌/◌, Bool, true, false, ◌&&◌, not, List, [], ◌∷◌, Option, none, some, ltb,
  ◌==◌, if◌then◌else◌, is_empty,
}
use fulltext.Error.{Result, ok, err, invalid}
use fulltext.Text.{Bytes}
use fulltext.Cursor.{
  Parser, pure, lift, reject, reject_if, ◌>>=◌, ◌>>◌, u8, u32, f64, boolean, string, repeat,
  remaining,
}
use fulltext.Query.Wire.{out_of_fuel}

abbrev pub max_aggregation_depth : ℕ
max_aggregation_depth = 32

pub data SortDirection : Type 0 where
  asc desc : SortDirection

pub data MissingOrder : Type 0 where
  first last : MissingOrder

pub record SortRequest : Type 0 where
  pub field : Bytes
  pub direction : SortDirection
  pub missing : MissingOrder

-- Numbers are bit patterns of `f64`; a range is open where it has no end.
pub data AggregationKind : Type 0 where
  terms : ℕ → AggregationKind
  stats : AggregationKind
  histogram : ℕ → AggregationKind
  range : List (Option ℕ × Option ℕ) → AggregationKind

-- A request has its name, its field, its kind and the requests below it.
mutual
  pub data AggregationRequest : Type 0 where
    aggregation : Bytes → Bytes → AggregationKind → Aggregations → AggregationRequest

  pub data Aggregations : Type 0 where
    nil : Aggregations
    cons : AggregationRequest → Aggregations → Aggregations

unfoldable pub from_list : List AggregationRequest → Aggregations
from_list [] = nil
from_list (a ∷ more) = cons a (from_list more)

unfoldable pub count : Aggregations → ℕ
count nil = 0
count (cons a more) = suc (count more)

unfoldable pub check_count : ℕ → ℕ → Parser (Unit {0})
check_count count minimum_bytes c =
    reject_if (ltb (remaining c / minimum_bytes) count)
      (invalid "catalog count exceeds remaining request bytes") c

unfoldable pub catalog_count : ℕ → Parser ℕ
unfolding check_count
catalog_count minimum_bytes = do count ← u32; check_count count minimum_bytes; pure count

unfoldable pub decode_direction : ℕ → Result SortDirection
decode_direction value =
    if value == 0
    then ok asc
    else if value == 1
    then ok desc
    else err (invalid "unknown sort direction")

unfoldable pub decode_missing : ℕ → Result MissingOrder
decode_missing value =
    if value == 0
    then ok first
    else if value == 1
    then ok last
    else err (invalid "unknown missing sort order")

unfoldable pub decode_sort : Parser SortRequest
unfolding decode_direction decode_missing
decode_sort = do
  field ← string
  d ← u8
  direction ← lift (decode_direction d)
  m ← u8
  missing ← lift (decode_missing m)
  pure (record { field = field; direction = direction; missing = missing })

unfoldable pub decode_bound : Parser (Option ℕ)
decode_bound = do
  present ← boolean
  if present then (do value ← f64; pure (some value)) else pure none

unfoldable pub decode_range : Parser (Option ℕ × Option ℕ)
unfolding decode_bound
decode_range = do from ← decode_bound; to ← decode_bound; pure (from, to)

unfoldable pub decode_ranges : Parser AggregationKind
unfolding decode_range
decode_ranges = do
  count ← catalog_count 2
  reject_if (count == 0) (invalid "range aggregation requires ranges")
  ranges ← repeat count decode_range
  pure (range ranges)

unfoldable pub decode_kind : ℕ → Parser AggregationKind
unfolding decode_ranges
decode_kind kind =
    if kind == 0
    then (do size ← u32; pure (terms size))
    else if kind == 1
    then pure stats
    else if kind == 2
    then (do interval ← f64; pure (histogram interval))
    else if kind == 3
    then decode_ranges
    else reject (invalid "unknown aggregation kind")

unfoldable pub is_stats : AggregationKind → Bool
is_stats stats = true
is_stats _ = false

unfoldable pub has_children : Aggregations → Bool
has_children nil = false
has_children (cons a more) = true

unfoldable pub is_some : Option (List SortRequest) → Bool
is_some none = false
is_some (some sorts) = true

-- The readers take the reader of the requests one level down.
unfoldable pub decode_aggregation : Parser Aggregations → Parser AggregationRequest
unfolding is_stats has_children
decode_aggregation below = do
  name ← string
  field ← string
  tag ← u8
  kind ← decode_kind tag
  aggregations ← below
  reject_if (is_stats kind && has_children aggregations)
      (invalid "stats aggregations cannot have children")
  pure (aggregation name field kind aggregations)

unfoldable pub decode_aggregations : ℕ → ℕ → Parser Aggregations
decode_aggregations zero depth = reject out_of_fuel
decode_aggregations (suc fuel) depth = do
  count ← catalog_count 13
  reject_if (ltb 0 count && ltb max_aggregation_depth depth)
      (invalid "aggregation nesting exceeds its depth limit")
  results ← repeat count (decode_aggregation (decode_aggregations fuel (depth + 1)))
  pure (from_list results)

-- One call for each of the 32 levels, and one below the last, which must be empty.
abbrev pub aggregation_fuel : ℕ
aggregation_fuel = 34

unfoldable pub decode_catalog : Parser (Option (List SortRequest) × Aggregations)
decode_catalog = do
  count ← catalog_count 6
  sorts ← repeat count decode_sort
  aggregations ← decode_aggregations aggregation_fuel 1
  pure (if is_empty sorts then none else some sorts, aggregations)
