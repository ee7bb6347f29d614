-- ===== src/Catalog/Moves.antt =====
-- The readers of packed sorts and aggregations in src/protocol.rs only move forward.
use fulltext.Prelude.{ℕ, zero, suc, ◌+◌, ◌&&◌, ltb, ◌==◌}
use fulltext.Error.{invalid}
use fulltext.Cursor.Reads.{
  Reads, Moves-bind, Reads-pure, Reads-if, Reads-lift, Reads-reject, Reads-reject_if, repeat-Reads,
  u8-Reads, u32-Reads, f64-Reads, boolean-Reads, string-Reads,
}
use fulltext.Catalog.{
  catalog_count, check_count, decode_sort, decode_direction, decode_missing, decode_bound,
  decode_range, decode_ranges, decode_kind, decode_aggregation, decode_aggregations, decode_catalog,
  aggregation_fuel, max_aggregation_depth, is_stats, has_children,
}

catalog_count-Moves : (k : ℕ) → Reads 0 (catalog_count k)
unfolding catalog_count check_count
catalog_count-Moves k =
    Moves-bind u32-Reads λ n. record {
      at = λ c a d h. (Moves-bind (Reads-reject_if _ _) λ _. Reads-pure n).at c a d h;
    }

sort-Moves : Reads 0 decode_sort
unfolding decode_sort
sort-Moves = Moves-bind string-Reads λ f. Moves-bind u8-Reads λ d.
    Moves-bind (Reads-lift (decode_direction d))
      λ x. Moves-bind u8-Reads λ m. Moves-bind (Reads-lift (decode_missing m)) λ y. Reads-pure _

bound-Moves : Reads 0 decode_bound
unfolding decode_bound
bound-Moves =
    Moves-bind boolean-Reads
      λ b. Reads-if 0 b _ _ (Moves-bind f64-Reads λ v. Reads-pure _) (Reads-pure _)

range-Moves : Reads 0 decode_range
unfolding decode_range
range-Moves = Moves-bind bound-Moves λ a. Moves-bind bound-Moves λ b. Reads-pure _

kind-Moves : (tag : ℕ) → Reads 0 (decode_kind tag)
unfolding decode_kind decode_ranges
kind-Moves tag = Reads-if 0 (tag == 0) _ _ (Moves-bind u32-Reads λ n. Reads-pure _) (
    Reads-if 0 (tag == 1) _ _ (Reads-pure _) (
      Reads-if 0 (tag == 2) _ _ (Moves-bind f64-Reads λ v. Reads-pure _) (
        Reads-if 0 (tag == 3) _ _
          (Moves-bind (catalog_count-Moves 2) λ n.
            Moves-bind (Reads-reject_if (n == 0) (invalid "range aggregation requires ranges"))
              λ _. Moves-bind (repeat-Reads n 0 decode_range range-Moves) λ rs. Reads-pure _)
          (Reads-reject _ 0))))

aggregations-Moves : (fuel depth : ℕ) → Reads 0 (decode_aggregations fuel depth)
unfolding decode_aggregations decode_aggregation
aggregations-Moves zero depth = Reads-reject _ 0
aggregations-Moves (suc fuel) depth = Moves-bind (catalog_count-Moves 13) λ n.
    Moves-bind
      (Reads-reject_if (ltb 0 n && ltb max_aggregation_depth depth)
        (invalid "aggregation nesting exceeds its depth limit"))
      λ _.
        Moves-bind
          (repeat-Reads n 0 (decode_aggregation (decode_aggregations fuel (depth + 1))) (
            Moves-bind string-Reads λ name. Moves-bind string-Reads λ source.
              Moves-bind u8-Reads λ tag. Moves-bind (kind-Moves tag) λ kind.
                Moves-bind (aggregations-Moves fuel (depth + 1)) λ subs.
                  Moves-bind
                    (Reads-reject_if (is_stats kind && has_children subs)
                      (invalid "stats aggregations cannot have children"))
                    λ _. Reads-pure _))
          λ rs. Reads-pure _

pub catalog-Moves : Reads 0 decode_catalog
unfolding decode_catalog
catalog-Moves = Moves-bind (catalog_count-Moves 6) λ n.
    Moves-bind (repeat-Reads n 0 decode_sort sort-Moves)
      λ ss. Moves-bind (aggregations-Moves aggregation_fuel 1) λ subs. Reads-pure _
