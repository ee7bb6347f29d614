-- ===== src/Query/Agree.antt =====
-- The two walks of src/protocol.rs over a packed expression, `decode_search_expression` and
-- `scan_search_expression`: where the first succeeds, the second does, reads as much, and charges
-- what the expression costs.
mod Clause
mod Groups
use fulltext.Prelude.{ℕ, zero, suc, ◌+◌, ◌≤◌, ◌≡◌, refl, Option, arith}
use fulltext.Error.{Result, ok, err}
use fulltext.Cursor.{Cursor, lift, through, through_lift, u8}
use fulltext.Cursor.Reads.{u8-Reads, IsInside, Reads-IsInside}
use fulltext.Query.{SearchExpression, max_fields}
use fulltext.Query.Structure.{SearchStructureBudget, visit, check_depth}
use fulltext.Query.Structure.Steps.{visit-check_depth}
use fulltext.Query.Wire.{Reader, decode_node, decode_search_expression}
use fulltext.Query.Wire.Moves.{decode_search_expression-Moves}
use fulltext.Query.Scan.{SearchCost, scan_node, scan_search_expression}
use fulltext.Query.Cost.{cost_of}
use Clause.{clause_agree}
use Groups.{Agrees, not_agree, boost_agree, and_agree, or_agree, optional_agree}

-- One node of each kind; other kinds do not decode.
node_agree :
    (raised : Option ℕ) (depth : ℕ) (dec : Reader SearchExpression) (scan : Reader SearchCost)
    → Agrees raised (depth + 1) dec scan
    → (kind : ℕ) (s s' t t' : SearchStructureBudget) (c d : Cursor) (e : SearchExpression)
    → decode_node kind dec s c ≡ ok ((e, s'), d)
    → visit e depth t ≡ ok t'
    → t.fields ≤ max_fields
    → IsInside c
    → scan_node raised kind scan t c ≡ ok ((cost_of raised e, t'), d)
unfolding decode_node scan_node
node_agree raised depth dec scan child zero s s' t t' c d e =
    clause_agree raised depth s s' t t' c d e
node_agree raised depth dec scan child (suc zero) s s' t t' c d e =
    and_agree raised depth dec scan child s s' t t' c d e
node_agree raised depth dec scan child (suc (suc zero)) s s' t t' c d e =
    or_agree raised depth dec scan child s s' t t' c d e
node_agree raised depth dec scan child (suc (suc (suc zero))) s s' t t' c d e =
    not_agree raised depth dec scan child s s' t t' c d e
node_agree raised depth dec scan child (suc (suc (suc (suc zero)))) s s' t t' c d e =
    boost_agree raised depth dec scan child s s' t t' c d e
node_agree raised depth dec scan child (suc (suc (suc (suc (suc zero))))) s s' t t' c d e =
    optional_agree raised depth dec scan child s s' t t' c d e
node_agree raised depth dec scan child (suc (suc (suc (suc (suc (suc kind)))))) s s' t t' c d e =
    λ h. absurd (ground arith)

-- With the same fuel, from the same byte: the decoder on its own budget, the scanner on another
-- that the structure check of the decoded expression accepts.
expression-Agrees :
    (raised : Option ℕ) (fuel depth : ℕ)
    → Agrees raised depth
        (decode_search_expression fuel depth)
        (scan_search_expression raised fuel depth)
unfolding decode_search_expression scan_search_expression
expression-Agrees raised zero depth = record {
  moves = decode_search_expression-Moves zero depth;
  at = λ s s' t t' c d e h. absurd (cc);
}
expression-Agrees raised (suc fuel) depth = record {
  moves = decode_search_expression-Moves (suc fuel) depth;
  at = λ s s' t t' c d e. through_lift (check_depth depth) _ _ λ _ _.
      through (u8 c) _ λ kind c₁ e₁ h v fit inside.
        rw (visit-check_depth e depth t t' v, e₁)
          (node_agree raised depth (decode_search_expression fuel (depth + 1))
            (scan_search_expression raised fuel (depth + 1))
            (expression-Agrees raised fuel (depth + 1)) kind s s' t t' c₁ d e h v fit
            (Reads-IsInside u8-Reads c kind c₁ e₁ inside));
}

-- Where an expression decodes at a cursor `c` inside its bytes, and its structure fits a budget `t` whose field limit is not
-- above the decoder's, the scanner on `t` reads exactly the same bytes, leaves what the structure
-- check leaves of `t`, and returns the cost of the decoded expression.
pub scan-decode :
    (raised : Option ℕ) (fuel depth : ℕ) (s s' t t' : SearchStructureBudget) (c d : Cursor)
    (e : SearchExpression)
    → decode_search_expression fuel depth s c ≡ ok ((e, s'), d)
    → visit e depth t ≡ ok t'
    → t.fields ≤ max_fields
    → IsInside c
    → scan_search_expression raised fuel depth t c ≡ ok ((cost_of raised e, t'), d)
scan-decode raised fuel depth = (expression-Agrees raised fuel depth).at
