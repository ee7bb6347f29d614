-- ===== src/Query/Structure/Steps.antt =====
-- What a successful visit of src/protocol.rs says of the node that it visits: the charge that was
-- made, and the visits of the children on what it left.
use fulltext.Prelude.{ℕ, ◌+◌, ◌-◌, ◌≤◌, ◌≡◌, ◌≢◌, arith}
use fulltext.Error.{Result, ok, ◌>>=◌, ◌>>◌}
use fulltext.Query.{SearchExpression, Expressions, and, or, negate, boost, optional, count}
use fulltext.Query.Structure.{
  SearchStructureBudget, check_depth, charge, children, optional_children, visit, visit_all,
}

-- What is charged before the children are visited.
abbrev pub charged : ℕ → SearchStructureBudget → SearchStructureBudget
charged cost b = record b { remaining = b.remaining - cost }

module _ (n depth : ℕ) (b b' : SearchStructureBudget)
    (f : SearchStructureBudget → Result SearchStructureBudget) where
  group_step :
      (check_depth depth >> (children n b >>= f)) ≡ ok b'
      → (n ≢ 0) × (n ≤ b.remaining) × (children n b ≡ ok (charged n b)) × (f (charged n b) ≡ ok b')
  unfolding check_depth children
  group_step h = ground arith

  optional_step :
      (check_depth depth >> (optional_children n b >>= λ b₁. charge 1 b₁ >>= f)) ≡ ok b'
      → (n ≢ 0)
        × (n + 1 ≤ b.remaining)
        × (optional_children n b ≡ ok (charged n b))
        × (charge 1 (charged n b) ≡ ok (charged (n + 1) b))
        × (f (charged (n + 1) b) ≡ ok b')
  unfolding check_depth optional_children charge
  optional_step h = ground arith

module _ (es : Expressions) (depth : ℕ) (b b' : SearchStructureBudget) where
  pub visit-and :
      visit (and es) depth b ≡ ok b'
      → (count es ≢ 0)
        × (count es ≤ b.remaining)
        × (children (count es) b ≡ ok (charged (count es) b))
        × (visit_all es (depth + 1) (charged (count es) b) ≡ ok b')
  unfolding visit
  visit-and = group_step (count es) depth b b' (visit_all es (depth + 1))

  pub visit-or :
      visit (or es) depth b ≡ ok b'
      → (count es ≢ 0)
        × (count es ≤ b.remaining)
        × (children (count es) b ≡ ok (charged (count es) b))
        × (visit_all es (depth + 1) (charged (count es) b) ≡ ok b')
  unfolding visit
  visit-or = group_step (count es) depth b b' (visit_all es (depth + 1))

  pub visit-optional :
      (required : SearchExpression)
      → visit (optional required es) depth b ≡ ok b'
      → (count es ≢ 0)
        × (count es + 1 ≤ b.remaining)
        × (optional_children (count es) b ≡ ok (charged (count es) b))
        × (charge 1 (charged (count es) b) ≡ ok (charged (count es + 1) b))
        × ((visit required (depth + 1) (charged (count es + 1) b) >>= λ b₁.
              visit_all es (depth + 1) b₁)
            ≡ ok b')
  unfolding visit
  visit-optional required =
      optional_step (count es) depth b b'
        λ b₂. visit required (depth + 1) b₂ >>= λ b₃. visit_all es (depth + 1) b₃

module _ (e : SearchExpression) (depth : ℕ) (b b' : SearchStructureBudget) where
  pub visit-negate :
      visit (negate e) depth b ≡ ok b'
      → (charge 2 b ≡ ok (charged 2 b)) × (visit e (depth + 1) (charged 2 b) ≡ ok b')
  unfolding visit check_depth charge
  visit-negate h = ground arith

  pub visit-boost :
      (value : ℕ)
      → visit (boost value e) depth b ≡ ok b'
      → (charge 1 b ≡ ok (charged 1 b)) × (visit e (depth + 1) (charged 1 b) ≡ ok b')
  unfolding visit check_depth charge
  visit-boost value h = ground arith

-- A visit that passes is at a depth that the check lets through.
pub visit-check_depth :
    (e : SearchExpression) (depth : ℕ) (b b' : SearchStructureBudget)
    → visit e depth b ≡ ok b'
    → check_depth depth ≡ ok tt
unfolding visit check_depth
visit-check_depth (and es) depth b b' h = ground arith
visit-check_depth _ depth b b' h = ground arith
