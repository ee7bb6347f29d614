-- ===== src/Query/Agree/Groups.antt =====
-- Where a group decodes, the scanner of src/protocol.rs reads it too: one lemma for each kind of
-- node, over any readers of the children that agree.
use fulltext.Prelude.{
  ℕ, zero, suc, ◌+◌, ◌≤◌, ◌≡◌, ◌≢◌, refl, ap, Bool, false, ◌||◌, ◌&&◌, List, ◌∷◌, Option, arith,
  min, max, usize_max, saturating_add, ◌==◌,
}
use fulltext.Error.{ok, bind-eq-ok, through_result}
use fulltext.Cursor.{Cursor, u16, f32, repeat_with, iterate, through, through_lift}
use fulltext.Cursor.Reads.{Reads, u16-Reads, f32-Reads, IsInside, Reads-IsInside}
use fulltext.Query.{
  SearchExpression, Expressions, and, or, negate, boost, optional, nil, cons, from_list, count,
  max_fields, validate_query_boost,
}
use fulltext.Query.Structure.{
  SearchStructureBudget, children, charge, optional_children, visit, visit_all,
}
use fulltext.Query.Structure.Bounds.{visit_sound}
use fulltext.Query.Structure.Steps.{
  charged, visit-and, visit-or, visit-optional, visit-negate, visit-boost,
}
use fulltext.Query.Wire.{Reader, decode_group, decode_not, decode_boost, decode_optional}
use fulltext.Query.Scan.{
  SearchCost, scan_child, scan_group, scan_not, scan_boost, scan_optional, absorb, absorb_optional,
}
use fulltext.Query.Cost.{
  cost_of, max_terms, max_terms_all, construction, construction_all, has_expensive, any_expensive,
  is_anchored, any_anchored, all_anchored,
}

-- What one reader of the children does where the other succeeds, and the structure check, on a
-- budget of its own, passes too.
pub record Agrees (raised : Option ℕ) (depth : ℕ) (dec : Reader SearchExpression)
    (scan : Reader SearchCost) : Type 0 where
  pub moves : (s : SearchStructureBudget) → Reads 0 (dec s)
  pub at :
      (s s' t t' : SearchStructureBudget) (c d : Cursor) (e : SearchExpression)
      → dec s c ≡ ok ((e, s'), d)
      → visit e depth t ≡ ok t'
      → t.fields ≤ max_fields
      → IsInside c
      → scan t c ≡ ok ((cost_of raised e, t'), d)

visit-fields :
    (e : SearchExpression) (depth : ℕ) (t t' : SearchStructureBudget)
    → visit e depth t ≡ ok t'
    → t'.fields ≡ t.fields
visit-fields e depth t t' h =
    let s = visit_sound e depth t t' h in ap (λ (b : SearchStructureBudget). b.fields) s.1.left

-- What the scanner's loop leaves of a total.
absorb_all :
    (SearchCost → SearchCost → SearchCost) → Option ℕ → SearchCost → Expressions → SearchCost
absorb_all fold raised total nil = total
absorb_all fold raised total (cons e es) = absorb_all fold raised (fold total (cost_of raised e)) es

module _ {raised : Option ℕ} {depth : ℕ} {dec : Reader SearchExpression} {scan : Reader SearchCost}
    (child : Agrees raised depth dec scan) (fold : SearchCost → SearchCost → SearchCost) where
  loop_agree :
      (n : ℕ) (s s' t t' : SearchStructureBudget) (c d : Cursor) (es : List SearchExpression)
      (total : SearchCost)
      → repeat_with n dec s c ≡ ok ((es, s'), d)
      → visit_all (from_list es) depth t ≡ ok t'
      → t.fields ≤ max_fields
      → IsInside c
      → (iterate n (scan_child fold scan) (total, t) c
          ≡ ok ((absorb_all fold raised total (from_list es), t'), d))
        × (count (from_list es) ≡ n)
  unfolding repeat_with iterate from_list visit_all absorb_all count scan_child
  loop_agree zero s s' t t' c d es total = λ h v fit inside. ground arith
  loop_agree (suc n) s s' t t' c d es total = through (dec s c) _ λ (e, s₁) c₁ e₁.
      through (repeat_with n dec s₁ c₁) _ λ (more, s₂) c₂ e₂ h v fit inside.
        let listed : es ≡ e ∷ more = cc in
        let ended : d ≡ c₂ = cc in
        let w =
          bind-eq-ok (visit e depth t) (λ b. visit_all (from_list more) depth b) (rw listed at v) in
        let same = visit-fields e depth t w.0 w.1 in
        let first = child.at s s₁ t w.0 c c₁ e e₁ w.1 fit inside in
        let inside₁ = Reads-IsInside (child.moves s) c (e, s₁) c₁ e₁ inside in
        let rest =
          loop_agree n s₁ s₂ w.0 t' c₁ c₂ more (fold total (cost_of raised e)) e₂ w.2 (rw same fit)
            inside₁ in
        rw (listed, ended) (rw first rest.0, ap suc rest.1)

-- The loops compute the figures of the specification, from a total that is in range.
abbrev IsInRange : SearchCost → Type 0
IsInRange total = total.construction_upper ≤ usize_max

abbrev total_of : Option ℕ → SearchCost → Expressions → Bool → SearchCost
total_of raised total es anchored = record {
  terms_upper = max total.terms_upper (max_terms_all raised es);
  construction_upper = min (total.construction_upper + construction_all raised es) usize_max;
  has_expensive_mode = total.has_expensive_mode || any_expensive es;
  has_positive_anchor = anchored;
}

absorb_all-and :
    (raised : Option ℕ) (total : SearchCost) (es : Expressions)
    → IsInRange total
    → absorb_all (absorb 1) raised total es
      ≡ total_of raised total es (total.has_positive_anchor || any_anchored es)
unfolding absorb_all absorb saturating_add max_terms construction has_expensive is_anchored
absorb_all-and raised total nil h = ground arith
absorb_all-and raised total (cons e es) h =
    ground (arith, absorb_all-and raised (absorb 1 total (cost_of raised e)) es)

absorb_all-or :
    (raised : Option ℕ) (total : SearchCost) (es : Expressions)
    → IsInRange total
    → absorb_all (absorb 2) raised total es
      ≡ total_of raised total es (total.has_positive_anchor && all_anchored es)
unfolding absorb_all absorb saturating_add max_terms construction has_expensive is_anchored
absorb_all-or raised total nil h = ground arith
absorb_all-or raised total (cons e es) h =
    ground (arith, absorb_all-or raised (absorb 2 total (cost_of raised e)) es)

absorb_all-optional :
    (raised : Option ℕ) (total : SearchCost) (es : Expressions)
    → IsInRange total
    → absorb_all absorb_optional raised total es
      ≡ total_of raised total es total.has_positive_anchor
unfolding absorb_all absorb_optional saturating_add max_terms construction has_expensive is_anchored
absorb_all-optional raised total nil h = ground arith
absorb_all-optional raised total (cons e es) h =
    ground (arith, absorb_all-optional raised (absorb_optional total (cost_of raised e)) es)

abbrev start_of : ℕ → ℕ → SearchCost
start_of kind n = record {
  terms_upper = 0;
  construction_upper = n;
  has_expensive_mode = false;
  has_positive_anchor = kind == 2;
}

-- A group has a child, after which its total is in range.
absorb_all-conjunction :
    (raised : Option ℕ) (es : Expressions)
    → count es ≢ 0
    → absorb_all (absorb 1) raised (start_of 1 (count es)) es ≡ cost_of raised (and es)
unfolding absorb_all absorb saturating_add max_terms construction has_expensive is_anchored count
absorb_all-conjunction raised nil h = absurd (h refl)
absorb_all-conjunction raised (cons e es) h =
    ground
      (arith, absorb_all-and raised (absorb 1 (start_of 1 (suc (count es))) (cost_of raised e)) es)

absorb_all-disjunction :
    (raised : Option ℕ) (es : Expressions)
    → count es ≢ 0
    → absorb_all (absorb 2) raised (start_of 2 (count es)) es ≡ cost_of raised (or es)
unfolding absorb_all absorb saturating_add max_terms construction has_expensive is_anchored count
absorb_all-disjunction raised nil h = absurd (h refl)
absorb_all-disjunction raised (cons e es) h =
    ground
      (arith, absorb_all-or raised (absorb 2 (start_of 2 (suc (count es))) (cost_of raised e)) es)

abbrev scored_start : Option ℕ → SearchExpression → ℕ → SearchCost
scored_start raised required n = record (cost_of raised required) {
  construction_upper = saturating_add (cost_of raised required).construction_upper (n + 1);
}

absorb_all-scored :
    (raised : Option ℕ) (required : SearchExpression) (es : Expressions)
    → absorb_all absorb_optional raised (scored_start raised required (count es)) es
      ≡ cost_of raised (optional required es)
unfolding saturating_add max_terms construction has_expensive is_anchored
absorb_all-scored raised required es =
    ground (arith, absorb_all-optional raised (scored_start raised required (count es)) es)

module _ (raised : Option ℕ) (depth : ℕ) (dec : Reader SearchExpression) (scan : Reader SearchCost)
    (child : Agrees raised (depth + 1) dec scan) (s s' t t' : SearchStructureBudget) (c d : Cursor)
    (e : SearchExpression) where
  pub not_agree :
      decode_not dec s c ≡ ok ((e, s'), d)
      → visit e depth t ≡ ok t'
      → t.fields ≤ max_fields
      → IsInside c
      → scan_not scan t c ≡ ok ((cost_of raised e, t'), d)
  unfolding decode_not scan_not saturating_add max_terms construction has_expensive is_anchored
  not_agree = through_lift (charge 2 s) _ _ λ s₁ e₁.
      through (dec s₁ c) _ λ (b, s₂) c₁ e₂ h v fit inside.
        let negated : e ≡ negate b = cc in
        let w = visit-negate b depth t t' (rw negated at v) in
        let read = child.at s₁ s₂ (charged 2 t) t' c c₁ b e₂ w.1 fit inside in
        rw (w.0, read, negated) (ground arith)

  pub boost_agree :
      decode_boost dec s c ≡ ok ((e, s'), d)
      → visit e depth t ≡ ok t'
      → t.fields ≤ max_fields
      → IsInside c
      → scan_boost scan t c ≡ ok ((cost_of raised e, t'), d)
  unfolding decode_boost scan_boost saturating_add max_terms construction has_expensive is_anchored
  boost_agree = through (f32 c) _ λ value c₁ e₁.
      through_lift (validate_query_boost value) _ _ λ _ e₂. through_lift (charge 1 s) _ _ λ s₁ e₃.
        through (dec s₁ c₁) _ λ (b, s₂) c₂ e₄ h v fit inside.
          let boosted : e ≡ boost value b = cc in
          let w = visit-boost b depth t t' value (rw boosted at v) in
          let inside₁ = Reads-IsInside f32-Reads c value c₁ e₁ inside in
          let read = child.at s₁ s₂ (charged 1 t) t' c₁ c₂ b e₄ w.1 fit inside₁ in
          rw (e₁, e₂, w.0, read, boosted) (ground arith)

  pub and_agree :
      decode_group 1 dec s c ≡ ok ((e, s'), d)
      → visit e depth t ≡ ok t'
      → t.fields ≤ max_fields
      → IsInside c
      → scan_group 1 scan t c ≡ ok ((cost_of raised e, t'), d)
  unfolding decode_group scan_group
  and_agree = through (u16 c) _ λ n c₁ e₁. through_lift (children n s) _ _ λ s₁ e₂.
      through (repeat_with n dec s₁ c₁) _ λ (es, s₂) c₂ e₃ h v fit inside.
        let joined : e ≡ and (from_list es) = cc in
        let w = visit-and (from_list es) depth t t' (rw joined at v) in
        let inside₁ = Reads-IsInside u16-Reads c n c₁ e₁ inside in
        let m = count (from_list es) in
        let loop =
          loop_agree child (absorb 1) n s₁ s₂ (charged m t) t' c₁ c₂ es (start_of 1 m) e₃ w.3 fit
            inside₁ in
        let total = absorb_all-conjunction raised (from_list es) w.0 in
        rw (e₁, ← loop.1, w.2, joined, ← total) (cc (loop.0, loop.1))

  pub or_agree :
      decode_group 2 dec s c ≡ ok ((e, s'), d)
      → visit e depth t ≡ ok t'
      → t.fields ≤ max_fields
      → IsInside c
      → scan_group 2 scan t c ≡ ok ((cost_of raised e, t'), d)
  unfolding decode_group scan_group
  or_agree = through (u16 c) _ λ n c₁ e₁. through_lift (children n s) _ _ λ s₁ e₂.
      through (repeat_with n dec s₁ c₁) _ λ (es, s₂) c₂ e₃ h v fit inside.
        let joined : e ≡ or (from_list es) = cc in
        let w = visit-or (from_list es) depth t t' (rw joined at v) in
        let inside₁ = Reads-IsInside u16-Reads c n c₁ e₁ inside in
        let m = count (from_list es) in
        let loop =
          loop_agree child (absorb 2) n s₁ s₂ (charged m t) t' c₁ c₂ es (start_of 2 m) e₃ w.3 fit
            inside₁ in
        let total = absorb_all-disjunction raised (from_list es) w.0 in
        rw (e₁, ← loop.1, w.2, joined, ← total) (cc (loop.0, loop.1))

  pub optional_agree :
      decode_optional dec s c ≡ ok ((e, s'), d)
      → visit e depth t ≡ ok t'
      → t.fields ≤ max_fields
      → IsInside c
      → scan_optional scan t c ≡ ok ((cost_of raised e, t'), d)
  unfolding decode_optional scan_optional
  optional_agree = through (u16 c) _ λ n c₁ e₁. through_lift (optional_children n s) _ _ λ s₁ e₂.
      through_lift (charge 1 s₁) _ _ λ s₂ e₃. through (dec s₂ c₁) _ λ (required, s₃) c₂ e₄.
        through (repeat_with n dec s₃ c₂) _ λ (es, s₄) c₃ e₅ h v fit inside.
          let scored : e ≡ optional required (from_list es) = cc in
          let w = visit-optional (from_list es) depth t t' required (rw scored at v) in
          let inside₁ = Reads-IsInside u16-Reads c n c₁ e₁ inside in
          let m = count (from_list es) in
          through_result (visit required (depth + 1) (charged (m + 1) t)) _
            (λ t₁ v₁ v₂.
              let first = child.at s₂ s₃ (charged (m + 1) t) t₁ c₁ c₂ required e₄ v₁ fit inside₁ in
              let inside₂ = Reads-IsInside (child.moves s₂) c₁ (required, s₃) c₂ e₄ inside₁ in
              let start = scored_start raised required m in
              let total = absorb_all-scored raised required (from_list es) in
              let fit₁ : t₁.fields ≤ max_fields =
                omega (arith, visit-fields required (depth + 1) (charged (m + 1) t) t₁ v₁) in
              let loop =
                loop_agree child absorb_optional n s₃ s₄ t₁ t' c₂ c₃ es start e₅ v₂ fit₁ inside₂ in
              rw (e₁, ← loop.1, w.2, w.3, first, scored, ← total) (cc (loop.0, loop.1)))
            w.4
