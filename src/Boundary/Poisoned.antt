-- ===== src/Boundary/Poisoned.antt =====
-- A panic of src/boundary.rs is the end of its handle.
use fulltext.Prelude.{ℕ, zero, suc, ◌≡◌, refl, sym, subst, Bool, true, List, [], ◌∷◌, ◌++◌}
use fulltext.Error.{Result, ok, err}
use fulltext.Boundary.{
  returned, panicked, enter_run, leave_run, Handle, Event, enter, leave, entered, left, step,
  run_handle,
}

-- Every call that ends here ends with an error.
abbrev pub AreErrors {ℓ} : {A : Type ℓ} → List (Result A) → Type 0
AreErrors [] = Unit
AreErrors (ok a ∷ results) = ⊥
AreErrors (err e ∷ results) = AreErrors results

append-AreErrors {ℓ} :
    {A : Type ℓ} (xs ys : List (Result A)) → AreErrors xs → AreErrors ys → AreErrors (xs ++ ys)
append-AreErrors [] ys h k = k
append-AreErrors (ok a ∷ xs) ys h k = h
append-AreErrors (err e ∷ xs) ys h k = append-AreErrors xs ys h k

step-AreErrors {ℓ} :
    {A : Type ℓ} (e : Event A) (n : ℕ)
    → let r = step e (record { is_poisoned = true; running = n }) in
      AreErrors r.0 × (r.1.is_poisoned ≡ true)
unfolding step entered enter_run left leave_run
step-AreErrors enter n = (tt, refl)
step-AreErrors (leave c) zero = (tt, refl)
step-AreErrors (leave (returned a)) (suc n) = (tt, refl)
step-AreErrors (leave panicked) (suc n) = (tt, refl)

-- Once a handle is poisoned, whatever its callers do.
poisoned_for_good {ℓ} :
    {A : Type ℓ} (events : List (Event A)) (h : Handle)
    → h.is_poisoned ≡ true
    → AreErrors (run_handle events h).0 × ((run_handle events h).1.is_poisoned ≡ true)
unfolding run_handle
poisoned_for_good [] h p = (tt, p)
poisoned_for_good (e ∷ events) h p =
    let s : AreErrors (step e h).0 × ((step e h).1.is_poisoned ≡ true) =
      subst
        (λ (b : Bool).
          let r = step e (record { is_poisoned = b; running = h.running }) in
          AreErrors r.0 × (r.1.is_poisoned ≡ true))
        (sym p) (step-AreErrors e h.running) in
    let rest = poisoned_for_good events (step e h).1 s.1 in
    (append-AreErrors (step e h).0 (run_handle events (step e h).1).0 s.0 rest.0, rest.1)

-- Where an operation that runs on a handle panics, its call and each call that ends after it ends with
-- an error, the operations that were running then included, and the handle stays poisoned.
pub run_handle-panicked {ℓ} :
    {A : Type ℓ} (events : List (Event A)) (n : ℕ) (is_poisoned : Bool)
    → let r =
        run_handle
          (leave panicked ∷ events)
          (record { is_poisoned = is_poisoned; running = suc n }) in
      AreErrors r.0 × (r.1.is_poisoned ≡ true)
unfolding run_handle step left leave_run
run_handle-panicked events n is_poisoned =
    let r = poisoned_for_good events (record { is_poisoned = true; running = n }) refl in (r.0, r.1)
