-- ===== src/Boundary.antt =====
-- `PoisonState::run` and `run_stateless` of src/boundary.rs: calls from JavaScript stop at a panic. A call
-- of `run` takes two steps on the flag that it shares, one before the operation and one after it, since
-- other threads may poison the state while the operation runs.
pub mod Poisoned
use fulltext.Prelude.{
  ℕ, zero, suc, Bool, true, false, List, [], ◌∷◌, ◌++◌, Option, none, some, if◌then◌else◌,
}
use fulltext.Error.{FulltextError, Result, ok, err, new, poisoned, native_panic}

-- What `catch_unwind` gives.
pub data Caught {ℓ} (A : Type ℓ) : Type ℓ where
  returned : A → Caught A
  panicked : Caught A

abbrev pub terminal : FulltextError
terminal = new poisoned "the native handle is in a terminal state" []

abbrev pub panic_error : FulltextError
panic_error = new native_panic "native operation panicked" []

-- The check before the operation: an error, or nothing and the operation runs.
unfoldable pub enter_run : Bool → Option FulltextError
enter_run is_poisoned = if is_poisoned then some terminal else none

-- What follows the operation, with the flag as it is then, and the flag behind it.
unfoldable pub leave_run {ℓ} : {A : Type ℓ} → Caught A → Bool → Result A × Bool
leave_run (returned a) is_poisoned = (if is_poisoned then err terminal else ok a, is_poisoned)
leave_run panicked is_poisoned = (err panic_error, true)

unfoldable pub run_stateless {ℓ} : {A : Type ℓ} → Caught A → Result A
run_stateless (returned a) = ok a
run_stateless panicked = err panic_error

-- The flag, and the number of operations that run.
pub record Handle : Type 0 where
  pub is_poisoned : Bool
  pub running : ℕ

-- Steps of the threads that call the handle.
pub data Event {ℓ} (A : Type ℓ) : Type ℓ where
  enter : Event A
  leave : Caught A → Event A

module _ {ℓ} {A : Type ℓ} where
  unfoldable pub entered : Option FulltextError → Handle → List (Result A) × Handle
  entered (some e) h = (err e ∷ [], h)
  entered none h = ([], record h { running = suc h.running })

  unfoldable pub left : ℕ → Caught A → Handle → List (Result A) × Handle
  unfolding leave_run
  left zero c h = ([], h)
  left (suc n) c h =
      let (r, flag) = leave_run c h.is_poisoned in
      (r ∷ [], record { is_poisoned = flag; running = n })

  unfoldable pub step : Event A → Handle → List (Result A) × Handle
  unfolding enter_run entered left
  step enter h = entered (enter_run h.is_poisoned) h
  step (leave c) h = left h.running c h

  unfoldable pub run_handle : List (Event A) → Handle → List (Result A) × Handle
  unfolding step
  run_handle [] h = ([], h)
  run_handle (e ∷ events) h =
      let (results, next) = step e h in
      let (more, last) = run_handle events next in (results ++ more, last)
