-- ===== src/Error.antt =====
-- src/error.rs: the error that every fallible operation returns, and results.
use fulltext.Prelude.{ℕ, String, ◌≡◌, refl, Bool, true, false, List, [], if◌then◌else◌}

-- `ERROR_CODES`, in its order.
pub data Code : Type 0 where
  closed cursor_expired close_failed dirty_close checkpoint_required duplicate_open : Code
  identity_mismatch incomplete_create index_corrupt index_format_incompatible : Code
  index_not_ready batch_active batch_incomplete batch_too_large invalid_argument : Code
  lock_busy native_abi_mismatch native_addon_not_found native_load_failed : Code
  native_capability_mismatch native_failure native_panic poisoned prefix_too_broad : Code
  queue_full quiescence_failed read_only reload_failed resource_limit : Code
  result_too_large schema_mismatch storage timeout : Code

-- What `format!` puts into a message: a number, or the UTF-8 bytes of a text.
pub data Argument : Type 0 where
  number : ℕ → Argument
  text : List ℕ → Argument

-- A message is kept as its format string, constants filled in, and its run-time arguments.
pub record FulltextError : Type 0 where
  pub code : Code
  pub message : String
  pub arguments : List Argument

abbrev pub new : Code → String → List Argument → FulltextError
new c m a = record { code = c; message = m; arguments = a }

abbrev pub invalid : String → FulltextError
invalid m = new invalid_argument m []

abbrev pub invalid_with : String → List Argument → FulltextError
invalid_with m a = new invalid_argument m a

pub data Result {ℓ} (A : Type ℓ) : Type ℓ where
  ok : A → Result A
  err : FulltextError → Result A

abbrev pub bind {ℓ κ} : {A : Type ℓ} {B : Type κ} → Result A → (A → Result B) → Result B
bind (ok a) f = f a
bind (err e) f = err e

infixl 5 ◌>>=◌ ◌>>◌
abbrev pub ◌>>=◌ {ℓ κ} : {A : Type ℓ} {B : Type κ} → Result A → (A → Result B) → Result B
m >>= f = bind m f

abbrev pub ◌>>◌ {ℓ} : {B : Type ℓ} → Result (Unit {0}) → Result B → Result B
m >> k = bind m (λ _. k)

-- `if refused { return Err(error); }`
abbrev pub refuse_if : Bool → FulltextError → Result (Unit {0})
refuse_if refused e = if refused then err e else ok tt

-- A successful chain, taken apart.
pub bind-eq-ok {ℓ κ} :
    {A : Type ℓ} {B : Type κ} (m : Result A) (f : A → Result B) {b : B}
    → bind m f ≡ ok b
    → (a : A) × (m ≡ ok a) × (f a ≡ ok b)
bind-eq-ok (ok a) f h = (a, refl, h)
bind-eq-ok (err e) f h = cc

pub refuse_if-eq-ok :
    (refused : Bool) (e : FulltextError) {u : Unit {0}}
    → refuse_if refused e ≡ ok u
    → refused ≡ false
refuse_if-eq-ok true e h = cc
refuse_if-eq-ok false e h = refl

pub through_result {ℓ κ ι} :
    {A : Type ℓ} {B : Type κ} {P : Type ι} (m : Result A) (f : A → Result B) {b : B}
    → ((a : A) → m ≡ ok a → f a ≡ ok b → P)
    → bind m f ≡ ok b
    → P
through_result (ok a) f k h = k a refl h
through_result (err e) f k h = absurd (cc)
