-- ===== src/Cursor/Reads.antt =====
-- How far the readers of `Cursor` (src/protocol.rs) move: only forward, and never past the end.
use mathlib.Core.Logic.{inl, inr}
use fulltext.Prelude.{
  ℕ, zero, suc, ◌+◌, ◌*◌, ◌≤◌, ◌≡◌, refl, ap, Bool, true, false, [], ◌∷◌, arith, length, get_range,
  get_range-some, if◌then◌else◌, Option-cases,
}
use fulltext.Error.{FulltextError, Result, ok, err, bind-eq-ok}
use fulltext.Text.{Bytes}
use fulltext.Cursor.{
  Cursor, Parser, pure, lift, reject, reject_if, ◌>>=◌, take_bytes, u8, boolean, u16, u32,
  byte_string, f32, f64, from_utf8, string, record_id, repeat, repeat_with, iterate,
}

-- From `c` to `d` at least `n` bytes were read, all of them of the request.
pub record Advances (n : ℕ) (c d : Cursor) : Type 0 where
  pub same : d.bytes ≡ c.bytes
  pub forward : c.offset + n ≤ d.offset
  pub inside : c.offset ≤ length c.bytes → d.offset ≤ length c.bytes

pub record Reads {ℓ} (n : ℕ) {A : Type ℓ} (p : Parser A) : Type ℓ where
  pub at : (c : Cursor) (a : A) (d : Cursor) → p c ≡ ok (a, d) → Advances n c d

pub Advances_trans :
    {m n : ℕ} {c d e : Cursor} → Advances m c d → Advances n d e → Advances (m + n) c e
Advances_trans s t = record {
  same = cc (s.same, t.same);
  forward = omega (arith, s.forward, t.forward);
  inside = λ h. let k = s.inside h in rw (← s.same) (t.inside (rw s.same k));
}

-- A successful `take` moves by what it reads, and stays inside.
pub take_bytes-eq-ok :
    (n : ℕ) (c d : Cursor) (v : Bytes)
    → take_bytes n c ≡ ok (v, d)
    → (d ≡ record c { offset = c.offset + n }) × (c.offset + n ≤ length c.bytes) × (length v ≡ n)
unfolding take_bytes
take_bytes-eq-ok n c d v h = elim (Option-cases (get_range c.bytes c.offset (c.offset + n))) [
  | inl e ↦ ground (arith, e)
  | inr (r, e) ↦
      let s = get_range-some c.bytes c.offset (c.offset + n) e in
      (ground (arith, e), s.1, ground (arith, e, s.2))
]

pub take_bytes-Reads : (n : ℕ) → Reads n (take_bytes n)
take_bytes-Reads n = record {
  at = λ c v d h.
      let s = take_bytes-eq-ok n c d v h in
      record {
        same = ap (λ (e : Cursor). e.bytes) s.0;
        forward = omega (arith, ap (λ (e : Cursor). e.offset) s.0);
        inside = λ _. omega (arith, ap (λ (e : Cursor). e.offset) s.0, s.1);
      };
}

stays : (c : Cursor) → Advances 0 c c
stays c = record { same = refl; forward = omega arith; inside = λ h. h }

module _ {ℓ} {A : Type ℓ} where
  cursor_of-ok :
      {c d : Cursor} {a b : A} → ◌≡◌ {A = Result (A × Cursor)} (ok (a, c)) (ok (b, d)) → c ≡ d
  cursor_of-ok h = cc

  -- What returns without reading.
  pub Reads-pure : (a : A) → Reads 0 (pure a)
  Reads-pure a = record { at = λ c b d h. rw (← (cursor_of-ok h)) (stays c) }

  pub Reads-lift : (r : Result A) → Reads 0 (lift r)
  Reads-lift (ok a) = Reads-pure a
  Reads-lift (err e) = record { at = λ c b d h. absurd (cc) }

  pub Reads-reject : (e : FulltextError) (n : ℕ) → Reads n (reject {A = A} e)
  Reads-reject e n = record { at = λ c b d h. absurd (cc) }

  pub Reads-weaken : {m : ℕ} (n : ℕ) {p : Parser A} → n ≤ m → Reads m p → Reads n p
  Reads-weaken n le r = record {
    at = λ c a d h.
        let s = r.at c a d h in
        record { same = s.same; forward = omega (arith, s.forward); inside = s.inside };
  }

pub Reads-reject_if : (b : Bool) (e : FulltextError) → Reads 0 (reject_if b e)
Reads-reject_if true e = Reads-reject e 0
Reads-reject_if false e = Reads-pure tt

module _ {ℓ κ} {A : Type ℓ} {B : Type κ} where
  -- What a chain reads is at least what its parts read.
  pub Reads-bind :
      {m n : ℕ} {p : Parser A} {f : A → Parser B}
      → Reads m p
      → ((a : A) → Reads n (f a))
      → Reads (m + n) (p >>= f)
  Reads-bind {p} {f} r k = record {
    at = λ c b d h.
        let s = bind-eq-ok (p c) (λ (a, rest). f a rest) h in
        Advances_trans (r.at c s.0.0 s.0.1 s.1) ((k s.0.0).at s.0.1 b d s.2);
  }

  -- Where only the direction matters.
  pub Moves-bind :
      {m : ℕ} {p : Parser A} {f : A → Parser B}
      → Reads m p
      → ((a : A) → Reads 0 (f a))
      → Reads 0 (p >>= f)
  Moves-bind r k = Reads-weaken 0 (omega arith) (Reads-bind r k)

  -- A step that has no cursor.
  pub Reads-bind_lift :
      {n : ℕ} (r : Result A) {f : A → Parser B} → ((a : A) → Reads n (f a)) → Reads n (lift r >>= f)
  Reads-bind_lift (ok a) k = k a
  Reads-bind_lift {n} (err e) k = Reads-reject e n

module _ {ℓ} {A : Type ℓ} where
  pub Reads-if :
      (n : ℕ) (b : Bool) (p q : Parser A) → Reads n p → Reads n q → Reads n (if b then p else q)
  Reads-if n true p q r s = r
  Reads-if n false p q r s = s

  pub repeat-Reads : (n k : ℕ) (p : Parser A) → Reads k p → Reads (n * k) (repeat n p)
  unfolding repeat
  repeat-Reads zero k p r = Reads-weaken (0 * k) (omega arith) (Reads-pure [])
  repeat-Reads (suc n) k p r =
      Reads-weaken (suc n * k) (omega arith)
        (Reads-bind r λ a. Reads-bind (repeat-Reads n k p r) λ more. Reads-pure (a ∷ more))

  pub iterate-Moves :
      (n : ℕ) (body : A → Parser A) (s : A)
      → ((t : A) → Reads 0 (body t))
      → Reads 0 (iterate n body s)
  unfolding iterate
  iterate-Moves zero body s r = Reads-pure s
  iterate-Moves (suc n) body s r = Moves-bind (r s) λ t. iterate-Moves n body t r

module _ {ℓ} {S A : Type ℓ} where
  pub repeat_with-Moves :
      (n : ℕ) (read : S → Parser (A × S)) (s : S)
      → ((t : S) → Reads 0 (read t))
      → Reads 0 (repeat_with n read s)
  unfolding repeat_with
  repeat_with-Moves zero read s r = Reads-pure ([], s)
  repeat_with-Moves (suc n) read s r =
      Moves-bind (r s) λ (a, s₁).
        Moves-bind (repeat_with-Moves n read s₁ r) λ (more, s₂). Reads-pure (a ∷ more, s₂)

pub u8-Reads : Reads 1 u8
unfolding u8
u8-Reads = Reads-bind (take_bytes-Reads 1) λ v. Reads-pure _

pub boolean-Reads : Reads 1 boolean
unfolding boolean
boolean-Reads = Reads-bind u8-Reads λ v. Reads-lift _

pub u16-Reads : Reads 2 u16
unfolding u16
u16-Reads = Reads-bind (take_bytes-Reads 2) λ v. Reads-pure _

pub u32-Reads : Reads 4 u32
unfolding u32
u32-Reads = Reads-bind (take_bytes-Reads 4) λ v. Reads-pure _

pub f32-Reads : Reads 4 f32
unfolding f32
f32-Reads = Reads-bind (take_bytes-Reads 4) λ v. Reads-pure _

pub f64-Reads : Reads 8 f64
unfolding f64
f64-Reads = Reads-bind (take_bytes-Reads 8) λ v. Reads-pure _

pub byte_string-Reads : Reads 4 byte_string
unfolding byte_string
byte_string-Reads = Reads-weaken 4 (omega arith) (
    Reads-bind u32-Reads
      λ n. Moves-bind (Reads-reject_if _ _) λ _. Reads-weaken 0 (omega arith) (take_bytes-Reads n))

pub string-Reads : Reads 4 string
unfolding string
string-Reads = Reads-bind byte_string-Reads λ v. Reads-lift (from_utf8 v)

pub record_id-Reads : Reads 4 record_id
unfolding record_id
record_id-Reads = Reads-bind string-Reads λ v. Moves-bind (Reads-lift _) λ _. Reads-pure _

-- A cursor within its bytes, where `remaining` does not wrap.
abbrev pub IsInside : Cursor → Type 0
IsInside c = c.offset ≤ length c.bytes

pub Reads-IsInside {ℓ} :
    {A : Type ℓ} {n : ℕ} {p : Parser A} (r : Reads n p) (c : Cursor) (a : A) (d : Cursor)
    → p c ≡ ok (a, d)
    → IsInside c
    → IsInside d
Reads-IsInside r c a d h start =
    let s = r.at c a d h in omega (arith, s.inside start, ap length s.same)

-- A text that was read is a byte string that was read.
pub string-byte_string :
    (c d : Cursor) (v : Bytes) → string c ≡ ok (v, d) → byte_string c ≡ ok (v, d)
unfolding string from_utf8
string-byte_string c d v h = ground arith
