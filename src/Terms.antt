-- ===== src/Terms.antt =====
-- `prefix_end` of src/engine.rs, the end of the range of terms with a prefix.
pub mod Prefix
use fulltext.Prelude.{
  ℕ, zero, suc, ◌+◌, ◌-◌, Bool, true, false, ◌||◌, ◌&&◌, not, List, [], ◌∷◌, ◌++◌, Option, none,
  some, ltb, leb, ◌==◌, if◌then◌else◌, length,
}
use mathlib.Core.List.{reverse}
use fulltext.Text.{Bytes, text_eq}

-- The loop: bytes are popped from the end until one can be raised. The list is the buffer from its
-- end.
unfoldable pub raise_last : Bytes → Option Bytes
raise_last [] = none
raise_last (last ∷ before) =
    let popped = raise_last before in
    if last == 255 then popped else some (reverse ((last + 1) ∷ before))

unfoldable pub prefix_end : Bytes → Option Bytes
unfolding raise_last
prefix_end prefix = raise_last (reverse prefix)
