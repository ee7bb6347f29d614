-- ===== src/Examples/Stored.antt =====
-- The theorems on what src/engine.rs stores and compares, applied at concrete inputs.
use fulltext.Prelude.{◌≡◌, refl, arith, true, false, [], ◌∷◌, some}
use fulltext.Text.{is_utf8}
use fulltext.Config.{EngineIdentityConfig, english}
use fulltext.Filter.{FilterFieldType}
use fulltext.Identity.{
  identity_bytes, persisted_index_id, push_filter_fields, push_rule, push_each, push_string,
  push_filter_field, to_le_bytes,
}
use fulltext.Identity.RoundTrip.{IsStorable, persisted_index_id-identity_bytes}

abbrev products : EngineIdentityConfig
products = record {
  index_id = b'p' ∷ b'1' ∷ [];
  generation = b'g' ∷ [];
  fields = record { name = b't' ∷ []; weight = 1065353216 } ∷ [];
  analyzer = english;
  stop_words = true;
  positions = false;
  surface_terms = true;
  synonyms = record { source = b'a' ∷ []; replacements = (b'b' ∷ []) ∷ (b'c' ∷ []) ∷ [] } ∷ [];
  filter_fields = record { name = b's' ∷ []; field_type = FilterFieldType.text } ∷ [];
}

products-IsStorable : IsStorable products
unfolding is_utf8 identity_bytes push_filter_fields push_rule push_each push_string
    push_filter_field to_le_bytes
products-IsStorable = record {
  index_id = (refl, omega arith);
  generation = (refl, omega arith);
  analyzer = (refl, omega arith);
  rules = (
    omega arith,
    (((refl, omega arith), (omega arith, ((refl, omega arith), ((refl, omega arith), tt)))), tt),
  );
  fields = (omega arith, ((refl, omega arith), tt));
  filter_fields = (omega arith, ((refl, omega arith), tt));
  fits = omega arith;
}

persisted_index_id-identity_bytes_example :
    persisted_index_id (identity_bytes products) ≡ some (b'p' ∷ b'1' ∷ [])
persisted_index_id-identity_bytes_example =
    persisted_index_id-identity_bytes products products-IsStorable
