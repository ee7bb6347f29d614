-- ===== src/Config/Opened.antt =====
-- What `decode_open` of src/protocol.rs hands to the engine.
use fulltext.Prelude.{◌≤◌, ◌≡◌, [], ◌∷◌, arith, length, is_empty}
use fulltext.Error.{Result, ok, bind-eq-ok, through_result}
use fulltext.Text.{Bytes}
use fulltext.Cursor.{Cursor, new, lift, through, through_lift, u16, u32, u64_usize, string, finish}
use fulltext.Config.{EngineConfig, validate_config}
use fulltext.Config.Wire.{
  NativeOpenConfig, validate_path, open_magic, open_body, decode_open, decode_engine_config,
  decode_engine_identity_config, decode_query_limits,
}
use fulltext.Config.Accepted.{IsConfig, validate_config-IsConfig}

path_kept : (text path : Bytes) → validate_path text ≡ ok path → 1 ≤ length path
unfolding validate_path is_empty
path_kept [] path h = absurd (cc)
path_kept (b ∷ text) path h = ground arith

validated :
    (config engine : EngineConfig) (c d : Cursor)
    → lift (validate_config config) c ≡ ok (engine, d)
    → IsConfig engine
validated config engine c d h =
    let kept : EngineConfig → Result (EngineConfig × Cursor) = λ a. ok (a, c) in
    let (e, v, g) = bind-eq-ok (validate_config config) kept h in
    let same : e ≡ engine = cc in rw (← same) (validate_config-IsConfig config e v).1

engine_valid :
    (c d : Cursor) (engine : EngineConfig)
    → decode_engine_config c ≡ ok (engine, d)
    → IsConfig engine
unfolding decode_engine_config
engine_valid c d engine = through (decode_engine_identity_config c) _ λ identity c₁ _.
    through (u16 c₁) _ λ i c₂ _. through (u16 c₂) _ λ s c₃ _. through (u64_usize c₃) _ λ w c₄ _.
      through (u32 c₄) _ λ q c₅ _. through (u64_usize c₅) _ λ b c₆ _.
        through (u64_usize c₆) _ λ m c₇ _.
          through (decode_query_limits _ c₇) _ λ limits c₈ _ h.
            validated (record { identity = identity; limits = limits }) engine c₈ d h

opened :
    (c d : Cursor) (read config : NativeOpenConfig)
    → open_body c ≡ ok (read, d)
    → read ≡ config
    → (1 ≤ length config.path) × IsConfig config.engine
unfolding open_body
opened c d read config = through (string c) _ λ text c₁ _.
    through_lift (validate_path text) c₁ _ λ path p.
      through (decode_engine_config c₁) _ λ engine c₂ v. through (finish c₂) _ λ _ c₃ _ h same.
        let built : read ≡ record { path = path; engine = engine } = ground arith in
        rw (← same, built) (path_kept text path p, engine_valid c₁ c₂ engine v)

-- Where the configuration of an open decodes, its path is not empty, its identity is well formed, and
-- its limits, given or default, are in their ranges.
pub decode_open-IsConfig :
    (bytes : Bytes) (config : NativeOpenConfig)
    → decode_open bytes ≡ ok config
    → (1 ≤ length config.path) × IsConfig config.engine
unfolding decode_open
decode_open-IsConfig bytes config =
    through_result (new bytes open_magic) _
      λ c _. through (open_body c) _ λ read d e h. opened c d read config e (ground arith)
