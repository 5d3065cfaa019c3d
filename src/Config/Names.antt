-- ===== src/Config/Names.antt =====
-- The names of the enumerations and the parsers that read them, without regard to case.
use Prim.Native.Char.{code}
use Prim.Native.String.{String}
use meitte.Base.{
  ℕ, ◌+◌, ◌≡◌, refl, Bool, true, false, ◌&&◌, List, [], ◌∷◌, map, Option, none, some, if◌then◌else◌,
  ◌==◌, leb, arith, ◌∙◌, ap, ◌↔◌,
}
use mathlib.Core.Option.{some-injective}
use meitte.Config.Types.{
  Bytes, KvCacheType, f32, f16, bf16, q8_0, q5_0, q5_1, q4_0, q4_1, iq4_nl, FlashAttentionMode,
  fa_auto, fa_enabled, fa_disabled, RopeScalingMode, rope_auto, rope_none, rope_linear, rope_yarn,
  rope_long, ContextMode, ctx_off, ctx_on, ctx_auto,
}

-- The bytes of an ASCII text.
abbrev pub codes : String → Bytes
codes String.[] = []
codes (String.◌∷◌ c s) = code c ∷ codes s

-- `std::tolower` on a byte, in the "C" locale.
unfoldable pub to_lower : ℕ → ℕ
to_lower c = if leb b'A' c && leb c b'Z' then c + 32 else c

unfoldable pub lower : Bytes → Bytes
unfolding to_lower
lower = map to_lower

abbrev pub same_bytes : Bytes → Bytes → Bool
same_bytes [] [] = true
same_bytes [] (y ∷ ys) = false
same_bytes (x ∷ xs) [] = false
same_bytes (x ∷ xs) (y ∷ ys) = (x == y) && same_bytes xs ys

-- The first name of a table that equals `v`.
abbrev pub find_name {ℓ} : {A : Type ℓ} → Bytes → List (Bytes × A) → Option A
find_name v [] = none
find_name v ((n, a) ∷ rest) = if same_bytes v n then some a else find_name v rest

pub kv_cache_type_name : KvCacheType → Bytes
kv_cache_type_name f32 = codes "f32"
kv_cache_type_name f16 = codes "f16"
kv_cache_type_name bf16 = codes "bf16"
kv_cache_type_name q8_0 = codes "q8_0"
kv_cache_type_name q5_0 = codes "q5_0"
kv_cache_type_name q5_1 = codes "q5_1"
kv_cache_type_name q4_0 = codes "q4_0"
kv_cache_type_name q4_1 = codes "q4_1"
kv_cache_type_name iq4_nl = codes "iq4_nl"

pub flash_attention_mode_name : FlashAttentionMode → Bytes
flash_attention_mode_name fa_auto = codes "auto"
flash_attention_mode_name fa_enabled = codes "on"
flash_attention_mode_name fa_disabled = codes "off"

pub rope_scaling_mode_name : RopeScalingMode → Bytes
rope_scaling_mode_name rope_auto = codes "auto"
rope_scaling_mode_name rope_none = codes "none"
rope_scaling_mode_name rope_linear = codes "linear"
rope_scaling_mode_name rope_yarn = codes "yarn"
rope_scaling_mode_name rope_long = codes "longrope"

abbrev kv_cache_type_table : List (Bytes × KvCacheType)
kv_cache_type_table =
    ((codes "f32", f32)
      ∷ (codes "f16", f16)
      ∷ (codes "bf16", bf16)
      ∷ (codes "q8_0", q8_0)
      ∷ (codes "q5_0", q5_0)
      ∷ (codes "q5_1", q5_1)
      ∷ (codes "q4_0", q4_0)
      ∷ (codes "q4_1", q4_1)
      ∷ (codes "iq4_nl", iq4_nl)
      ∷ [])

pub parse_kv_cache_type : Bytes → Option KvCacheType
unfolding lower
parse_kv_cache_type value = find_name (lower value) kv_cache_type_table

abbrev flash_attention_mode_table : List (Bytes × FlashAttentionMode)
flash_attention_mode_table =
    ((codes "auto", fa_auto) ∷ (codes "on", fa_enabled) ∷ (codes "off", fa_disabled) ∷ [])

pub parse_flash_attention_mode : Bytes → Option FlashAttentionMode
unfolding lower
parse_flash_attention_mode value = find_name (lower value) flash_attention_mode_table

abbrev rope_scaling_mode_table : List (Bytes × RopeScalingMode)
rope_scaling_mode_table =
    ((codes "auto", rope_auto)
      ∷ (codes "none", rope_none)
      ∷ (codes "linear", rope_linear)
      ∷ (codes "yarn", rope_yarn)
      ∷ (codes "longrope", rope_long)
      ∷ [])

pub parse_rope_scaling_mode : Bytes → Option RopeScalingMode
unfolding lower
parse_rope_scaling_mode value = find_name (lower value) rope_scaling_mode_table

pub parse_context_mode : Bytes → Option ContextMode
unfolding lower
parse_context_mode value = find_name (lower value) (
    (codes "off", ctx_off)
    ∷ (codes "false", ctx_off)
    ∷ (codes "on", ctx_on)
    ∷ (codes "true", ctx_on)
    ∷ (codes "auto", ctx_auto)
    ∷ [])

same_bytes-eq : (xs ys : Bytes) → same_bytes xs ys ≡ true → xs ≡ ys
same_bytes-eq [] [] h = refl
same_bytes-eq [] (y ∷ ys) h = cc
same_bytes-eq (x ∷ xs) [] h = cc
same_bytes-eq (x ∷ xs) (y ∷ ys) h = ground (arith, same_bytes-eq xs ys)

-- What a table of names gives, where each row carries the name of its value.
abbrev Rows : {A : Type 0} → (A → Bytes) → List (Bytes × A) → Type 0
Rows name [] = Unit {0}
Rows name ((n, a) ∷ rest) = (n ≡ name a) × Rows name rest

find_name_sound :
    {A : Type 0} (name : A → Bytes) (v : Bytes) (t : A) (table : List (Bytes × A))
    → Rows name table
    → find_name v table ≡ some t
    → v ≡ name t
find_name_sound name v t [] r h = absurd (ground arith)
find_name_sound {A} name v t ((n, a) ∷ rest) r h =
    pick (same_bytes v n) refl h (find_name_sound name v t rest r.1)
  where
    pick :
        (b : Bool)
        → same_bytes v n ≡ b
        → (if b then some a else find_name v rest) ≡ some t
        → (find_name v rest ≡ some t → v ≡ name t)
        → v ≡ name t
    pick true e k later = same_bytes-eq v n e ∙ r.0 ∙ ap name (some-injective a t k)
    pick false e k later = later k

kv_cache_type_name-parses :
    (v : Bytes) (t : KvCacheType) → lower v ≡ kv_cache_type_name t → parse_kv_cache_type v ≡ some t
unfolding parse_kv_cache_type kv_cache_type_name
kv_cache_type_name-parses v f32 h = rw h
kv_cache_type_name-parses v f16 h = rw h
kv_cache_type_name-parses v bf16 h = rw h
kv_cache_type_name-parses v q8_0 h = rw h
kv_cache_type_name-parses v q5_0 h = rw h
kv_cache_type_name-parses v q5_1 h = rw h
kv_cache_type_name-parses v q4_0 h = rw h
kv_cache_type_name-parses v q4_1 h = rw h
kv_cache_type_name-parses v iq4_nl h = rw h

-- A text parses as a KV-cache type exactly when it is the type's name, without regard to case.
pub parse_kv_cache_type_iff :
    (v : Bytes) (t : KvCacheType)
    → (parse_kv_cache_type v ≡ some t) ↔ (lower v ≡ kv_cache_type_name t)
unfolding parse_kv_cache_type kv_cache_type_name
parse_kv_cache_type_iff v t = (
  find_name_sound kv_cache_type_name (lower v) t kv_cache_type_table
      (refl, (refl, (refl, (refl, (refl, (refl, (refl, (refl, (refl, tt))))))))),
  kv_cache_type_name-parses v t,
)

flash_attention_mode_name-parses :
    (v : Bytes) (t : FlashAttentionMode)
    → lower v ≡ flash_attention_mode_name t
    → parse_flash_attention_mode v ≡ some t
unfolding parse_flash_attention_mode flash_attention_mode_name
flash_attention_mode_name-parses v fa_auto h = rw h
flash_attention_mode_name-parses v fa_enabled h = rw h
flash_attention_mode_name-parses v fa_disabled h = rw h

-- A text parses as a flash-attention mode exactly when it is the mode's name, without regard to
-- case.
pub parse_flash_attention_mode_iff :
    (v : Bytes) (t : FlashAttentionMode)
    → (parse_flash_attention_mode v ≡ some t) ↔ (lower v ≡ flash_attention_mode_name t)
unfolding parse_flash_attention_mode flash_attention_mode_name
parse_flash_attention_mode_iff v t = (
  find_name_sound flash_attention_mode_name (lower v) t flash_attention_mode_table
      (refl, (refl, (refl, tt))),
  flash_attention_mode_name-parses v t,
)

rope_scaling_mode_name-parses :
    (v : Bytes) (t : RopeScalingMode)
    → lower v ≡ rope_scaling_mode_name t
    → parse_rope_scaling_mode v ≡ some t
unfolding parse_rope_scaling_mode rope_scaling_mode_name
rope_scaling_mode_name-parses v rope_auto h = rw h
rope_scaling_mode_name-parses v rope_none h = rw h
rope_scaling_mode_name-parses v rope_linear h = rw h
rope_scaling_mode_name-parses v rope_yarn h = rw h
rope_scaling_mode_name-parses v rope_long h = rw h

-- A text parses as a RoPE scaling mode exactly when it is the mode's name, without regard to case.
pub parse_rope_scaling_mode_iff :
    (v : Bytes) (t : RopeScalingMode)
    → (parse_rope_scaling_mode v ≡ some t) ↔ (lower v ≡ rope_scaling_mode_name t)
unfolding parse_rope_scaling_mode rope_scaling_mode_name
parse_rope_scaling_mode_iff v t = (
  find_name_sound rope_scaling_mode_name (lower v) t rope_scaling_mode_table
      (refl, (refl, (refl, (refl, (refl, tt))))),
  rope_scaling_mode_name-parses v t,
)
