-- ===== src/Config/Types.antt =====
-- The structures of config.h. Fields that only the front ends read (prompts, paths of helpers, the
-- trace switches) are left out.
use meitte.Base.{ℕ, Bool, List, ℤ}

abbrev pub Bytes : Type 0
Bytes = List ℕ

-- `float` and what the source computes with it.
pub record FloatOps : Type 1 where
  pub Float : Type 0
  pub is_finite : Float → Bool
  pub lt : Float → Float → Bool
  pub le : Float → Float → Bool
  pub eq : Float → Float → Bool
  pub zero : Float
  pub one : Float
  pub minus_one : Float

pub data DenseWeightsMode : Type 0 where
  mmap warmed anonymous pinned : DenseWeightsMode

pub data KvCacheType : Type 0 where
  f32 f16 bf16 q8_0 q5_0 q5_1 q4_0 q4_1 iq4_nl : KvCacheType

pub data FlashAttentionMode : Type 0 where
  fa_auto fa_enabled fa_disabled : FlashAttentionMode

pub data RopeScalingMode : Type 0 where
  rope_auto rope_none rope_linear rope_yarn rope_long : RopeScalingMode

pub data DraftSource : Type 0 where
  no_draft mtp ngram : DraftSource

pub data ContextMode : Type 0 where
  ctx_off ctx_on ctx_auto : ContextMode

pub record ContextPolicy : Type 0 where
  pub grow : ContextMode
  pub summarize : ContextMode
  pub trim : ContextMode
  pub min_ctx : ℤ
  pub max_ctx : ℤ

pub record TensorBufferOverride : Type 0 where
  pub pattern_text : Bytes
  pub buffer_type : Bytes

module _ (fl : FloatOps) where
  open fl use {Float}

  pub record SamplingConfig : Type 0 where
    pub temp : Float
    pub top_k : ℤ
    pub top_p : Float

  pub record RopeConfig : Type 0 where
    pub scaling : RopeScalingMode
    pub freq_base : Float
    pub freq_scale : Float
    pub yarn_ext_factor : Float
    pub yarn_attn_factor : Float
    pub yarn_beta_fast : Float
    pub yarn_beta_slow : Float
    pub yarn_orig_ctx : ℤ

  pub record SpecConfig : Type 0 where
    pub source : DraftSource
    pub draft_max : ℤ
    pub draft_p_min : Float
    pub ngram_min_match : ℤ
    pub ngram_max_match : ℤ

  pub record MultimodalConfig : Type 0 where
    pub mmproj_path : Bytes
    pub offload : Bool
    pub image_min_tokens : ℤ
    pub image_max_tokens : ℤ
    pub batch_max_tokens : ℤ
    pub video_fps : Float
    pub video_max_frames : ℤ
    pub media_max_bytes : ℕ

  pub record MoeStreamConfig : Type 0 where
    pub enabled : Bool
    pub cache_mb : ℤ
    pub cache_auto : Bool
    pub cache_floor_mb : ℤ
    pub cache_ceil_mb : ℤ
    pub io_threads : ℤ
    pub o_direct : Bool
    pub load_all : Bool
    pub force_cache : Bool
    pub overlap : Bool
    pub io_two_wave : Bool
    pub prefetch_layers : ℤ
    pub dense_weights : DenseWeightsMode
    pub dense_weights_set : Bool
    pub row_stream : Bool
    pub row_stream_mb : ℤ
    pub drop_cold_frac : Float
    pub substitute_lambda : Float
    pub predict_log : Bool
    pub predict_prefetch : Bool
    pub predict_spec_max : ℤ
    pub route_ahead : ℤ

  pub record RunConfig : Type 0 where
    pub model_path : Bytes
    pub multimodal : MultimodalConfig
    pub media_paths : List Bytes
    pub n_predict : ℤ
    pub n_threads : ℤ
    pub n_ctx : ℤ
    pub context : ContextPolicy
    pub n_batch : ℤ
    pub n_ubatch : ℤ
    pub cache_type_k : KvCacheType
    pub cache_type_v : KvCacheType
    pub flash_attention : FlashAttentionMode
    pub rope : RopeConfig
    pub think : Bool
    pub reasoning_effort : Bytes
    pub reasoning_budget_tokens : ℤ
    pub tensor_buffer_overrides : List TensorBufferOverride
    pub n_expert_used : ℤ
    pub sampling : SamplingConfig
    pub moe : MoeStreamConfig
    pub spec : SpecConfig
