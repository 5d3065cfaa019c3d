-- ===== src/Config/Examples.antt =====
-- Configurations that run, and the theorems at them. Floating-point values are integers here.
use meitte.Base.{
  ◌≡◌, ◌≢◌, ◌⊎◌, refl, true, false, [], none, ℤ, pos, negsuc, ◌≤ℤ◌, leb_ℤ, ltb_ℤ, eq_ℤ, add_ℤ,
}
use meitte.Config.Types.{
  FloatOps, ngram, RunConfig, MoeStreamConfig, DenseWeightsMode, KvCacheType, FlashAttentionMode,
  RopeScalingMode, DraftSource, ContextMode,
}
use meitte.Config.Names.{codes, lower, to_lower}
use meitte.Config.Checks.{
  draft_enabled, base_checks, media_checks, effective_batch, effective_ubatch, sampling_checks,
  spec_checks, off_path_checks, cache_on, moe_cache_checks, moe_policy_checks,
}
use meitte.Config.Validate.{validate, all_checks, moe_checks}
use meitte.Config.Moe.{needs_cache, validate_on_path}
use meitte.Config.Speculation.{validate_drafts}

abbrev integers : FloatOps
integers = record {
  Float = ℤ;
  is_finite = λ x. true;
  lt = ltb_ℤ;
  le = leb_ℤ;
  eq = eq_ℤ;
  zero = pos 0;
  one = pos 1;
  minus_one = negsuc 0;
}

-- The defaults of `MoeStreamConfig`, streaming off.
abbrev streaming_off : MoeStreamConfig integers
streaming_off = record {
  enabled = false;
  cache_mb = pos 0;
  cache_auto = false;
  cache_floor_mb = pos 1536;
  cache_ceil_mb = pos 0;
  io_threads = pos 4;
  o_direct = true;
  load_all = false;
  force_cache = false;
  overlap = false;
  io_two_wave = false;
  prefetch_layers = pos 0;
  dense_weights = DenseWeightsMode.anonymous;
  dense_weights_set = false;
  row_stream = false;
  row_stream_mb = pos 64;
  drop_cold_frac = pos 0;
  substitute_lambda = pos 0;
  predict_log = false;
  predict_prefetch = false;
  predict_spec_max = pos 2;
  route_ahead = pos 0;
}

abbrev streaming_on : MoeStreamConfig integers
streaming_on = record streaming_off { cache_mb = pos 4096; enabled = true; prefetch_layers = pos 2 }

abbrev config_of : MoeStreamConfig integers → DraftSource → RunConfig integers
config_of m source = record {
  model_path = codes "m.gguf";
  multimodal = record {
    mmproj_path = [];
    offload = false;
    image_min_tokens = negsuc 0;
    image_max_tokens = negsuc 0;
    batch_max_tokens = pos 1024;
    video_fps = pos 1;
    video_max_frames = pos 32;
    media_max_bytes = 67108864;
  };
  media_paths = [];
  n_predict = pos 128;
  n_threads = pos 4;
  n_ctx = pos 2048;
  context = record {
    grow = ContextMode.ctx_off;
    summarize = ContextMode.ctx_off;
    trim = ContextMode.ctx_off;
    min_ctx = pos 0;
    max_ctx = pos 0;
  };
  n_batch = pos 2048;
  n_ubatch = pos 512;
  cache_type_k = KvCacheType.f16;
  cache_type_v = KvCacheType.f16;
  flash_attention = FlashAttentionMode.fa_auto;
  rope = record {
    scaling = RopeScalingMode.rope_auto;
    freq_base = pos 0;
    freq_scale = pos 0;
    yarn_ext_factor = negsuc 0;
    yarn_attn_factor = negsuc 0;
    yarn_beta_fast = negsuc 0;
    yarn_beta_slow = negsuc 0;
    yarn_orig_ctx = pos 0;
  };
  think = true;
  reasoning_effort = [];
  reasoning_budget_tokens = negsuc 0;
  tensor_buffer_overrides = [];
  n_expert_used = pos 0;
  sampling = record { temp = pos 0; top_k = pos 40; top_p = pos 1 };
  moe = m;
  spec = record {
    source = source;
    draft_max = pos 3;
    draft_p_min = pos 0;
    ngram_min_match = pos 3;
    ngram_max_match = pos 12;
  };
}

abbrev off : RunConfig integers
off = config_of streaming_off DraftSource.no_draft

abbrev on : RunConfig integers
on = config_of streaming_on DraftSource.ngram

off-valid : validate integers off ≡ none
unfolding validate all_checks base_checks media_checks lower to_lower effective_batch
    effective_ubatch sampling_checks spec_checks off_path_checks moe_checks
off-valid = refl

on-valid : validate integers on ≡ none
unfolding validate all_checks base_checks media_checks lower to_lower effective_batch
    effective_ubatch sampling_checks spec_checks off_path_checks moe_checks cache_on
    moe_cache_checks moe_policy_checks
on-valid = refl

validate_on_path_example :
    (((on.moe.cache_mb ≡ pos 0) × (on.moe.cache_auto ≡ false))
      ⊎ (((on.moe.cache_mb ≡ pos 0) × (on.moe.cache_auto ≡ true))
          ⊎ ((on.moe.cache_auto ≡ false)
              × ((pos 1500 ≤ℤ on.moe.cache_mb) ⊎ (on.moe.force_cache ≡ true)))))
    × ((needs_cache integers on on-valid ≡ false)
        ⊎ ((pos 1 ≤ℤ on.moe.cache_mb) ⊎ (on.moe.cache_auto ≡ true)))
    × (((on.moe.route_ahead ≡ pos 0)
          × ((on.moe.predict_prefetch ≡ false) ⊎ (on.moe.prefetch_layers ≡ pos 0)))
        ⊎ ((pos 1 ≤ℤ on.moe.route_ahead)
            × (on.moe.route_ahead ≤ℤ pos 8)
            × (on.moe.predict_log ≡ false)
            × (on.moe.predict_prefetch ≡ false)
            × (on.moe.prefetch_layers ≡ pos 0)
            × (draft_enabled on.spec.source ≡ false)))
validate_on_path_example = validate_on_path integers on on-valid refl

validate_drafts_example :
    (ltb_ℤ (pos 0) on.sampling.temp ≡ false)
    × (pos 1 ≤ℤ on.spec.draft_max)
    × (on.spec.draft_max ≤ℤ pos 8)
    × (add_ℤ on.spec.draft_max (pos 1) ≤ℤ on.n_batch)
    × (add_ℤ on.spec.draft_max (pos 1) ≤ℤ on.n_ctx)
    × ((on.n_ubatch ≡ pos 0) ⊎ (add_ℤ on.spec.draft_max (pos 1) ≤ℤ on.n_ubatch))
    × ((on.spec.source ≢ ngram)
        ⊎ ((pos 1 ≤ℤ on.spec.ngram_min_match)
            × (on.spec.ngram_min_match ≤ℤ on.spec.ngram_max_match)
            × (on.spec.ngram_max_match ≤ℤ pos 64)))
validate_drafts_example = validate_drafts integers on on-valid refl
