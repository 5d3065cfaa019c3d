-- ===== src/Config/Checks.antt =====
-- The checks of `validate`, in the order of the source. Each is the condition under which it fails,
-- beside the reason; `Refusal` has one constructor for each message.
use meitte.Base.{
  ℕ, Bool, true, false, ◌&&◌, ◌||◌, not, List, [], ◌∷◌, if◌then◌else◌, ◌==◌, ltb, length, ℤ, pos,
  negsuc, leb_ℤ, ltb_ℤ, add_ℤ, min_ℤ, eq_ℤ,
}
use meitte.Config.Names.{lower, same_bytes, codes}
use meitte.Config.Types.{
  FloatOps, DenseWeightsMode, KvCacheType, FlashAttentionMode, DraftSource, ContextMode,
  TensorBufferOverride, MoeStreamConfig, RunConfig,
}

pub data Refusal : Type 0 where
  model_path n_predict n_threads n_ctx context_bounds context_growth rope_freq_base rope_freq_scale
        yarn_ext_factor yarn_attn_factor yarn_beta_fast yarn_beta_slow yarn_orig_ctx n_batch
        n_ubatch n_expert_used media_needs_mmproj projector_offload batch_max_tokens video_limits
        image_tokens image_token_order reasoning_effort_off reasoning_effort_size reasoning_budget
        override_parts override_streaming quantized_v top_k top_p spec_greedy draft_max draft_p_min
        ngram_p_min ngram_max_match ngram_min_match verify_batch overlap predict_log
        predict_prefetch route_ahead row_stream dense_weights row_stream_mb io_threads cache_mb
        cache_band prefetch_layers cache_both cache_floor cache_ceil prefetch_cache predict_cache
        two_wave_overlap two_wave_cache predict_spec_max two_predictors route_ahead_range
        route_ahead_alone route_ahead_spec drop_cache drop_range substitute_cache substitute_range :
      Refusal

abbrev pub is_empty {ℓ} : {A : Type ℓ} → List A → Bool
is_empty [] = true
is_empty (x ∷ xs) = false

abbrev pub draft_enabled : DraftSource → Bool
draft_enabled DraftSource.no_draft = false
draft_enabled _ = true

abbrev pub is_mtp : DraftSource → Bool
is_mtp DraftSource.mtp = true
is_mtp _ = false

abbrev pub is_ngram : DraftSource → Bool
is_ngram DraftSource.ngram = true
is_ngram _ = false

abbrev pub is_off : ContextMode → Bool
is_off ContextMode.ctx_off = true
is_off _ = false

abbrev pub unquantized : KvCacheType → Bool
unquantized KvCacheType.f32 = true
unquantized KvCacheType.f16 = true
unquantized KvCacheType.bf16 = true
unquantized _ = false

abbrev pub is_disabled : FlashAttentionMode → Bool
is_disabled FlashAttentionMode.fa_disabled = true
is_disabled _ = false

abbrev pub is_anonymous : DenseWeightsMode → Bool
is_anonymous DenseWeightsMode.anonymous = true
is_anonymous _ = false

abbrev pub positive : ℤ → Bool
positive n = ltb_ℤ (pos 0) n

abbrev pub negative : ℤ → Bool
negative n = ltb_ℤ n (pos 0)

-- A use of an `int` as a condition.
abbrev pub nonzero : ℤ → Bool
nonzero n = not (eq_ℤ n (pos 0))

-- Outside `[lo, hi]`.
abbrev pub outside : ℤ → ℤ → ℤ → Bool
outside lo hi n = ltb_ℤ n lo || ltb_ℤ hi n

abbrev pub incomplete : List TensorBufferOverride → Bool
incomplete [] = false
incomplete (o ∷ os) = (is_empty o.pattern_text || is_empty o.buffer_type) || incomplete os

abbrev pub io_threads_max : ℕ
io_threads_max = 8

abbrev pub prefetch_layers_max : ℕ
prefetch_layers_max = 8

abbrev pub route_ahead_max : ℕ
route_ahead_max = 8

abbrev pub cache_min_mb : ℕ
cache_min_mb = 1500

abbrev pub draft_max_limit : ℕ
draft_max_limit = 8

abbrev pub ngram_match_limit : ℕ
ngram_match_limit = 64

abbrev pub Check : Type 0
Check = Bool × Refusal

module _ (fl : FloatOps) where
  open fl use {Float, is_finite, lt, le, eq, zero, one, minus_one}

  abbrev pub invalid_frequency : Float → Bool
  invalid_frequency x = not (is_finite x) || lt x zero

  abbrev pub invalid_yarn : Float → Bool
  invalid_yarn x = not (is_finite x && (eq x minus_one || le zero x))

  unfoldable pub base_checks : RunConfig fl → List Check
  base_checks cfg =
      (is_empty cfg.model_path, Refusal.model_path)
      ∷ (leb_ℤ cfg.n_predict (pos 0), Refusal.n_predict)
      ∷ (leb_ℤ cfg.n_threads (pos 0), Refusal.n_threads)
      ∷ (leb_ℤ cfg.n_ctx (pos 0), Refusal.n_ctx)
      ∷ (
        negative cfg.context.min_ctx
            || negative cfg.context.max_ctx
            || (nonzero cfg.context.min_ctx && ltb_ℤ cfg.n_ctx cfg.context.min_ctx)
            || (nonzero cfg.context.max_ctx && ltb_ℤ cfg.context.max_ctx cfg.n_ctx),
        Refusal.context_bounds,
      )
      ∷ (not (is_off cfg.context.grow) && not (nonzero cfg.context.max_ctx), Refusal.context_growth)
      ∷ (invalid_frequency cfg.rope.freq_base, Refusal.rope_freq_base)
      ∷ (invalid_frequency cfg.rope.freq_scale, Refusal.rope_freq_scale)
      ∷ (invalid_yarn cfg.rope.yarn_ext_factor, Refusal.yarn_ext_factor)
      ∷ (invalid_yarn cfg.rope.yarn_attn_factor, Refusal.yarn_attn_factor)
      ∷ (invalid_yarn cfg.rope.yarn_beta_fast, Refusal.yarn_beta_fast)
      ∷ (invalid_yarn cfg.rope.yarn_beta_slow, Refusal.yarn_beta_slow)
      ∷ (negative cfg.rope.yarn_orig_ctx, Refusal.yarn_orig_ctx)
      ∷ (leb_ℤ cfg.n_batch (pos 0), Refusal.n_batch)
      ∷ (negative cfg.n_ubatch, Refusal.n_ubatch)
      ∷ (negative cfg.n_expert_used, Refusal.n_expert_used)
      ∷ []

  unfoldable pub media_checks : RunConfig fl → List Check
  unfolding lower
  media_checks cfg =
      let mm = cfg.multimodal in
      (not (is_empty cfg.media_paths) && is_empty mm.mmproj_path, Refusal.media_needs_mmproj)
      ∷ (mm.offload, Refusal.projector_offload)
      ∷ (leb_ℤ mm.batch_max_tokens (pos 0), Refusal.batch_max_tokens)
      ∷ (
        not (is_finite mm.video_fps)
            || le mm.video_fps zero
            || leb_ℤ mm.video_max_frames (pos 0)
            || (mm.media_max_bytes == 0),
        Refusal.video_limits,
      )
      ∷ (
        ltb_ℤ mm.image_min_tokens (negsuc 0) || ltb_ℤ mm.image_max_tokens (negsuc 0),
        Refusal.image_tokens,
      )
      ∷ (
        leb_ℤ (pos 0) mm.image_min_tokens
            && leb_ℤ (pos 0) mm.image_max_tokens
            && ltb_ℤ mm.image_max_tokens mm.image_min_tokens,
        Refusal.image_token_order,
      )
      ∷ (
        not cfg.think
            && not (is_empty cfg.reasoning_effort)
            && not (same_bytes (lower cfg.reasoning_effort) (codes "none")),
        Refusal.reasoning_effort_off,
      )
      ∷ (ltb 64 (length cfg.reasoning_effort), Refusal.reasoning_effort_size)
      ∷ (ltb_ℤ cfg.reasoning_budget_tokens (negsuc 0), Refusal.reasoning_budget)
      ∷ (incomplete cfg.tensor_buffer_overrides, Refusal.override_parts)
      ∷ (cfg.moe.enabled && not (is_empty cfg.tensor_buffer_overrides), Refusal.override_streaming)
      ∷ (not (unquantized cfg.cache_type_v) && is_disabled cfg.flash_attention, Refusal.quantized_v)
      ∷ []

  unfoldable pub effective_batch : RunConfig fl → ℤ
  effective_batch cfg = min_ℤ cfg.n_batch cfg.n_ctx

  unfoldable pub effective_ubatch : RunConfig fl → ℤ
  unfolding effective_batch
  effective_ubatch cfg =
      if positive cfg.n_ubatch
      then min_ℤ cfg.n_ubatch (effective_batch cfg)
      else effective_batch cfg

  unfoldable pub sampling_checks : RunConfig fl → List Check
  sampling_checks cfg =
      if lt zero cfg.sampling.temp
      then (negative cfg.sampling.top_k, Refusal.top_k)
        ∷ (le cfg.sampling.top_p zero || lt one cfg.sampling.top_p, Refusal.top_p)
        ∷ []
      else []

  unfoldable pub spec_checks : RunConfig fl → List Check
  spec_checks cfg =
      let sp = cfg.spec in
      (draft_enabled sp.source && lt zero cfg.sampling.temp, Refusal.spec_greedy)
      ∷ (
        draft_enabled sp.source && outside (pos 1) (pos draft_max_limit) sp.draft_max,
        Refusal.draft_max,
      )
      ∷ (is_mtp sp.source && (lt sp.draft_p_min zero || lt one sp.draft_p_min), Refusal.draft_p_min)
      ∷ (is_ngram sp.source && not (eq sp.draft_p_min zero), Refusal.ngram_p_min)
      ∷ (
        is_ngram sp.source && outside (pos 1) (pos ngram_match_limit) sp.ngram_max_match,
        Refusal.ngram_max_match,
      )
      ∷ (
        is_ngram sp.source && outside (pos 1) sp.ngram_max_match sp.ngram_min_match,
        Refusal.ngram_min_match,
      )
      ∷ (
        draft_enabled sp.source && ltb_ℤ (effective_ubatch cfg) (add_ℤ sp.draft_max (pos 1)),
        Refusal.verify_batch,
      )
      ∷ []

  unfoldable pub off_path_checks : RunConfig fl → List Check
  off_path_checks cfg =
      let m = cfg.moe in
      (m.overlap && not m.enabled, Refusal.overlap)
      ∷ (m.predict_log && not m.enabled, Refusal.predict_log)
      ∷ (m.predict_prefetch && not m.enabled, Refusal.predict_prefetch)
      ∷ (positive m.route_ahead && not m.enabled, Refusal.route_ahead)
      ∷ (m.row_stream && not m.enabled, Refusal.row_stream)
      ∷ (
        (m.dense_weights_set || not (is_anonymous m.dense_weights)) && not m.enabled,
        Refusal.dense_weights,
      )
      ∷ (negative m.row_stream_mb, Refusal.row_stream_mb)
      ∷ []

  -- "The LRU cache is on": a fixed budget or auto-sizing.
  unfoldable pub cache_on : MoeStreamConfig fl → Bool
  cache_on m = positive m.cache_mb || m.cache_auto

  unfoldable pub moe_cache_checks : MoeStreamConfig fl → List Check
  moe_cache_checks m =
      (outside (pos 1) (pos io_threads_max) m.io_threads, Refusal.io_threads)
      ∷ (negative m.cache_mb, Refusal.cache_mb)
      ∷ (
        positive m.cache_mb && ltb_ℤ m.cache_mb (pos cache_min_mb) && not m.force_cache,
        Refusal.cache_band,
      )
      ∷ (outside (pos 0) (pos prefetch_layers_max) m.prefetch_layers, Refusal.prefetch_layers)
      ∷ (m.cache_auto && positive m.cache_mb, Refusal.cache_both)
      ∷ (negative m.cache_floor_mb, Refusal.cache_floor)
      ∷ (negative m.cache_ceil_mb, Refusal.cache_ceil)
      ∷ (positive m.prefetch_layers && not (cache_on m), Refusal.prefetch_cache)
      ∷ (m.predict_prefetch && not (cache_on m), Refusal.predict_cache)
      ∷ (m.io_two_wave && not m.overlap, Refusal.two_wave_overlap)
      ∷ (m.io_two_wave && not (cache_on m), Refusal.two_wave_cache)
      ∷ (outside (pos 0) (pos 8) m.predict_spec_max, Refusal.predict_spec_max)
      ∷ []

  unfoldable pub moe_policy_checks : RunConfig fl → List Check
  moe_policy_checks cfg =
      let m = cfg.moe in
      (m.predict_prefetch && positive m.prefetch_layers, Refusal.two_predictors)
      ∷ (outside (pos 0) (pos route_ahead_max) m.route_ahead, Refusal.route_ahead_range)
      ∷ (
        positive m.route_ahead
            && (m.predict_log || m.predict_prefetch || positive m.prefetch_layers),
        Refusal.route_ahead_alone,
      )
      ∷ (positive m.route_ahead && draft_enabled cfg.spec.source, Refusal.route_ahead_spec)
      ∷ (lt zero m.drop_cold_frac && not (cache_on m), Refusal.drop_cache)
      ∷ (not (le zero m.drop_cold_frac && le m.drop_cold_frac one), Refusal.drop_range)
      ∷ (lt zero m.substitute_lambda && not (cache_on m), Refusal.substitute_cache)
      ∷ (not (le zero m.substitute_lambda && le m.substitute_lambda one), Refusal.substitute_range)
      ∷ []
