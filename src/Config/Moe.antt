-- ===== src/Config/Moe.antt =====
-- What a valid configuration of the streamer guarantees.
use meitte.Base.{Bool, Bool-cases, inl, inr, ◌≡◌, ◌⊎◌, true, false, ◌||◌, none, arith, pos, ◌≤ℤ◌}
use meitte.Config.Types.{FloatOps, RunConfig, DenseWeightsMode}
use meitte.Config.Checks.{
  positive, draft_enabled, cache_on, off_path_checks, moe_cache_checks, moe_policy_checks,
}
use meitte.Config.Validate.{validate, passes, off_path_pass, moe_cache_pass, moe_policy_pass}

module _ (fl : FloatOps) (cfg : RunConfig fl) (valid : validate fl cfg ≡ none) where
  open fl use {lt, le, zero, one}

  -- In a valid configuration with streaming off nothing that rides on the streamer is on: no
  -- overlap, prediction, route-ahead or row window, and the dense-weights policy is the unset
  -- default.
  pub validate_off_path :
      cfg.moe.enabled ≡ false
      → (cfg.moe.overlap ≡ false)
        × (cfg.moe.predict_log ≡ false)
        × (cfg.moe.predict_prefetch ≡ false)
        × (cfg.moe.route_ahead ≤ℤ pos 0)
        × (cfg.moe.row_stream ≡ false)
        × (cfg.moe.dense_weights_set ≡ false)
        × (cfg.moe.dense_weights ≡ DenseWeightsMode.anonymous)
  unfolding off_path_checks
  validate_off_path off =
      let p = off_path_pass fl cfg valid in
      (
        ground (arith, passes (off_path_checks fl cfg) 0 p),
        ground (arith, passes (off_path_checks fl cfg) 1 p),
        ground (arith, passes (off_path_checks fl cfg) 2 p),
        ground (arith, passes (off_path_checks fl cfg) 3 p),
        ground (arith, passes (off_path_checks fl cfg) 4 p),
        ground (arith, passes (off_path_checks fl cfg) 5 p),
        ground (arith, passes (off_path_checks fl cfg) 5 p),
      )

  -- Something configured works on what the cache keeps.
  abbrev pub needs_cache : Bool
  needs_cache =
      positive cfg.moe.prefetch_layers
      || (cfg.moe.predict_prefetch
          || (cfg.moe.io_two_wave
              || (lt zero cfg.moe.drop_cold_frac || lt zero cfg.moe.substitute_lambda)))

  module _ (on : cfg.moe.enabled ≡ true) where
    -- In a valid configuration with streaming on the cache is off, or sized automatically with no
    -- explicit budget, or has an explicit budget of at least 1500 MiB unless a smaller one is
    -- forced.
    pub validate_cache_source :
        ((cfg.moe.cache_mb ≡ pos 0) × (cfg.moe.cache_auto ≡ false))
        ⊎ (((cfg.moe.cache_mb ≡ pos 0) × (cfg.moe.cache_auto ≡ true))
            ⊎ ((cfg.moe.cache_auto ≡ false)
                × ((pos 1500 ≤ℤ cfg.moe.cache_mb) ⊎ (cfg.moe.force_cache ≡ true))))
    unfolding moe_cache_checks
    validate_cache_source =
        let p = moe_cache_pass fl cfg valid on in
        ground (
          arith,
          passes (moe_cache_checks fl cfg.moe) 1 p,
          passes (moe_cache_checks fl cfg.moe) 2 p,
          passes (moe_cache_checks fl cfg.moe) 4 p,
        )

    -- A valid configuration with streaming on that prefetches (by layers or by prediction),
    -- publishes in two waves, drops cold experts or substitutes them has a cache: a positive budget
    -- or auto-sizing.
    pub validate_needs_cache :
        needs_cache ≡ true → (pos 1 ≤ℤ cfg.moe.cache_mb) ⊎ (cfg.moe.cache_auto ≡ true)
    unfolding moe_cache_checks moe_policy_checks cache_on
    validate_needs_cache use_it =
        let p = moe_cache_pass fl cfg valid on in
        let q = moe_policy_pass fl cfg valid on in
        ground (
          arith,
          passes (moe_cache_checks fl cfg.moe) 7 p,
          passes (moe_cache_checks fl cfg.moe) 8 p,
          passes (moe_cache_checks fl cfg.moe) 10 p,
          passes (moe_policy_checks fl cfg) 4 q,
          passes (moe_policy_checks fl cfg) 6 q,
        )

    -- In a valid configuration with streaming on at most one predictor owns the speculative lanes,
    -- and route-ahead, between 1 and 8 layers, runs with no other predictor and with no draft
    -- source.
    pub validate_one_predictor :
        ((cfg.moe.route_ahead ≡ pos 0)
          × ((cfg.moe.predict_prefetch ≡ false) ⊎ (cfg.moe.prefetch_layers ≡ pos 0)))
        ⊎ ((pos 1 ≤ℤ cfg.moe.route_ahead)
            × (cfg.moe.route_ahead ≤ℤ pos 8)
            × (cfg.moe.predict_log ≡ false)
            × (cfg.moe.predict_prefetch ≡ false)
            × (cfg.moe.prefetch_layers ≡ pos 0)
            × (draft_enabled cfg.spec.source ≡ false))
    unfolding moe_cache_checks moe_policy_checks
    validate_one_predictor =
        let p = moe_cache_pass fl cfg valid on in
        let q = moe_policy_pass fl cfg valid on in
        ground (
          arith,
          passes (moe_cache_checks fl cfg.moe) 3 p,
          passes (moe_policy_checks fl cfg) 0 q,
          passes (moe_policy_checks fl cfg) 1 q,
          passes (moe_policy_checks fl cfg) 2 q,
          passes (moe_policy_checks fl cfg) 3 q,
        )

    -- In a valid configuration with streaming on the cache is off, or sized automatically with no
    -- explicit budget, or has an explicit budget of at least 1500 MiB unless a smaller one is
    -- forced; prefetching (by layers or by prediction), publishing in two waves, dropping and
    -- substituting experts have a positive budget or auto-sizing; and at most one predictor owns
    -- the speculative lanes, where route-ahead, between 1 and 8 layers, runs with no other
    -- predictor and with no draft source.
    pub validate_on_path :
        (((cfg.moe.cache_mb ≡ pos 0) × (cfg.moe.cache_auto ≡ false))
          ⊎ (((cfg.moe.cache_mb ≡ pos 0) × (cfg.moe.cache_auto ≡ true))
              ⊎ ((cfg.moe.cache_auto ≡ false)
                  × ((pos 1500 ≤ℤ cfg.moe.cache_mb) ⊎ (cfg.moe.force_cache ≡ true)))))
        × ((needs_cache ≡ false) ⊎ ((pos 1 ≤ℤ cfg.moe.cache_mb) ⊎ (cfg.moe.cache_auto ≡ true)))
        × (((cfg.moe.route_ahead ≡ pos 0)
              × ((cfg.moe.predict_prefetch ≡ false) ⊎ (cfg.moe.prefetch_layers ≡ pos 0)))
            ⊎ ((pos 1 ≤ℤ cfg.moe.route_ahead)
                × (cfg.moe.route_ahead ≤ℤ pos 8)
                × (cfg.moe.predict_log ≡ false)
                × (cfg.moe.predict_prefetch ≡ false)
                × (cfg.moe.prefetch_layers ≡ pos 0)
                × (draft_enabled cfg.spec.source ≡ false)))
    validate_on_path = (
      validate_cache_source,
      elim (Bool-cases needs_cache) [
        | inl uses ↦ inr (validate_needs_cache uses)
        | inr unused ↦ inl unused
      ],
      validate_one_predictor,
    )
