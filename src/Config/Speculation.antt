-- ===== src/Config/Speculation.antt =====
-- What a valid configuration guarantees of self-speculative decoding.
use meitte.Base.{
  ℕ, zero, suc, min_ℤ, if◌then◌else◌, ◌≡◌, ◌≢◌, ◌⊎◌, inl, inr, true, false, refl, none, arith, ℤ,
  pos, negsuc, ◌≤ℤ◌, ltb_ℤ, add_ℤ,
}
use meitte.Config.Types.{FloatOps, RunConfig, DraftSource, no_draft, mtp, ngram}
use meitte.Config.Checks.{
  positive, negative, draft_enabled, base_checks, spec_checks, effective_ubatch,
}
use meitte.Config.Validate.{validate, passes, base_pass, spec_pass}

min_ℤ-below : (a b : ℤ) → (min_ℤ a b ≤ℤ a) × (min_ℤ a b ≤ℤ b)
min_ℤ-below a b = (ground arith, ground arith)

≤ℤ-trans : (a b c : ℤ) → a ≤ℤ b → b ≤ℤ c → a ≤ℤ c
≤ℤ-trans a b c h k = omega arith

ltb_ℤ-false : (a b : ℤ) → ltb_ℤ a b ≡ false → b ≤ℤ a
ltb_ℤ-false a b h = ground arith

-- The decode width that the verify batch is compared with fits the batch, the context and the ubatch.
abbrev Fits : (fl : FloatOps) → RunConfig fl → ℤ → Type 0
Fits fl cfg w =
    (w ≤ℤ cfg.n_batch) × (w ≤ℤ cfg.n_ctx) × ((cfg.n_ubatch ≡ pos 0) ⊎ (w ≤ℤ cfg.n_ubatch))

positive-suc : (n : ℕ) → positive (pos (suc n)) ≡ true
positive-suc n = ground arith

min_ℤ-Fits :
    (u b c : ℤ)
    → negative u ≡ false
    → let w = if positive u then min_ℤ u (min_ℤ b c) else min_ℤ b c in
      (w ≤ℤ b) × (w ≤ℤ c) × ((u ≡ pos 0) ⊎ (w ≤ℤ u))
min_ℤ-Fits (pos zero) b c h = (ground arith, ground arith, inl refl)
min_ℤ-Fits (pos (suc n)) b c h =
    let m = min_ℤ b c in
    let below = min_ℤ-below (pos (suc n)) m in
    rw (positive-suc n) (
      ≤ℤ-trans (min_ℤ (pos (suc n)) m) m b below.1 (min_ℤ-below b c).0,
      ≤ℤ-trans (min_ℤ (pos (suc n)) m) m c below.1 (min_ℤ-below b c).1,
      inr below.0,
    )
min_ℤ-Fits (negsuc n) b c h = absurd (ground arith)

effective_ubatch-Fits :
    (fl : FloatOps) (cfg : RunConfig fl)
    → negative cfg.n_ubatch ≡ false
    → Fits fl cfg (effective_ubatch fl cfg)
unfolding effective_ubatch
effective_ubatch-Fits fl cfg h = min_ℤ-Fits cfg.n_ubatch cfg.n_batch cfg.n_ctx h

Fits-below : (fl : FloatOps) (cfg : RunConfig fl) (v w : ℤ) → v ≤ℤ w → Fits fl cfg w → Fits fl cfg v
Fits-below fl cfg v w h (b, c, inl z) = (≤ℤ-trans v w _ h b, ≤ℤ-trans v w _ h c, inl z)
Fits-below fl cfg v w h (b, c, inr u) =
    (≤ℤ-trans v w _ h b, ≤ℤ-trans v w _ h c, inr (≤ℤ-trans v w _ h u))

module _ (fl : FloatOps) (cfg : RunConfig fl) (valid : validate fl cfg ≡ none) where
  open fl use {lt, zero}

  -- In a valid configuration with a draft source decoding is greedy (the temperature is not above
  -- 0), a draft has one to eight tokens, and the verify batch of one more position fits the logical
  -- batch, the context and, where one is set, the ubatch.
  pub validate_verify_batch :
      draft_enabled cfg.spec.source ≡ true
      → (lt zero cfg.sampling.temp ≡ false)
        × (pos 1 ≤ℤ cfg.spec.draft_max)
        × (cfg.spec.draft_max ≤ℤ pos 8)
        × (add_ℤ cfg.spec.draft_max (pos 1) ≤ℤ cfg.n_batch)
        × (add_ℤ cfg.spec.draft_max (pos 1) ≤ℤ cfg.n_ctx)
        × ((cfg.n_ubatch ≡ pos 0) ⊎ (add_ℤ cfg.spec.draft_max (pos 1) ≤ℤ cfg.n_ubatch))
  unfolding spec_checks base_checks
  validate_verify_batch drafts =
      let p = spec_pass fl cfg valid in
      let fits =
        effective_ubatch-Fits fl cfg (passes (base_checks fl cfg) 14 (base_pass fl cfg valid)) in
      let wide : ltb_ℤ (effective_ubatch fl cfg) (add_ℤ cfg.spec.draft_max (pos 1)) ≡ false =
        ground (arith, passes (spec_checks fl cfg) 6 p) in
      let (b, c, u) =
        Fits-below fl cfg (add_ℤ cfg.spec.draft_max (pos 1)) (effective_ubatch fl cfg)
          (ltb_ℤ-false (effective_ubatch fl cfg) (add_ℤ cfg.spec.draft_max (pos 1)) wide) fits in
      (
        ground (arith, passes (spec_checks fl cfg) 0 p),
        ground (arith, passes (spec_checks fl cfg) 1 p),
        ground (arith, passes (spec_checks fl cfg) 1 p),
        b,
        c,
        u,
      )

  -- In a valid configuration with the n-gram source the match lengths satisfy 1 ≤ min ≤ max ≤ 64.
  pub validate_ngram :
      cfg.spec.source ≡ ngram
      → (pos 1 ≤ℤ cfg.spec.ngram_min_match)
        × (cfg.spec.ngram_min_match ≤ℤ cfg.spec.ngram_max_match)
        × (cfg.spec.ngram_max_match ≤ℤ pos 64)
  unfolding spec_checks
  validate_ngram source =
      let p = spec_pass fl cfg valid in
      ground (arith, passes (spec_checks fl cfg) 4 p, passes (spec_checks fl cfg) 5 p)

  -- In a valid configuration with a draft source decoding is greedy (the temperature is not above
  -- 0), a draft has one to eight tokens, the verify batch of one more position fits the logical
  -- batch, the context and, where one is set, the ubatch, and with the n-gram source the match
  -- lengths satisfy 1 ≤ min ≤ max ≤ 64.
  pub validate_drafts :
      draft_enabled cfg.spec.source ≡ true
      → (lt zero cfg.sampling.temp ≡ false)
        × (pos 1 ≤ℤ cfg.spec.draft_max)
        × (cfg.spec.draft_max ≤ℤ pos 8)
        × (add_ℤ cfg.spec.draft_max (pos 1) ≤ℤ cfg.n_batch)
        × (add_ℤ cfg.spec.draft_max (pos 1) ≤ℤ cfg.n_ctx)
        × ((cfg.n_ubatch ≡ pos 0) ⊎ (add_ℤ cfg.spec.draft_max (pos 1) ≤ℤ cfg.n_ubatch))
        × ((cfg.spec.source ≢ ngram)
            ⊎ ((pos 1 ≤ℤ cfg.spec.ngram_min_match)
                × (cfg.spec.ngram_min_match ≤ℤ cfg.spec.ngram_max_match)
                × (cfg.spec.ngram_max_match ≤ℤ pos 64)))
  validate_drafts drafts =
      let b = validate_verify_batch drafts in
      (b.0, b.1, b.2, b.3, b.4, b.5, by_source cfg.spec.source refl)
    where
      by_source :
          (d : DraftSource)
          → cfg.spec.source ≡ d
          → (cfg.spec.source ≢ ngram)
            ⊎ ((pos 1 ≤ℤ cfg.spec.ngram_min_match)
                × (cfg.spec.ngram_min_match ≤ℤ cfg.spec.ngram_max_match)
                × (cfg.spec.ngram_max_match ≤ℤ pos 64))
      by_source ngram h = inr (validate_ngram h)
      by_source no_draft h = inl (λ n. absurd (ground (arith, h, n)))
      by_source mtp h = inl (λ n. absurd (ground (arith, h, n)))
