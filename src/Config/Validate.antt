-- ===== src/Config/Validate.antt =====
-- `validate`: the first check that fails gives the refusal.
use meitte.Base.{
  ℕ, zero, suc, ◌≡◌, Bool, true, false, List, [], ◌∷◌, ◌++◌, Option, none, some, if◌then◌else◌,
  arith, get_elem?,
}
use meitte.Config.Types.{FloatOps, RunConfig}
use meitte.Config.Checks.{
  Refusal, Check, base_checks, media_checks, sampling_checks, spec_checks, off_path_checks,
  moe_cache_checks, moe_policy_checks,
}

abbrev pub first_refusal : List Check → Option Refusal
first_refusal [] = none
first_refusal ((failed, r) ∷ cs) = if failed then some r else first_refusal cs

-- The checks of the streamer run only when it is enabled.
unfoldable pub moe_checks : (fl : FloatOps) → RunConfig fl → List Check
moe_checks fl cfg =
    if cfg.moe.enabled then moe_cache_checks fl cfg.moe ++ moe_policy_checks fl cfg else []

unfoldable pub all_checks : (fl : FloatOps) → RunConfig fl → List Check
all_checks fl cfg =
    base_checks fl cfg
    ++ (media_checks fl cfg
        ++ (sampling_checks fl cfg
            ++ (spec_checks fl cfg ++ (off_path_checks fl cfg ++ moe_checks fl cfg))))

-- `none` is a result with `ok` set.
unfoldable pub validate : (fl : FloatOps) → RunConfig fl → Option Refusal
validate fl cfg = first_refusal (all_checks fl cfg)

-- Every check of the list passes.
abbrev pub AllPass : List Check → Type 0
AllPass [] = Unit {0}
AllPass (c ∷ cs) = (c.0 ≡ false) × AllPass cs

pub none-AllPass : (cs : List Check) → first_refusal cs ≡ none → AllPass cs
none-AllPass [] h = tt
none-AllPass ((failed, r) ∷ cs) h = ground (arith, none-AllPass cs)

pub AllPass-left : (cs ds : List Check) → AllPass (cs ++ ds) → AllPass cs
AllPass-left [] ds h = tt
AllPass-left (c ∷ cs) ds h = (h.0, AllPass-left cs ds h.1)

pub AllPass-right : (cs ds : List Check) → AllPass (cs ++ ds) → AllPass ds
AllPass-right [] ds h = h
AllPass-right (c ∷ cs) ds h = AllPass-right cs ds h.1

-- What a check found at a place of the list says when the list passes.
abbrev pub Passed : Option Check → Type 0
Passed none = Unit {0}
Passed (some c) = c.0 ≡ false

pub passes : (cs : List Check) (i : ℕ) → AllPass cs → Passed (get_elem? cs i)
passes [] i h = tt
passes (c ∷ cs) zero h = h.0
passes (c ∷ cs) (suc i) h = passes cs i h.1

AllPass-if : (b : Bool) (cs : List Check) → b ≡ true → AllPass (if b then cs else []) → AllPass cs
AllPass-if true cs h p = p
AllPass-if false cs h p = absurd (cc h)

-- A valid configuration passes the checks of each group.
module _ (fl : FloatOps) (cfg : RunConfig fl) (valid : validate fl cfg ≡ none) where
  all_pass : AllPass (all_checks fl cfg)
  unfolding validate
  all_pass = none-AllPass _ valid

  pub base_pass : AllPass (base_checks fl cfg)
  unfolding all_checks
  base_pass = AllPass-left (base_checks fl cfg) _ all_pass

  rest1 : AllPass (
      media_checks fl cfg
      ++ (sampling_checks fl cfg
          ++ (spec_checks fl cfg ++ (off_path_checks fl cfg ++ moe_checks fl cfg))))
  unfolding all_checks
  rest1 = AllPass-right (base_checks fl cfg) _ all_pass

  pub media_pass : AllPass (media_checks fl cfg)
  media_pass = AllPass-left (media_checks fl cfg) _ rest1

  rest3 : AllPass (spec_checks fl cfg ++ (off_path_checks fl cfg ++ moe_checks fl cfg))
  rest3 = AllPass-right (sampling_checks fl cfg) _ (AllPass-right (media_checks fl cfg) _ rest1)

  pub spec_pass : AllPass (spec_checks fl cfg)
  spec_pass = AllPass-left (spec_checks fl cfg) _ rest3

  rest4 : AllPass (off_path_checks fl cfg ++ moe_checks fl cfg)
  rest4 = AllPass-right (spec_checks fl cfg) _ rest3

  pub off_path_pass : AllPass (off_path_checks fl cfg)
  off_path_pass = AllPass-left (off_path_checks fl cfg) _ rest4

  moe_pass :
      cfg.moe.enabled ≡ true → AllPass (moe_cache_checks fl cfg.moe ++ moe_policy_checks fl cfg)
  unfolding moe_checks
  moe_pass on = AllPass-if cfg.moe.enabled _ on (AllPass-right (off_path_checks fl cfg) _ rest4)

  pub moe_cache_pass : cfg.moe.enabled ≡ true → AllPass (moe_cache_checks fl cfg.moe)
  moe_cache_pass on = AllPass-left (moe_cache_checks fl cfg.moe) _ (moe_pass on)

  pub moe_policy_pass : cfg.moe.enabled ≡ true → AllPass (moe_policy_checks fl cfg)
  moe_policy_pass on = AllPass-right (moe_cache_checks fl cfg.moe) _ (moe_pass on)
