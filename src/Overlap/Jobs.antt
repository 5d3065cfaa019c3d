-- ===== src/Overlap/Jobs.antt =====
-- The jobs of a batch: which readiness flags they publish.
use meitte.Base.{
  ℕ, suc, ◌<◌, ◌≡◌, refl, inl, inr, ◌⊎◌, Bool, true, false, List, [], ◌∷◌, ◌++◌, Option, none, some,
  arith, elem, Bool-cases, ◌==◌, is, get_elem?, length, if◌then◌else◌,
}
use meitte.Cache.{Shape, IoJob}
use meitte.Overlap.Defs.{flag_of}
use meitte.Overlap.Start.{emit_slices, emit_proj, emit_projs, async_job}

-- One of the jobs publishes the flag.
abbrev pub FlagIn : ℕ → List IoJob → Type 0
FlagIn f [] = ⊥
FlagIn f (j ∷ js) = (j.flag ≡ some f) ⊎ FlagIn f js

pub FlagIn-left : (f : ℕ) (js ks : List IoJob) → FlagIn f js → FlagIn f (js ++ ks)
FlagIn-left f [] ks h = absurd h
FlagIn-left f (j ∷ js) ks (inl h) = inl h
FlagIn-left f (j ∷ js) ks (inr h) = inr (FlagIn-left f js ks h)

pub FlagIn-right : (f : ℕ) (js ks : List IoJob) → FlagIn f ks → FlagIn f (js ++ ks)
FlagIn-right f [] ks h = h
FlagIn-right f (j ∷ js) ks h = inr (FlagIn-right f js ks h)

-- The job's place in the list.
pub FlagIn-get_elem? :
    (f : ℕ) (js : List IoJob)
    → FlagIn f js
    → (i : ℕ) × (j : IoJob) × (i < length js) × (get_elem? js i ≡ some j) × (j.flag ≡ some f)
FlagIn-get_elem? f [] h = absurd h
FlagIn-get_elem? f (j ∷ js) (inl h) = (0, j, omega arith, refl, h)
FlagIn-get_elem? f (j ∷ js) (inr h) =
    let (i, k, lt, at, fl) = FlagIn-get_elem? f js h in (suc i, k, omega arith, at, fl)

module _ (s : Shape) (il : ℕ) (picked : ℕ → Bool) where
  emit_slices-FlagIn :
      (base p e : ℕ) (es : List ℕ)
      → picked e ≡ true
      → elem e es ≡ true
      → FlagIn (flag_of s p e) (emit_slices s base il p picked es)
  unfolding emit_slices
  emit_slices-FlagIn base p e [] h m = absurd (ground arith)
  emit_slices-FlagIn base p e (i ∷ es) h m = elim (Bool-cases (i == e)) [
    | inl same ↦ let eq : i ≡ e = ground arith in rw (eq, h) (inl refl)
    | inr other ↦ skip (picked i) _ (emit_slices-FlagIn base p e es h (ground arith))
  ]
    where
      skip :
          (b : Bool) (js : List IoJob)
          → FlagIn (flag_of s p e) js
          → FlagIn (flag_of s p e) (if b then async_job s base il p i ∷ js else js)
      skip true js h = inr h
      skip false js h = h

  pub emit_proj-FlagIn :
      (base : ℕ → ℕ) (p e : ℕ) (es : List ℕ)
      → picked e ≡ true
      → elem e es ≡ true
      → (s.nb2 il p == 0) ≡ false
      → FlagIn (flag_of s p e) (emit_proj s base il picked es p)
  unfolding emit_proj
  emit_proj-FlagIn base p e es h m present = rw present (emit_slices-FlagIn (base p) p e es h m)

  -- Every projection but the one that was sent before.
  pub emit_projs-FlagIn :
      (base : ℕ → ℕ) (e : ℕ) (es : List ℕ) (sent : Option ℕ) (ps : List ℕ) (p : ℕ)
      → picked e ≡ true
      → elem e es ≡ true
      → elem p ps ≡ true
      → (s.nb2 il p == 0) ≡ false
      → (sent ≡ some p) ⊎ FlagIn (flag_of s p e) (emit_projs s base il picked es sent ps)
  unfolding emit_projs
  emit_projs-FlagIn base e es sent [] p h m k present = absurd (ground arith)
  emit_projs-FlagIn base e es sent (q ∷ ps) p h m k present = elim (Bool-cases (q == p)) [
    | inr other ↦
        later (is sent q) _ (emit_projs-FlagIn base e es sent ps p h m (ground arith) present)
    | inl same ↦ let eq : q ≡ p = ground arith in rw eq (now sent _)
  ]
    where
      later :
          (b : Bool) (js : List IoJob)
          → (sent ≡ some p) ⊎ FlagIn (flag_of s p e) js
          → (sent ≡ some p)
            ⊎ FlagIn (flag_of s p e) (if b then js else emit_proj s base il picked es q ++ js)
      later b js (inl x) = inl x
      later true js (inr x) = inr x
      later false js (inr x) = inr (FlagIn-right _ (emit_proj s base il picked es q) js x)

      now :
          (o : Option ℕ) (js : List IoJob)
          → (o ≡ some p)
            ⊎ FlagIn (flag_of s p e) (if is o p then js else emit_proj s base il picked es p ++ js)
      now none js = inr (FlagIn-left _ _ js (emit_proj-FlagIn base p e es h m present))
      now (some r) js = elim (Bool-cases (r == p)) [
        | inl same ↦ inl (ground arith)
        | inr other ↦ inr (rw other (FlagIn-left _ _ js (emit_proj-FlagIn base p e es h m present)))
      ]
