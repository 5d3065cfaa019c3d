-- ===== src/Prefetch/Count.antt =====
-- Counting the reads that are left: queued, in flight, or lost.
use meitte.Base.{
  ℕ, zero, suc, ◌+◌, ◌≤◌, ◌≡◌, refl, Bool, true, false, ◌&&◌, List, [], ◌∷◌, ◌++◌, some,
  if◌then◌else◌, ◌==◌, arith, drop, take, get_elem?, length, is,
}
use meitte.Cache.{IoJob}
use meitte.Prefetch.Defs.{Spec, queue}
use meitte.Prefetch.Lanes.{remove_at}
use meitte.Prefetch.Settle.{jobs_of_layer}

abbrev pub one_if : Bool → ℕ
one_if b = if b then 1 else 0

abbrev pub tally {ℓ} : {A : Type ℓ} → (A → Bool) → List A → ℕ
tally t [] = 0
tally t (x ∷ xs) = one_if (t x) + tally t xs

-- The reads for an entry, and those of one slice of it.
abbrev pub of_entry : ℕ → IoJob → Bool
of_entry id j = is j.flag id

abbrev pub of_slice : ℕ → ℕ → IoJob → Bool
of_slice id p j = is j.flag id && j.proj == p

-- The jobs that are queued or in flight and pass the test.
abbrev pub pending : (IoJob → Bool) → Spec → ℕ
pending t v = tally t (queue v.cache) + tally (λ f. t f.job) v.flight

module _ {ℓ} {A : Type ℓ} (t : A → Bool) where
  pub tally-append : (xs ys : List A) → tally t (xs ++ ys) ≡ tally t xs + tally t ys
  tally-append [] ys = omega arith
  tally-append (x ∷ xs) ys = omega (arith, tally-append xs ys)

  pub tally-remove_at :
      (n : ℕ) (xs : List A) (x : A)
      → get_elem? xs n ≡ some x
      → tally t xs ≡ one_if (t x) + tally t (remove_at n xs)
  tally-remove_at zero [] x at = absurd (ground arith)
  tally-remove_at (suc n) [] x at = absurd (ground arith)
  tally-remove_at zero (y ∷ ys) x at = ground arith
  tally-remove_at (suc n) (y ∷ ys) x at = omega (arith, tally-remove_at n ys x at)

  pub tally-drop_next :
      (n : ℕ) (xs : List A) (x : A)
      → get_elem? xs n ≡ some x
      → tally t (drop n xs) ≡ one_if (t x) + tally t (drop (suc n) xs)
  tally-drop_next zero [] x at = absurd (ground arith)
  tally-drop_next (suc n) [] x at = absurd (ground arith)
  tally-drop_next zero (y ∷ ys) x at = ground arith
  tally-drop_next (suc n) (y ∷ ys) x at = tally-drop_next n ys x at

pub drop-append {ℓ} :
    {A : Type ℓ} (n : ℕ) (xs ys : List A) → n ≤ length xs → drop n (xs ++ ys) ≡ drop n xs ++ ys
drop-append zero xs ys h = refl
drop-append (suc n) [] ys h = absurd (omega arith)
drop-append (suc n) (x ∷ xs) ys h = drop-append n xs ys (omega arith)

pub drop-take-append {ℓ} :
    {A : Type ℓ} (n : ℕ) (xs ys : List A) → n ≤ length xs → drop n (take n xs ++ ys) ≡ ys
drop-take-append zero xs ys h = refl
drop-take-append (suc n) [] ys h = absurd (omega arith)
drop-take-append (suc n) (x ∷ xs) ys h = drop-take-append n xs ys (omega arith)

pub length-take {ℓ} : {A : Type ℓ} (n : ℕ) (xs : List A) → n ≤ length xs → length (take n xs) ≡ n
length-take zero xs h = refl
length-take (suc n) [] h = absurd (omega arith)
length-take (suc n) (x ∷ xs) h = omega (arith, length-take n xs (omega arith))

pub next-le-length {ℓ} :
    {A : Type ℓ} (n : ℕ) (xs : List A) (x : A) → get_elem? xs n ≡ some x → suc n ≤ length xs
next-le-length zero [] x at = absurd (ground arith)
next-le-length (suc n) [] x at = absurd (ground arith)
next-le-length zero (y ∷ ys) x at = omega arith
next-le-length (suc n) (y ∷ ys) x at = omega (arith, next-le-length n ys x at)

-- A partition by the layer keeps the jobs.
pub tally-jobs_of_layer :
    (t : IoJob → Bool) (il : ℕ) (js : List IoJob)
    → tally t (jobs_of_layer true il js) + tally t (jobs_of_layer false il js) ≡ tally t js
tally-jobs_of_layer t il [] = refl
tally-jobs_of_layer t il (j ∷ js) = ground (arith, tally-jobs_of_layer t il js)

-- What a stronger test passes is no more.
pub tally_mono {ℓ} :
    {A : Type ℓ} (t u : A → Bool) (xs : List A)
    → ((x : A) → one_if (t x) ≤ one_if (u x))
    → tally t xs ≤ tally u xs
tally_mono t u [] h = omega arith
tally_mono t u (x ∷ xs) h = omega (arith, h x, tally_mono t u xs h)

pub of_slice-le-of_entry :
    (id p : ℕ) (j : IoJob) → one_if (of_slice id p j) ≤ one_if (of_entry id j)
of_slice-le-of_entry id p j = ground arith
