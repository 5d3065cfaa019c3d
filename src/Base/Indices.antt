-- ===== src/Base/Indices.antt =====
-- What holds of the indices that a list of signed numbers names.
use Prim.Native.Nat.{ℕ}
use mathlib.Core.List.{List, [], ◌∷◌}
use mathlib.Core.Option.{Option, none, some}
use meitte.Base.Int.{ℤ, index_below}

abbrev pub AtSome : (ℕ → Type 0) → Option ℕ → Type 0
AtSome P none = Unit {0}
AtSome P (some e) = P e

-- `P` holds of every index below `n` that the numbers name; those out of range name none.
abbrev pub Routed : ℕ → (ℕ → Type 0) → List ℤ → Type 0
Routed n P [] = Unit {0}
Routed n P (z ∷ zs) = AtSome P (index_below n z) × Routed n P zs

pub AtSome-mono :
    (P Q : ℕ → Type 0) (o : Option ℕ) → ((e : ℕ) → P e → Q e) → AtSome P o → AtSome Q o
AtSome-mono P Q none h r = tt
AtSome-mono P Q (some e) h r = h e r

pub Routed-mono :
    (n : ℕ) (P Q : ℕ → Type 0) (zs : List ℤ) → ((e : ℕ) → P e → Q e) → Routed n P zs → Routed n Q zs
Routed-mono n P Q [] h r = tt
Routed-mono n P Q (z ∷ zs) h r =
    (AtSome-mono P Q (index_below n z) h r.0, Routed-mono n P Q zs h r.1)
