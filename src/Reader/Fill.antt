-- ===== src/Reader/Fill.antt =====
-- The read loop: on success the range holds the file's bytes, and positive answers are enough.
use meitte.Base.{
  ℕ, zero, suc, ◌+◌, ◌-◌, ◌≤◌, ◌<◌, ◌≡◌, refl, inl, inr, Bool, true, false, List, ◌∷◌, arith,
  Bool-cases, ◌∙◌, ap, if◌then◌else◌, leb, ltb, ◌==◌, ◌&&◌,
}
use meitte.Reader.Defs.{Call, Pread, Content, Filling, fill, fill_loop, fill_range}

-- A call moves at most what it asks for.
abbrev pub Bounded : Pread → Type 0
Bounded pread = (cs : List Call) (c : Call) → pread cs c ≤ c.len

-- A call for at least one byte of a file of that size moves at least one; behind the end it need not.
abbrev pub Answers : ℕ → Pread → Type 0
Answers size pread = (cs : List Call) (c : Call) → 0 < c.len → c.off < size → 0 < pread cs c

-- Two ranges, the second behind the first.
pub fill-fill :
    (file : ℕ → ℕ) (off n m : ℕ) (buf : ℕ → ℕ) (at x : ℕ)
    → fill file (off + n) m (fill file off n buf at) (at + n) x ≡ fill file off (n + m) buf at x
unfolding fill
fill-fill file off n m buf at x = ground (arith, ap file)

pub fill-same :
    (f g : ℕ → ℕ) (off n : ℕ) (buf cub : ℕ → ℕ) (at x : ℕ)
    → ((y : ℕ) → f y ≡ g y)
    → buf x ≡ cub x
    → fill f off n buf at x ≡ fill g off n cub at x
unfolding fill
fill-same f g off n buf cub at x h k = if_same (leb at x && ltb x (at + n)) (h _) k
  where
    if_same : (b : Bool) {p q u v : ℕ} → p ≡ q → u ≡ v → (if b then p else u) ≡ (if b then q else v)
    if_same true h k = h
    if_same false h k = k

module _ (pread : Pread) (content : Content) (file : ℕ → ℕ) (bounded : Bounded pread) (fd : ℕ)
    (same : (y : ℕ) → content fd y ≡ file y) (a0 end : ℕ) where
  -- A loop that succeeds has written the file's bytes from `a` to `end`, and nothing else.
  fill_loop-fill :
      (fuel a : ℕ) (f : Filling)
      → a0 ≤ a
      → a ≤ end
      → (fill_loop pread content fuel fd a0 a end f).1 ≡ true
      → (x : ℕ)
      → (fill_loop pread content fuel fd a0 a end f).0.buf x
        ≡ fill file a (end - a) f.buf (a - a0) x
  unfolding fill_loop fill
  fill_loop-fill zero a f h k ok x = ground arith
  fill_loop-fill (suc fuel) a f h k ok x = elim (Bool-cases (leb end a)) [
    | inl stop ↦ rw (stop, fill_loop) (ground arith)
    | inr more ↦
        let call : Call = record { fd = fd; len = end - a; off = a } in
        let got = pread f.calls call in
        let g : Filling = record {
          buf = fill (content fd) a got f.buf (a - a0);
          calls = call ∷ f.calls;
        } in
        elim (Bool-cases (got == 0)) [
          | inl failed ↦ absurd (ground arith)
          | inr moved ↦
              let most : got ≤ end - a = bounded f.calls call in
              let behind : a + got - a0 ≡ a - a0 + got = omega (arith, h) in
              let whole : got + (end - (a + got)) ≡ end - a = omega (arith, most, k) in
              rw (more, moved, fill_loop)
                (fill_loop-fill fuel (a + got) g (omega (arith, h)) (omega (arith, most, k))
                    (rw (more, moved, fill_loop) at ok) x
                  ∙ ap (λ at. fill file (a + got) (end - (a + got)) g.buf at x) behind
                  ∙ fill-same file file (a + got) (end - (a + got)) g.buf
                      (fill file a got f.buf (a - a0)) (a - a0 + got) x (λ y. refl)
                      (fill-same (content fd) file a got f.buf f.buf (a - a0) x same refl)
                  ∙ fill-fill file a got (end - (a + got)) f.buf (a - a0) x
                  ∙ ap (λ n. fill file a n f.buf (a - a0) x) whole)
        ]
  ]

  pub fill_range-fill :
      (a : ℕ) (f : Filling)
      → a0 ≤ a
      → a ≤ end
      → (fill_range pread content fd a0 a end f).1 ≡ true
      → (x : ℕ)
      → (fill_range pread content fd a0 a end f).0.buf x ≡ fill file a (end - a) f.buf (a - a0) x
  unfolding fill_range
  fill_range-fill a f = fill_loop-fill (end - a) a f

module _ (pread : Pread) (content : Content) (size : ℕ) (answers : Answers size pread)
    (fd a0 end : ℕ) (inside : end ≤ size) where
  fill_loop_succeeds :
      (fuel a : ℕ) (f : Filling)
      → end - a ≤ fuel
      → (fill_loop pread content fuel fd a0 a end f).1 ≡ true
  unfolding fill_loop
  fill_loop_succeeds zero a f h = ground arith
  fill_loop_succeeds (suc fuel) a f h = elim (Bool-cases (leb end a)) [
    | inl stop ↦ rw (stop, fill_loop) refl
    | inr more ↦
        let call : Call = record { fd = fd; len = end - a; off = a } in
        let moved : (pread f.calls call == 0) ≡ false =
          ground (arith, answers f.calls call, inside) in
        rw (more, moved, fill_loop)
          (fill_loop_succeeds fuel _ _ (ground (arith, answers f.calls call, inside)))
  ]

  pub fill_range_succeeds :
      (a : ℕ) (f : Filling) → (fill_range pread content fd a0 a end f).1 ≡ true
  unfolding fill_range
  fill_range_succeeds a f = fill_loop_succeeds (end - a) a f (omega arith)
