-- ===== src/Prefetch/Adoption.antt =====
-- Adoption: a layer's own speculative reads are its demand reads, and become hits.
use meitte.Base.{
  ℕ, ◌-◌, ◌/◌, ◌≡◌, ◌≢◌, inl, inr, ◌⊎◌, Bool, true, false, List, [], ◌∷◌, Option, none, some,
  if◌then◌else◌, ◌==◌, arith, elem, elem-append, Bool-cases,
}
use meitte.Cache.{Shape, Cache}
use meitte.Prefetch.Defs.{Spec}
use meitte.Prefetch.Lanes.{take_spec, land_spec, account_read, count_down}
use meitte.Prefetch.Settle.{
  eligible, integrate_done_entry, integrate_done, spec_integrate_done, adopt_layer, adopted,
}
use meitte.Prefetch.Steps.{Work, taken, landed, Works, idle, then_work}
use meitte.Prefetch.Sound.{Filled, Sound}
use meitte.Prefetch.Reached.{Works-Sound, Work-forgot}
use meitte.Prefetch.Quiesced.{adopt_layer-Sound}

integrate_done-stays :
    (adopt : Bool) (s : Shape) (ids : List ℕ) (c : Cache) (id : ℕ)
    → c.cvalid id ≡ true
    → (integrate_done adopt s ids c).cvalid id ≡ true
unfolding integrate_done integrate_done_entry
integrate_done-stays adopt s [] c id h = h
integrate_done-stays adopt s (i ∷ ids) c id h =
    integrate_done-stays adopt s ids (integrate_done_entry adopt s i c) id (ground (arith, h))

integrate_done-joins :
    (adopt : Bool) (s : Shape) (ids : List ℕ) (c : Cache) (id : ℕ)
    → elem id ids ≡ true
    → (integrate_done adopt s ids c).cvalid id ≡ true
unfolding integrate_done integrate_done_entry
integrate_done-joins adopt s [] c id h = absurd (ground (arith, h))
integrate_done-joins adopt s (i ∷ ids) c id h = elim (Bool-cases (i == id)) [
  | inl same ↦
      integrate_done-stays adopt s ids (integrate_done_entry adopt s i c) id (ground (arith, same))
  | inr other ↦
      integrate_done-joins adopt s ids (integrate_done_entry adopt s i c) id
        (ground (arith, h, other))
]

eligible-joins :
    (c : Cache) (ids : List ℕ) (id : ℕ)
    → elem id ids ≡ true
    → c.cvalid id ≡ false
    → c.spec_remaining id ≡ 0
    → elem id (eligible c ids) ≡ true
unfolding eligible
eligible-joins c [] id h v r = absurd (ground (arith, h))
eligible-joins c (i ∷ ids) id h v r = elim (Bool-cases (i == id)) [
  | inl same ↦ let eq : i ≡ id = ground arith in ground (arith, eq, v, r)
  | inr other ↦ ground (arith, h, other, eligible-joins c ids id)
]

-- Every entry that is done and has no read left is resident once it is integrated.
spec_integrate_done-joins :
    (adopt : Bool) (s : Shape) (c : Cache) (id : ℕ)
    → elem id c.spec_done ≡ true
    → c.spec_remaining id ≡ 0
    → (spec_integrate_done adopt s c).cvalid id ≡ true
unfolding spec_integrate_done
spec_integrate_done-joins adopt s c id h r = elim (Bool-cases (c.cvalid id)) [
  | inl there ↦
      integrate_done-stays adopt s (eligible c c.spec_done) (record c { spec_done = [] }) id there
  | inr absent ↦
      integrate_done-joins adopt s (eligible c c.spec_done) (record c { spec_done = [] }) id
        (eligible-joins c c.spec_done id h absent r)
]

-- An entry that waits for reads still does, or is done.
abbrev Promised : Cache → ℕ → Type 0
Promised c id = (c.spec_remaining id ≢ 0) ⊎ (elem id c.spec_done ≡ true)

count_down-Promised : (i : ℕ) (c : Cache) (id : ℕ) → Promised c id → Promised (count_down i c) id
unfolding count_down
count_down-Promised i c id (inr h) = inr (ground (arith, h, elem-append id c.spec_done (i ∷ [])))
count_down-Promised i c id (inl h) = elim (Bool-cases (i == id)) [
  | inr other ↦ inl (ground (arith, h, other))
  | inl same ↦ elim (Bool-cases (c.spec_remaining i - 1 == 0)) [
    | inr some_left ↦ inl (ground (arith, h, same, some_left))
    | inl last ↦ inr (rw last (ground (arith, same, elem-append id c.spec_done (i ∷ []))))
  ]
]

account_read-Promised :
    (adopt ok current : Bool) (o : Option ℕ) (c : Cache) (id : ℕ)
    → (if ok then false else adopt) ≡ false
    → Promised c id
    → Promised (account_read adopt ok current o c) id
unfolding account_read
account_read-Promised adopt ok current none c id fine h = h
account_read-Promised adopt true false (some i) c id fine h = h
account_read-Promised false false current (some i) c id fine h = h
account_read-Promised true false current (some i) c id fine h = absurd (ground (arith, fine))
account_read-Promised adopt true true (some i) c id fine h =
    elim (Bool-cases (c.spec_remaining i == 0)) [
      | inl empty ↦ rw empty h
      | inr some_left ↦ rw some_left (count_down-Promised i c id h)
    ]

Work-Promised :
    {v w : Spec} (id : ℕ) → Work v w → w.forgot ≡ false → Promised v.cache id → Promised w.cache id
unfolding take_spec land_spec
Work-Promised id (taken j at) fine h = h
Work-Promised {v} id (landed ok n f at) fine h =
    account_read-Promised v.adopt ok (f.gen == v.cache.spec_gen) f.job.flag v.cache id
      (ground (arith, fine)) h

Works-Promised :
    {v w : Spec} (id : ℕ) → Works v w → w.forgot ≡ false → Promised v.cache id → Promised w.cache id
Works-Promised id idle fine h = h
Works-Promised id (then_work u w before last) fine h =
    Work-Promised id last fine (Works-Promised id before (Work-forgot last fine) h)

adopted-elem :
    (s : Shape) (il : ℕ) (c : Cache) (ids : List ℕ) (id : ℕ)
    → elem id ids ≡ true
    → id / s.n_expert ≡ il
    → c.spec_remaining id ≢ 0
    → elem id (adopted s il c ids) ≡ true
unfolding adopted
adopted-elem s il c [] id h own left = absurd (ground (arith, h))
adopted-elem s il c (i ∷ ids) id h own left = elim (Bool-cases (i == id)) [
  | inl same ↦ let eq : i ≡ id = ground arith in ground (arith, eq, own, left)
  | inr other ↦ ground (arith, h, other, adopted-elem s il c ids id)
]

-- Once the wait of an adoption is over, whatever the lanes did meanwhile, its integration leaves
-- every entry of the layer that had a read left when the load began resident with all of its slices
-- read, so that none is read again: from a state that keeps what holds of speculation, outside the
-- destructive quiesce, where no failed read has reset an entry.
pub adopt_layer-Joined :
    (s : Shape) (il : ℕ) (v w : Spec) (id : ℕ)
    → Sound s v
    → v.quiescing ≡ false
    → Works (record v { cache = adopt_layer il v.cache }) w
    → w.forgot ≡ false
    → ((i : ℕ)
        → elem i (adopted s il v.cache v.cache.spec_touched) ≡ true
        → w.cache.spec_remaining i ≡ 0)
    → id / s.n_expert ≡ il
    → v.cache.spec_remaining id ≢ 0
    → ((spec_integrate_done w.adopt s w.cache).cvalid id ≡ true) × Filled s w.got id
adopt_layer-Joined s il v w id k going works fine waited own left =
    let zero_left : w.cache.spec_remaining id ≡ 0 =
      waited id (adopted-elem s il v.cache v.cache.spec_touched id (k.touched id left) own left) in
    let u = Works-Sound works fine (adopt_layer-Sound s il v going k) in
    elim (Works-Promised id works fine (inl (unfold adopt_layer in left))) [
      | inl more ↦ absurd (more zero_left)
      | inr done ↦ (spec_integrate_done-joins w.adopt s w.cache id done zero_left, u.whole id done)
    ]
