-- ===== src/Blocks/Move.antt =====
-- memcpy and memmove of pintos/src/lib/string.c copy a block.
use course_cs439_operating_s.Base.{
  ℕ, zero, suc, ◌+◌, ◌-◌, ◌≤◌, ◌<◌, ◌≡◌, ◌≢◌, refl, ap, ◌∙◌, ◌⊎◌, inl, inr, true, false, some,
  arith, ltb, ◌==◌, if◌then◌else◌, Bool-cases, ==_refl,
}
use course_cs439_operating_s.Blocks.{Bytes, store, has_block, copy_up, copy_down, memcpy, memmove}

store_at : (m : Bytes) (address byte a : ℕ) → a ≡ address → store m address byte a ≡ byte
unfolding store
store_at m address byte a e = rw e (rw (==_refl address) refl)

store_off : (m : Bytes) (address byte a : ℕ) → a ≢ address → store m address byte a ≡ m a
unfolding store
store_off m address byte a ne = let e : (a == address) ≡ false = ground (arith, ne) in rw e refl

-- The block at `src` of the old bytes stands at `dst`, and nothing else has changed.
pub record Copied (m m' : Bytes) (dst src size : ℕ) : Type 0 where
  pub inside : (i : ℕ) → i < size → m' (dst + i) ≡ m (src + i)
  pub outside : (a : ℕ) → (a < dst) ⊎ (dst + size ≤ a) → m' a ≡ m a

-- A round that copies upwards, with what the other rounds copy.
copy_first :
    (m m' : Bytes) (dst src size : ℕ)
    → (dst ≤ src) ⊎ (src + suc size ≤ dst)
    → Copied (store m dst (m src)) m' (suc dst) (suc src) size
    → Copied m m' dst src (suc size)
copy_first m m' dst src size apart c = record { inside = inside; outside = outside }
  where
    inside : (i : ℕ) → i < suc size → m' (dst + i) ≡ m (src + i)
    inside zero h =
        c.outside (dst + 0) (inl (omega arith))
        ∙ store_at m dst (m src) (dst + 0) (omega arith)
        ∙ ap m (omega arith)
    inside (suc i) h =
        ap m' (omega arith)
        ∙ c.inside i (omega (arith, h))
        ∙ store_off m dst (m src) (suc src + i) (λ e. elim apart [
          | inl low ↦ absurd (omega (arith, e, low))
          | inr high ↦ absurd (omega (arith, e, high, h))
        ])
        ∙ ap m (omega arith)

    outside : (a : ℕ) → (a < dst) ⊎ (dst + suc size ≤ a) → m' a ≡ m a
    outside a h =
        c.outside a
          (elim h [ inl low ↦ inl (omega (arith, low)) | inr high ↦ inr (omega (arith, high)) ])
        ∙ store_off m dst (m src) a (λ e. elim h [
          | inl low ↦ absurd (omega (arith, e, low))
          | inr high ↦ absurd (omega (arith, e, high))
        ])

copy_up-Copied :
    (size : ℕ) (m : Bytes) (dst src : ℕ)
    → (dst ≤ src) ⊎ (src + size ≤ dst)
    → Copied m (copy_up size m dst src).0 dst src size
unfolding copy_up
copy_up-Copied zero m dst src apart = record {
  inside = λ i h. absurd (omega (arith, h));
  outside = λ a h. refl;
}
copy_up-Copied (suc size) m dst src apart = copy_first m _ dst src size apart (
    copy_up-Copied size (store m dst (m src)) (suc dst) (suc src)
      (elim apart [ inl low ↦ inl (omega (arith, low)) | inr high ↦ inr (omega (arith, high)) ]))

-- A round that copies downwards, with what the other rounds copy.
copy_last :
    (m m' : Bytes) (dst src size d s : ℕ)
    → src ≤ dst
    → d ≡ dst + size
    → s ≡ src + size
    → Copied (store m d (m s)) m' dst src size
    → Copied m m' dst src (suc size)
copy_last m m' dst src size d s le ed es c = record { inside = inside; outside = outside }
  where
    at_end : (i : ℕ) → i < suc size → (i < size) ⊎ (i ≡ size)
    at_end i h = ground arith

    inside : (i : ℕ) → i < suc size → m' (dst + i) ≡ m (src + i)
    inside i h = elim (at_end i h) [
      | inl below ↦
          c.inside i below
          ∙ store_off m d (m s) (src + i) (λ e. absurd (omega (arith, e, ed, le, below)))
      | inr last ↦
          c.outside (dst + i) (inr (omega (arith, last)))
          ∙ store_at m d (m s) (dst + i) (omega (arith, ed, last))
          ∙ ap m (omega (arith, es, last))
    ]

    outside : (a : ℕ) → (a < dst) ⊎ (dst + suc size ≤ a) → m' a ≡ m a
    outside a h =
        c.outside a (elim h [ inl low ↦ inl low | inr high ↦ inr (omega (arith, high)) ])
        ∙ store_off m d (m s) a (λ e. elim h [
          | inl low ↦ absurd (omega (arith, e, ed, low))
          | inr high ↦ absurd (omega (arith, e, ed, high))
        ])

copy_down-Copied :
    (size : ℕ) (m : Bytes) (dst src d s : ℕ)
    → src ≤ dst
    → d ≡ dst + size
    → s ≡ src + size
    → Copied m (copy_down size m d s).0 dst src size
unfolding copy_down
copy_down-Copied zero m dst src d s le ed es = record {
  inside = λ i h. absurd (omega (arith, h));
  outside = λ a h. refl;
}
copy_down-Copied (suc size) m dst src d s le ed es =
    let ed' : d - 1 ≡ dst + size = omega (arith, ed) in
    let es' : s - 1 ≡ src + size = omega (arith, es) in
    copy_last m _ dst src size (d - 1) (s - 1) le ed' es'
      (copy_down-Copied size (store m (d - 1) (m (s - 1))) dst src (d - 1) (s - 1) le ed' es')

copy_up_end : (size : ℕ) (m : Bytes) (dst src : ℕ) → (copy_up size m dst src).1 ≡ dst + size
unfolding copy_up
copy_up_end zero m dst src = omega arith
copy_up_end (suc size) m dst src =
    copy_up_end size (store m dst (m src)) (suc dst) (suc src) ∙ omega arith

copy_down_end :
    (size : ℕ) (m : Bytes) (dst d s : ℕ) → d ≡ dst + size → (copy_down size m d s).1 ≡ dst
unfolding copy_down
copy_down_end zero m dst d s e = omega (arith, e)
copy_down_end (suc size) m dst d s e =
    copy_down_end size (store m (d - 1) (m (s - 1))) dst (d - 1) (s - 1) (omega (arith, e))

has_block-pointer : (pointer size : ℕ) → pointer ≢ 0 → has_block pointer size ≡ true
unfolding has_block
has_block-pointer pointer size ne = let e : (pointer == 0) ≡ false = ground (arith, ne) in rw e refl

module _ (m : Bytes) (dst src size : ℕ) (to : dst ≢ 0) (from : src ≢ 0) where
  memmove_up : ltb dst src ≡ true → memmove m dst src size ≡ some (copy_up size m dst src)
  unfolding memmove
  memmove_up up = rw (has_block-pointer dst size to, has_block-pointer src size from, up) refl

  memmove_down :
      ltb dst src ≡ false
      → memmove m dst src size ≡ some (copy_down size m (dst + size) (src + size))
  unfolding memmove
  memmove_down down = rw (has_block-pointer dst size to, has_block-pointer src size from, down) refl

-- For pointers other than NULL memmove succeeds: even if the blocks overlap, the bytes that stood at `src` stand
-- at `dst` and no byte outside the block at `dst` has changed. The pointer it returns is `dst` only if
-- `dst` is not below `src`; otherwise it is the end of the block.
pub memmove-Copied :
    (m : Bytes) (dst src size : ℕ)
    → dst ≢ 0
    → src ≢ 0
    → (m' : Bytes) × (memmove m dst src size ≡ some (m', if ltb dst src then dst + size else dst))
      × Copied m m' dst src size
memmove-Copied m dst src size to from = elim (Bool-cases (ltb dst src)) [
  | inl up ↦ (
    (copy_up size m dst src).0,
    memmove_up m dst src size to from up
        ∙ ap (λ p. some ((copy_up size m dst src).0, p)) (copy_up_end size m dst src ∙ rw up refl),
    copy_up-Copied size m dst src (inl (ground arith)),
  )
  | inr down ↦ (
    (copy_down size m (dst + size) (src + size)).0,
    memmove_down m dst src size to from down
        ∙ ap (λ p. some ((copy_down size m (dst + size) (src + size)).0, p))
            (copy_down_end size m dst (dst + size) (src + size) refl ∙ rw down refl),
    copy_down-Copied size m dst src (dst + size) (src + size) (ground arith) refl refl,
  )
]

-- For pointers other than NULL and blocks that do not overlap, or with `dst` not above `src`, memcpy succeeds,
-- copies the block, changes no other byte and returns `dst`.
pub memcpy-Copied :
    (m : Bytes) (dst src size : ℕ)
    → dst ≢ 0
    → src ≢ 0
    → (dst ≤ src) ⊎ (src + size ≤ dst)
    → (m' : Bytes) × (memcpy m dst src size ≡ some (m', dst)) × Copied m m' dst src size
unfolding memcpy
memcpy-Copied m dst src size to from apart = (
  (copy_up size m dst src).0,
  rw (has_block-pointer dst size to, has_block-pointer src size from) refl,
  copy_up-Copied size m dst src apart,
)
