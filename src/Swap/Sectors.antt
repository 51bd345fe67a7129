-- ===== src/Swap/Sectors.antt =====
-- The loops of write_swap and read_swap of pintos/src/vm/swap.c over the sectors of a slot.
use course_cs439_operating_s.Base.{
  ℕ, zero, suc, ◌+◌, ◌≤◌, ◌<◌, ◌≡◌, refl, sym, ap, ◌∙◌, ◌≢◌, inl, inr, true, some, arith, ltb,
  le-cases,
}
use course_cs439_operating_s.Swap.{put, write_sectors, read_sectors}

module _ {ℓ} {A : Type ℓ} where
  pub put_self : (f : ℕ → A) (i : ℕ) (v : A) → put f i v i ≡ v
  unfolding put
  put_self f i v = ground arith

  pub put_ne : (f : ℕ → A) {i j : ℕ} (v : A) → i ≢ j → put f i v j ≡ f j
  unfolding put
  put_ne f v h = ground arith

  -- The disk after a write of `n` sectors from `i` on.
  pub record Written (n : ℕ) (disk disk' : ℕ → A) (sector : ℕ) (kpage : ℕ → A) (i : ℕ)
      : Type ℓ where
    pub inside : (j : ℕ) → i ≤ j → j < i + n → disk' (sector + j) ≡ kpage j
    pub below : (k : ℕ) → k < sector + i → disk' k ≡ disk k
    pub above : (k : ℕ) → sector + i + n ≤ k → disk' k ≡ disk k

  module _ (n size : ℕ) (disk : ℕ → A) (sector : ℕ) (kpage : ℕ → A) (i : ℕ)
      (room : ltb (sector + i) size ≡ true) where
    write_step :
        write_sectors (suc n) size disk sector kpage i
        ≡ write_sectors n size (put disk (sector + i) (kpage i)) sector kpage (suc i)
    unfolding write_sectors
    write_step = rw (write_sectors, room)

    read_step :
        read_sectors (suc n) size disk sector kpage i
        ≡ read_sectors n size disk sector (put kpage i (disk (sector + i))) (suc i)
    unfolding read_sectors
    read_step = rw (read_sectors, room)

  pub write_sectors-Written :
      (n size : ℕ) (disk : ℕ → A) (sector : ℕ) (kpage : ℕ → A) (i : ℕ)
      → sector + i + n ≤ size
      → (disk' : ℕ → A) × (write_sectors n size disk sector kpage i ≡ some disk')
        × Written n disk disk' sector kpage i
  unfolding write_sectors
  write_sectors-Written zero size disk sector kpage i h = (
    disk,
    refl,
    record { inside = λ j lo hi. absurd (omega arith); below = λ k lt. refl; above = λ k ge. refl },
  )
  write_sectors-Written (suc n) size disk sector kpage i h =
      let room : ltb (sector + i) size ≡ true = ground arith in
      let (disk', returns, w) =
        write_sectors-Written n size (put disk (sector + i) (kpage i)) sector kpage (suc i)
          (omega arith) in
      (
        disk',
        write_step n size disk sector kpage i room ∙ returns,
        record {
          inside = λ j lo hi. elim (le-cases i j lo) [
            | inl later ↦ w.inside j (omega arith) (omega arith)
            | inr here ↦
                ap (λ m. disk' (sector + m)) (sym here)
                ∙ w.below (sector + i) (omega arith)
                ∙ put_self disk (sector + i) (kpage i)
                ∙ ap kpage here
          ];
          below = λ k lt. w.below k (omega arith) ∙ put_ne disk (kpage i) (omega arith);
          above = λ k ge. w.above k (omega arith) ∙ put_ne disk (kpage i) (omega arith);
        },
      )

  pub read_sectors_lem :
      (n size : ℕ) (disk : ℕ → A) (sector : ℕ) (kpage : ℕ → A) (i : ℕ)
      → sector + i + n ≤ size
      → (kpage' : ℕ → A) × (read_sectors n size disk sector kpage i ≡ some kpage')
        × ((j : ℕ) → i ≤ j → j < i + n → kpage' j ≡ disk (sector + j))
        × ((j : ℕ) → j < i → kpage' j ≡ kpage j)
  unfolding read_sectors
  read_sectors_lem zero size disk sector kpage i h =
      (kpage, refl, λ j lo hi. absurd (omega arith), λ j lt. refl)
  read_sectors_lem (suc n) size disk sector kpage i h =
      let room : ltb (sector + i) size ≡ true = ground arith in
      let (kpage', returns, inside, below) =
        read_sectors_lem n size disk sector (put kpage i (disk (sector + i))) (suc i)
          (omega arith) in
      (
        kpage',
        read_step n size disk sector kpage i room ∙ returns,
        λ j lo hi. elim (le-cases i j lo) [
          | inl later ↦ inside j (omega arith) (omega arith)
          | inr here ↦
              ap kpage' (sym here)
              ∙ below i (omega arith)
              ∙ put_self kpage i (disk (sector + i))
              ∙ ap (λ m. disk (sector + m)) here
        ],
        λ j lt. below j (omega arith) ∙ put_ne kpage (disk (sector + i)) (omega arith),
      )
