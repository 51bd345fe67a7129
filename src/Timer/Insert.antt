-- ===== src/Timer/Insert.antt =====
-- The place of a new sleeper: the loop of timer_sleep in pintos/src/devices/timer.c.
use course_cs439_operating_s.Base.{
  ◌≡◌, refl, sym, ap, ◌∙◌, ◌⊎◌, inl, inr, true, false, List, [], ◌∷◌, ◌++◌, arith, if◌then◌else◌,
  All, Bool-cases,
}
use course_cs439_operating_s.Base.Int.{ℤ, ◌≤ℤ◌, ltb_ℤ}
use course_cs439_operating_s.Timer.{Sleeper, insert_sleeper}
use course_cs439_operating_s.Timer.Queue.{IsSorted, IsFree, IsApart}

-- The sleepers that were not woken.
pub asleep : List Sleeper → List Sleeper
asleep [] = []
asleep (s ∷ rest) = if s.remove_flag then asleep rest else s ∷ asleep rest

asleep_flagged :
    (s : Sleeper) (rest : List Sleeper) → s.remove_flag ≡ true → asleep (s ∷ rest) ≡ asleep rest
unfolding asleep
asleep_flagged s rest e = ground arith

asleep_awake :
    (s : Sleeper) (rest : List Sleeper)
    → s.remove_flag ≡ false
    → asleep (s ∷ rest) ≡ s ∷ asleep rest
unfolding asleep
asleep_awake s rest e = ground arith

module _ (new : Sleeper) where
  insert_nil : insert_sleeper new [] ≡ new ∷ []
  unfolding insert_sleeper
  insert_nil = refl

  insert_flagged :
      (s : Sleeper) (rest : List Sleeper)
      → s.remove_flag ≡ true
      → insert_sleeper new (s ∷ rest) ≡ insert_sleeper new rest
  unfolding insert_sleeper
  insert_flagged s rest flag = ground arith

  insert_before :
      (s : Sleeper) (rest : List Sleeper)
      → s.remove_flag ≡ false
      → ltb_ℤ new.wake_ticks s.wake_ticks ≡ true
      → insert_sleeper new (s ∷ rest) ≡ new ∷ s ∷ rest
  unfolding insert_sleeper
  insert_before s rest awake before = ground arith

  insert_behind :
      (s : Sleeper) (rest : List Sleeper)
      → s.remove_flag ≡ false
      → ltb_ℤ new.wake_ticks s.wake_ticks ≡ false
      → insert_sleeper new (s ∷ rest) ≡ s ∷ insert_sleeper new rest
  unfolding insert_sleeper
  insert_behind s rest awake behind = ground arith

  -- insert_sleeper drops the sleepers in front of the new one that were woken, and no others.
  pub insert_sleeper-asleep :
      (q : List Sleeper)
      → (front : List Sleeper) × (back : List Sleeper) × (q ≡ front ++ back)
        × (insert_sleeper new q ≡ asleep front ++ new ∷ back)
  unfolding asleep
  insert_sleeper-asleep [] = ([], [], refl, insert_nil)
  insert_sleeper-asleep (s ∷ rest) =
      let (front, back, e, f) = insert_sleeper-asleep rest in
      elim (Bool-cases s.remove_flag) [
        | inl flag ↦ (
          s ∷ front,
          back,
          ap (◌∷◌ s) e,
          insert_flagged s rest flag
              ∙ f
              ∙ ap (λ l. l ++ new ∷ back) (sym (asleep_flagged s front flag)),
        )
        | inr awake ↦ elim (Bool-cases (ltb_ℤ new.wake_ticks s.wake_ticks)) [
          | inl before ↦ ([], s ∷ rest, refl, insert_before s rest awake before)
          | inr behind ↦ (
            s ∷ front,
            back,
            ap (◌∷◌ s) e,
            insert_behind s rest awake behind
                ∙ ap (◌∷◌ s) f
                ∙ ap (λ l. l ++ new ∷ back) (sym (asleep_awake s front awake)),
          )
        ]
      ]

  pub insert-All :
      (P : Sleeper → Type 0) (q : List Sleeper) → P new → All P q → All P (insert_sleeper new q)
  insert-All P [] p h = rw insert_nil (p, tt)
  insert-All P (s ∷ rest) p h =
      let further = insert-All P rest p h.1 in
      elim (Bool-cases s.remove_flag) [
        | inl flag ↦ rw (insert_flagged s rest flag) further
        | inr awake ↦ elim (Bool-cases (ltb_ℤ new.wake_ticks s.wake_ticks)) [
          | inl before ↦ rw (insert_before s rest awake before) (p, h)
          | inr behind ↦ rw (insert_behind s rest awake behind) (h.0, further)
        ]
      ]

  All-le_trans :
      (a b : ℤ) (q : List Sleeper)
      → a ≤ℤ b
      → All (λ u. b ≤ℤ u.wake_ticks) q
      → All (λ u. a ≤ℤ u.wake_ticks) q
  All-le_trans a b [] h k = tt
  All-le_trans a b (u ∷ q) h k = (omega (arith, k.0), All-le_trans a b q h k.1)

  pub insert-IsSorted : (q : List Sleeper) → IsSorted q → IsSorted (insert_sleeper new q)
  insert-IsSorted [] h = rw insert_nil (tt, tt)
  insert-IsSorted (s ∷ rest) h =
      let further = insert-IsSorted rest h.1 in
      elim (Bool-cases s.remove_flag) [
        | inl flag ↦ rw (insert_flagged s rest flag) further
        | inr awake ↦ elim (Bool-cases (ltb_ℤ new.wake_ticks s.wake_ticks)) [
          | inl before ↦
              let le : new.wake_ticks ≤ℤ s.wake_ticks = ground arith in
              rw (insert_before s rest awake before)
                ((le, All-le_trans new.wake_ticks s.wake_ticks rest le h.0), h)
          | inr behind ↦
              let le : s.wake_ticks ≤ℤ new.wake_ticks = ground arith in
              rw (insert_behind s rest awake behind)
                (insert-All (λ u. s.wake_ticks ≤ℤ u.wake_ticks) rest le h.0, further)
        ]
      ]

  other-IsFree : (s : Sleeper) → s.remove_flag ≡ false → IsFree new.thread s → IsFree s.thread new
  other-IsFree s e (inl f) = cc
  other-IsFree s e (inr ne) = inr (ground arith)

  sleeping-IsFree :
      (s : Sleeper) (rest : List Sleeper)
      → s.remove_flag ≡ false
      → (s.remove_flag ≡ true) ⊎ All (IsFree s.thread) rest
      → All (IsFree s.thread) rest
  sleeping-IsFree s rest e (inl f) = absurd (cc)
  sleeping-IsFree s rest e (inr h) = h

  pub insert-IsApart :
      (q : List Sleeper) → All (IsFree new.thread) q → IsApart q → IsApart (insert_sleeper new q)
  insert-IsApart [] f h = rw insert_nil (inr tt, tt)
  insert-IsApart (s ∷ rest) f h =
      let further = insert-IsApart rest f.1 h.1 in
      elim (Bool-cases s.remove_flag) [
        | inl flag ↦ rw (insert_flagged s rest flag) further
        | inr awake ↦ elim (Bool-cases (ltb_ℤ new.wake_ticks s.wake_ticks)) [
          | inl before ↦ rw (insert_before s rest awake before) (inr f, h)
          | inr behind ↦ rw (insert_behind s rest awake behind) (
            inr (
                insert-All (IsFree s.thread) rest (other-IsFree s awake f.0)
                  (sleeping-IsFree s rest awake h.0)),
            further,
          )
        ]
      ]
