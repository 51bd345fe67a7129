-- ===== src/Frames/Clock.antt =====
-- evict_frame of pintos/src/vm/frame.c finds a frame within three revolutions of the clock.
use course_cs439_operating_s.Base.{
  ℕ, zero, suc, ◌+◌, ◌<◌, ◌≤◌, ◌≡◌, ◌≢◌, ◌⊎◌, refl, sym, ap, ◌∙◌, inl, inr, true, false, ◌&&◌, not,
  some, arith, ltb, ◌==◌, Bool-cases,
}
use course_cs439_operating_s.Frames.{
  Frame, Pagedir, Search, is_free, advance, search_round, search_loop, find_victim,
}
use course_cs439_operating_s.Frames.Sweep.{
  passed, Sweep, suitable-pinned, unsuitable-pinned, advance-lt, passed-advance, passed_around,
  passed-lt, passed_injective, next, round_runs, next-same,
}

-- The rounds of a number of revolutions.
rounds : (revolution n : ℕ) → ℕ
rounds zero n = 0
rounds (suc r) n = n + rounds r n

abbrev done : (n old : ℕ) → Search → ℕ
done n old s = rounds s.revolution n + passed n old s.clockhand

module _ (frames : ℕ → Frame) (n old : ℕ) (s : Search) (ho : old < n) (w : Sweep frames n old s)
    (going : s.revolution < 3) (searching : s.found ≡ false) where
  -- A frame that the round refuses, from the third revolution on.
  refused_here :
      2 ≤ s.revolution → (next n old s).found ≡ false → (frames s.clockhand).pinned ≡ true
  refused_here le f =
      sym (w.pinned s.clockhand)
      ∙ unsuitable-pinned s.revolution s.pagedir (s.frames s.clockhand) le f

  -- All frames up to and with that of the round.
  refused_so_far :
      s.revolution ≡ 2
      → (next n old s).found ≡ false
      → (i : ℕ) → i < n
      → passed n old i < suc (passed n old s.clockhand)
      → (frames i).pinned ≡ true
  refused_so_far r f i hi lt = elim (cases i lt) [
    | inl before ↦ w.refused r searching i hi before
    | inr same ↦
        let e = passed_injective n old i s.clockhand ho hi w.hand same in
        ap (λ j. (frames j).pinned) e ∙ refused_here (omega (arith, r)) f
  ]
    where
      cases :
          (i : ℕ)
          → passed n old i < suc (passed n old s.clockhand)
          → (passed n old i < passed n old s.clockhand)
            ⊎ (passed n old i ≡ passed n old s.clockhand)
      cases i lt = ground arith

  next-Sweep : Sweep frames n old (next n old s)
  next-Sweep = record {
    hand = advance-lt n s.clockhand w.hand;
    uaddr = λ i. (next-same n old s i).0 ∙ w.uaddr i;
    pinned = λ i. (next-same n old s i).1 ∙ w.pinned i;
    refused = λ r f i hi lt. elim (Bool-cases (advance n s.clockhand == old)) [
      | inl back ↦ absurd (ground (arith, back, lt))
      | inr on ↦
          let ne : advance n s.clockhand ≢ old = ground (arith, on) in
          refused_so_far (ground (arith, on, r)) f i hi
            (omega (arith, passed-advance n old s.clockhand ho w.hand ne, lt))
    ];
    exhausted = λ r f i hi. elim (Bool-cases (advance n s.clockhand == old)) [
      | inr on ↦ absurd (ground (arith, on, r, going))
      | inl back ↦
          let around = passed_around n old s.clockhand ho w.hand (ground (arith, back)) in
          refused_so_far (ground (arith, back, r, going)) f i hi
            (omega (arith, around, passed-lt n old i ho hi))
    ];
    suitable = λ f. (
      w.hand,
      sym (w.pinned s.clockhand) ∙ suitable-pinned s.revolution s.pagedir (s.frames s.clockhand) f,
    );
  }

  next-done : done n old (next n old s) ≡ suc (done n old s)
  unfolding rounds
  next-done = elim (Bool-cases (advance n s.clockhand == old)) [
    | inl back ↦
        let around = passed_around n old s.clockhand ho w.hand (ground (arith, back)) in
        let e : advance n s.clockhand ≡ old = ground (arith, back) in
        let start : passed n old (advance n s.clockhand) ≡ 0 = ground (arith, e) in
        rw back (omega (arith, around, start))
    | inr on ↦
        let ne : advance n s.clockhand ≢ old = ground (arith, on) in
        rw on (omega (arith, passed-advance n old s.clockhand ho w.hand ne))
  ]

loop_stops :
    (fuel n old : ℕ) (s : Search)
    → (ltb s.revolution 3 && not s.found) ≡ false
    → search_loop (suc fuel) n old s ≡ some s
unfolding search_loop
loop_stops fuel n old s e = rw (search_loop, e) refl

loop_goes_on :
    (fuel n old : ℕ) (s s' : Search)
    → (ltb s.revolution 3 && not s.found) ≡ true
    → search_round n old s ≡ some s'
    → search_loop (suc fuel) n old s ≡ search_loop fuel n old s'
unfolding search_loop
loop_goes_on fuel n old s s' e r = rw (search_loop, e, r) refl

done-lt :
    (n old : ℕ) (s : Search)
    → old < n
    → s.clockhand < n
    → s.revolution < 3
    → done n old s < n + (n + n)
unfolding rounds
done-lt n old s ho hc lt = by_revolution s.revolution lt
  where
    by_revolution : (r : ℕ) → r < 3 → rounds r n + passed n old s.clockhand < n + (n + n)
    by_revolution zero h = omega (arith, passed-lt n old s.clockhand ho hc)
    by_revolution (suc zero) h = omega (arith, passed-lt n old s.clockhand ho hc)
    by_revolution (suc (suc zero)) h = omega (arith, passed-lt n old s.clockhand ho hc)
    by_revolution (suc (suc (suc r))) h = absurd (omega (arith, h))

module _ (frames : ℕ → Frame) (n old : ℕ) (ho : old < n)
    (used : (i : ℕ) → i < n → (frames i).uaddr ≢ 0) where
  not_free : (s : Search) → Sweep frames n old s → is_free (s.frames s.clockhand) ≡ false
  unfolding is_free
  not_free s w = ground (arith, w.uaddr s.clockhand, used s.clockhand w.hand)

  -- With a round for each frame in three revolutions the loop ends.
  loop_ends :
      (fuel : ℕ) (s : Search)
      → Sweep frames n old s
      → done n old s ≤ n + (n + n)
      → n + (n + n) < done n old s + fuel
      → (s' : Search) × (search_loop fuel n old s ≡ some s')
        × Sweep frames n old s'
        × ((ltb s'.revolution 3 && not s'.found) ≡ false)
  loop_ends zero s w le lt = absurd (omega (arith, le, lt))
  loop_ends (suc fuel) s w le lt = elim (Bool-cases (ltb s.revolution 3 && not s.found)) [
    | inr over ↦ (s, loop_stops fuel n old s over, w, over)
    | inl on ↦
        let going : s.revolution < 3 = ground (arith, on) in
        let searching : s.found ≡ false = ground (arith, on) in
        let more = next-done frames n old s ho w going searching in
        let (s', runs, w', over) =
          loop_ends fuel (next n old s) (next-Sweep frames n old s ho w going searching)
            (omega (arith, more, done-lt n old s ho w.hand going)) (omega (arith, more, lt)) in
        (
          s',
          loop_goes_on fuel n old s (next n old s) on (round_runs n old s (not_free s w)) ∙ runs,
          w',
          over,
        )
  ]

  -- If all frames are in use and one of them is not pinned, evict_frame finds a frame that is not pinned, within three
  -- revolutions of the clock from wherever its hand stands; no frame's page or pin has changed.
  pub find_victim-Unpinned :
      (fuel : ℕ) (pd : Pagedir) (i : ℕ)
      → i < n
      → (frames i).pinned ≡ false
      → n + (n + n) < fuel
      → (s : Search) × (victim : ℕ) × (find_victim fuel n frames pd old ≡ some (s, victim))
        × (victim < n)
        × ((frames victim).pinned ≡ false)
        × ((j : ℕ) → (s.frames j).uaddr ≡ (frames j).uaddr)
        × ((j : ℕ) → (s.frames j).pinned ≡ (frames j).pinned)
  unfolding find_victim rounds
  find_victim-Unpinned fuel pd i hi free enough =
      let start : Search = record {
        frames = frames;
        pagedir = pd;
        clockhand = old;
        revolution = 0;
        found = false;
        chosen = old;
      } in
      let at_start : passed n old old ≡ 0 = ground arith in
      let w : Sweep frames n old start = record {
        hand = ho;
        uaddr = λ j. refl;
        pinned = λ j. refl;
        refused = λ r. absurd (omega (arith, r));
        exhausted = λ r. absurd (omega (arith, r));
        suitable = λ f. absurd cc;
      } in
      let (s, runs, w', over) =
        loop_ends fuel start w (omega (arith, at_start)) (omega (arith, at_start, enough)) in
      let found : s.found ≡ true = elim (Bool-cases s.found) [
        | inl f ↦ f
        | inr f ↦
            absurd (ground (arith, f, over, w'.exhausted (ground (arith, f, over)) f i hi, free))
      ] in
      let (below, unpinned) = w'.suitable found in
      (
        s,
        s.chosen,
        rw (runs, found, w'.pinned s.chosen ∙ unpinned) refl,
        below,
        unpinned,
        w'.uaddr,
        w'.pinned,
      )
