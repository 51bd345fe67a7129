-- ===== src/Synch/Waiters.antt =====
-- The waiter that sema_up of pintos/src/threads/synch.c wakes.
use course_cs439_operating_s.Base.{
  ◌≤◌, ◌<◌, ◌≡◌, refl, ap, ◌⊎◌, inl, inr, none, some, List, [], ◌∷◌, ◌++◌, arith, ltb, ◌==◌,
  Bool-cases, ==_refl, All,
}
use course_cs439_operating_s.Thread.{Tid, Threads}
use course_cs439_operating_s.Synch.{is_higher, highest_waiter, list_remove}

-- The waiter `w` is the first one of the highest priority.
pub record First (ts : Threads) (ws : List Tid) (w : Tid) : Type 0 where
  pub front : List Tid
  pub back : List Tid
  pub split : ws ≡ front ++ w ∷ back
  pub ahead : All (λ u. (ts u).priority < (ts w).priority) front
  pub behind : All (λ u. (ts u).priority ≤ (ts w).priority) back

Better : Threads → Tid → List Tid → Tid → Type 0
Better ts best ws w =
    ((w ≡ best) × All (λ u. (ts u).priority ≤ (ts best).priority) ws)
    ⊎ (((ts best).priority < (ts w).priority) × First ts ws w)

later :
    {ts : Threads} {ws : List Tid} {w : Tid} (u : Tid)
    → (ts u).priority < (ts w).priority
    → First ts ws w
    → First ts (u ∷ ws) w
later u h f = record {
  front = u ∷ f.front;
  back = f.back;
  split = ap (◌∷◌ u) f.split;
  ahead = (h, f.ahead);
  behind = f.behind;
}

search-Better :
    (ts : Threads) (best : Tid) (ws : List Tid)
    → (w : Tid) × (highest_waiter ts (some best) ws ≡ some w) × Better ts best ws w
unfolding highest_waiter is_higher Better
search-Better ts best [] = (best, refl, inl (refl, tt))
search-Better ts best (u ∷ us) = elim (Bool-cases (ltb (ts best).priority (ts u).priority)) [
  | inl more ↦
      let (w, found, b) = search-Better ts u us in
      (
        w,
        rw more found,
        elim b [
          | inl (same, low) ↦ inr (
            rw same (ground arith),
            rw same (record { front = []; back = us; split = refl; ahead = tt; behind = low }),
          )
          | inr (above, f) ↦ inr (ground arith, later u above f)
        ],
      )
  | inr less ↦
      let (w, found, b) = search-Better ts best us in
      (
        w,
        rw less found,
        elim b [
          | inl (same, low) ↦ inl (same, (ground arith, low))
          | inr (above, f) ↦ inr (above, later u (ground arith) f)
        ],
      )
]

-- If there is a waiter, the search finds the first of those with the highest priority.
pub highest_waiter-First :
    (ts : Threads) (u : Tid) (us : List Tid)
    → (w : Tid) × (highest_waiter ts none (u ∷ us) ≡ some w) × First ts (u ∷ us) w
unfolding highest_waiter is_higher Better
highest_waiter-First ts u us =
    let (w, found, b) = search-Better ts u us in
    (
      w,
      found,
      elim b [
        | inl (same, low) ↦
            rw same (record { front = []; back = us; split = refl; ahead = tt; behind = low })
        | inr (above, f) ↦ later u above f
      ],
    )

remove_first :
    (ts : Threads) (w : Tid) (front back : List Tid)
    → All (λ u. (ts u).priority < (ts w).priority) front
    → list_remove w (front ++ w ∷ back) ≡ front ++ back
unfolding list_remove
remove_first ts w [] back a = rw (==_refl w)
remove_first ts w (u ∷ us) back a = elim (Bool-cases (u == w)) [
  | inr apart ↦ rw apart (ap (◌∷◌ u) (remove_first ts w us back a.1))
  | inl same ↦
      let e : u ≡ w = ground arith in absurd (omega (arith, ap (λ t. (ts t).priority) e, a.0))
]

-- The waiters without the one that was found.
pub list_remove-First :
    {ts : Threads} {ws : List Tid} {w : Tid} (f : First ts ws w)
    → list_remove w ws ≡ f.front ++ f.back
list_remove-First {ts} {w} f = rw f.split (remove_first ts w f.front f.back f.ahead)

pub All-First {κ} :
    (P : Tid → Type κ) {ts : Threads} {ws : List Tid} {w : Tid} → First ts ws w → All P ws → P w
All-First P {w} f a = part f.front (rw f.split at a)
  where
    part : (front : List Tid) → All P (front ++ w ∷ f.back) → P w
    part [] h = h.0
    part (u ∷ us) h = part us h.1
