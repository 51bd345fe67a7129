-- ===== src/Swap/Clean.antt =====
-- clean_swap of pintos/src/vm/swap.c, which is called when a process ends.
use course_cs439_operating_s.Base.{
  ℕ, ◌≡◌, refl, ap, ◌∙◌, Bool, true, false, ◌&&◌, not, List, [], ◌∷◌, ◌++◌, ◌==◌, All,
}
use course_cs439_operating_s.Swap.{null_page, Slot, Swap, clean_loop, clean_swap}

-- The slot holds a page of the thread.
abbrev pub owned : ℕ → Slot → Bool
owned tid s = not (s.upage == null_page) && (s.tid == tid)

append_assoc : (xs ys zs : List Slot) → (xs ++ ys) ++ zs ≡ xs ++ (ys ++ zs)
append_assoc [] ys zs = refl
append_assoc (x ∷ xs) ys zs = ap (◌∷◌ x) (append_assoc xs ys zs)

module _ (tid : ℕ) where
  clean_loop_skip :
      (before : List Slot) (s : Slot) (ss : List Slot)
      → owned tid s ≡ false
      → clean_loop tid before (s ∷ ss) ≡ clean_loop tid (before ++ s ∷ []) ss
  unfolding clean_loop
  clean_loop_skip before s ss h = rw h

  clean_loop_hit :
      (before : List Slot) (s : Slot) (ss : List Slot)
      → owned tid s ≡ true
      → clean_loop tid before (s ∷ ss)
        ≡ before ++ (ss ++ record { sector = s.sector; upage = null_page; tid = 0 } ∷ [])
  unfolding clean_loop
  clean_loop_hit before s ss h = rw h

  clean_loop_first :
      (before front : List Slot) (s : Slot) (back : List Slot)
      → All (λ u. owned tid u ≡ false) front
      → owned tid s ≡ true
      → clean_loop tid before (front ++ s ∷ back)
        ≡ before
          ++ (front ++ (back ++ record { sector = s.sector; upage = null_page; tid = 0 } ∷ []))
  clean_loop_first before [] s back a h = clean_loop_hit before s back h
  clean_loop_first before (u ∷ us) s back a h =
      clean_loop_skip before u (us ++ s ∷ back) a.0
      ∙ clean_loop_first (before ++ u ∷ []) us s back a.1 h
      ∙ append_assoc before (u ∷ [])
          (us ++ (back ++ record { sector = s.sector; upage = null_page; tid = 0 } ∷ []))

-- clean_swap frees the first slot that holds a page of the thread and moves it to the back. It frees no
-- other: further slots with pages of the thread keep them.
pub clean_swap_first {ℓ} :
    {A : Type ℓ} (w : Swap A) (tid : ℕ) (front : List Slot) (s : Slot) (back : List Slot)
    → w.swap_list ≡ front ++ s ∷ back
    → All (λ u. owned tid u ≡ false) front
    → owned tid s ≡ true
    → (clean_swap w tid).swap_list
      ≡ front ++ (back ++ record { sector = s.sector; upage = null_page; tid = 0 } ∷ [])
unfolding clean_swap
clean_swap_first w tid front s back e a h = rw e (clean_loop_first tid [] front s back a h)
