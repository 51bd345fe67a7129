-- ===== src/Swap/Tests.antt =====
-- Runs of the swap code on a disk of 24 sectors that holds the pages 100 and 200 of the thread 7.
use course_cs439_operating_s.Base.{
  ℕ, ◌+◌, ◌<◌, ◌≡◌, refl, true, none, some, [], ◌∷◌, arith, ◌==◌, if◌then◌else◌,
}
use course_cs439_operating_s.Swap.{
  Page, sectors_per_page, Slot, Swap, pop_back, make_slot, get_free_slot, push_to_swap,
  get_swapped_page, pull_from_swap, clean_swap,
}
use course_cs439_operating_s.Swap.Clean.{clean_swap_first}
use course_cs439_operating_s.Swap.RoundTrip.{Holds, push-pull}

abbrev slot : ℕ → Page → Slot
slot sector p = record { sector = sector; upage = p; tid = 7 }

-- The frame of the page `p` holds p + i in its sector i.
abbrev used : Swap ℕ
used = record {
  swap_size = 24;
  next_sector = 16;
  swap_list = slot 8 200 ∷ slot 0 100 ∷ [];
  disk = λ k. k;
  frames = λ p i. p + i;
  swap_of = λ p. if p == 100 then some 0 else if p == 200 then some 8 else none;
}

abbrev used' : Swap ℕ
used' = record used { next_sector = 24 }

free_found :
    get_free_slot true used ≡ some (used', some (record { sector = 16; upage = 0; tid = 0 }))
unfolding get_free_slot make_slot pop_back
free_found = refl

full : get_free_slot true used' ≡ some (used', none)
unfolding get_free_slot make_slot pop_back
full = refl

Holds-100 : Holds used 100 (slot 0 100) (λ i. i)
unfolding get_swapped_page
Holds-100 = record { found = refl; page = refl; on_disk = λ i h. omega arith; fits = omega arith }

push-pull_example :
    (w : Swap ℕ) × (w' : Swap ℕ) × (push_to_swap true used 7 300 ≡ some (w, true))
    × (pull_from_swap (record w { frames = λ p i. 0 }) 300 ≡ some (w', true))
    × ((i : ℕ) → i < sectors_per_page → w'.frames 300 i ≡ used'.frames 300 i)
push-pull_example =
    push-pull true used used' 7 300 (record { sector = 16; upage = 0; tid = 0 }) (λ p i. 0)
      (λ e. absurd (omega arith)) free_found (omega arith)

clean_swap_first_example :
    (clean_swap used 7).swap_list ≡ slot 0 100 ∷ record { sector = 8; upage = 0; tid = 0 } ∷ []
clean_swap_first_example = clean_swap_first used 7 [] (slot 8 200) (slot 0 100 ∷ []) refl tt refl
