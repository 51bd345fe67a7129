-- ===== src/Swap/RoundTrip.antt =====
-- A page pushed to swap and pulled back: push_to_swap and pull_from_swap of pintos/src/vm/swap.c.
use course_cs439_operating_s.Base.{
  ℕ, ◌+◌, ◌≤◌, ◌<◌, ◌≡◌, refl, ap, ◌∙◌, ◌≢◌, ◌⊎◌, inl, inr, Bool, true, false, none, some, List,
  ◌∷◌, arith, ◌==◌, ==_refl,
}
use course_cs439_operating_s.Swap.{
  Page, null_page, sectors_per_page, Slot, Swap, put, write_sectors, read_sectors, get_free_slot,
  push_to_swap, get_swapped_page, rotate, pull_from_swap,
}
use course_cs439_operating_s.Swap.Sectors.{
  put_self, put_ne, write_sectors-Written, read_sectors_lem,
}

found_first :
    (s : Slot) (ss : List Slot) → s.upage ≢ null_page → get_swapped_page (s ∷ ss) s.upage ≡ some s
unfolding get_swapped_page
found_first s ss real =
    let nonnull : (s.upage == null_page) ≡ false = ground arith in rw (nonnull, ==_refl s.upage)

module _ {ℓ} {A : Type ℓ} where
  -- The page `p` is in the swap slot `s`, whose sectors hold `content`.
  pub record Holds (w : Swap A) (p : Page) (s : Slot) (content : ℕ → A) : Type ℓ where
    pub found : get_swapped_page w.swap_list p ≡ some s
    pub page : s.upage ≡ p
    pub on_disk : (i : ℕ) → i < sectors_per_page → w.disk (s.sector + i) ≡ content i
    pub fits : s.sector + sectors_per_page ≤ w.swap_size

  push_eq :
      (ok : Bool) (w w' : Swap A) (page_tid : ℕ) (p : Page) (slot : Slot) (disk : ℕ → A)
      → get_free_slot ok w ≡ some (w', some slot)
      → write_sectors sectors_per_page w'.swap_size w'.disk slot.sector (w'.frames p) 0 ≡ some disk
      → push_to_swap ok w page_tid p
        ≡ some (
          record w' {
            disk = disk;
            swap_of = put w'.swap_of p (some slot.sector);
            swap_list = record { sector = slot.sector; upage = p; tid = page_tid } ∷ w'.swap_list;
          },
          true,
        )
  unfolding push_to_swap
  push_eq ok w w' page_tid p slot disk free written = rw (push_to_swap, free, written)

  -- If get_free_slot gives a slot whose sectors are on the disk, push_to_swap of a page succeeds; it is then
  -- in that slot with the contents of its frame, the page points to the slot, and every
  -- sector outside the slot is as it was.
  pub push_to_swap-Holds :
      (ok : Bool) (w w' : Swap A) (page_tid : ℕ) (p : Page) (slot : Slot)
      → p ≢ null_page
      → get_free_slot ok w ≡ some (w', some slot)
      → slot.sector + sectors_per_page ≤ w'.swap_size
      → (w'' : Swap A) × (push_to_swap ok w page_tid p ≡ some (w'', true))
        × Holds w'' p (record { sector = slot.sector; upage = p; tid = page_tid }) (w'.frames p)
        × (w''.swap_of p ≡ some slot.sector)
        × ((k : ℕ)
            → (k < slot.sector) ⊎ (slot.sector + sectors_per_page ≤ k)
            → w''.disk k ≡ w'.disk k)
  push_to_swap-Holds ok w w' page_tid p slot real free fits =
      let (disk, written, d) =
        write_sectors-Written sectors_per_page w'.swap_size w'.disk slot.sector (w'.frames p) 0
          (omega arith) in
      let mine : Slot = record { sector = slot.sector; upage = p; tid = page_tid } in
      (
        _,
        push_eq ok w w' page_tid p slot disk free written,
        record {
          found = found_first mine w'.swap_list real;
          page = refl;
          on_disk = λ i h. d.inside i (omega arith) (omega arith);
          fits = fits;
        },
        put_self w'.swap_of p (some slot.sector),
        λ k h. elim h [ inl lt ↦ d.below k (omega arith) | inr ge ↦ d.above k (omega arith) ],
      )

  pull_eq :
      (w : Swap A) (p : Page) (s : Slot) (kpage : ℕ → A)
      → get_swapped_page w.swap_list p ≡ some s
      → read_sectors sectors_per_page w.swap_size w.disk s.sector (w.frames s.upage) 0 ≡ some kpage
      → pull_from_swap w p
        ≡ some (rotate (record w { frames = put w.frames s.upage kpage }) s, true)
  unfolding pull_from_swap
  pull_eq w p s kpage found read = rw (pull_from_swap, found, read)

  frames_of :
      (w : Swap A) (s : Slot) (p : Page) (kpage : ℕ → A)
      → s.upage ≡ p
      → (rotate (record w { frames = put w.frames s.upage kpage }) s).frames p ≡ kpage
  unfolding rotate
  frames_of w s p kpage e = rw e (put_self w.frames p kpage)

  frames_ne :
      (w : Swap A) (s : Slot) (p q : Page) (kpage : ℕ → A)
      → s.upage ≡ p
      → p ≢ q
      → (rotate (record w { frames = put w.frames s.upage kpage }) s).frames q ≡ w.frames q
  unfolding rotate
  frames_ne w s p q kpage e h = rw e (put_ne w.frames kpage h)

  unlinked :
      (w : Swap A) (s : Slot) (p : Page) (kpage : ℕ → A)
      → s.upage ≡ p
      → (rotate (record w { frames = put w.frames s.upage kpage }) s).swap_of p ≡ none
  unfolding rotate
  unlinked w s p kpage e = rw e (put_self w.swap_of p none)

  -- pull_from_swap of a page that is in a slot succeeds: the page's frame holds what the slot held, other
  -- pages' frames are as they were, and the page points to no slot.
  pub pull_from_swap_lem :
      (w : Swap A) (p : Page) (s : Slot) (content : ℕ → A)
      → Holds w p s content
      → (w' : Swap A) × (pull_from_swap w p ≡ some (w', true))
        × ((i : ℕ) → i < sectors_per_page → w'.frames p i ≡ content i)
        × ((q : Page) → p ≢ q → w'.frames q ≡ w.frames q)
        × (w'.swap_of p ≡ none)
  pull_from_swap_lem w p s content h =
      let (kpage, read, inside, _) =
        read_sectors_lem sectors_per_page w.swap_size w.disk s.sector (w.frames s.upage) 0
          (omega (arith, h.fits)) in
      (
        _,
        pull_eq w p s kpage h.found read,
        λ i lt.
            ap (λ f. f i) (frames_of w s p kpage h.page)
            ∙ inside i (omega arith) (omega arith)
            ∙ h.on_disk i lt,
        λ q ne. frames_ne w s p q kpage h.page ne,
        unlinked w s p kpage h.page,
      )

  -- If get_free_slot gives a slot whose sectors are on the disk, push_to_swap of a page succeeds, and
  -- pull_from_swap then succeeds and brings back what the page's frame held, whatever the frames hold in
  -- between.
  pub push-pull :
      (ok : Bool) (w w' : Swap A) (page_tid : ℕ) (p : Page) (slot : Slot) (frames : Page → ℕ → A)
      → p ≢ null_page
      → get_free_slot ok w ≡ some (w', some slot)
      → slot.sector + sectors_per_page ≤ w'.swap_size
      → (w'' : Swap A) × (w''' : Swap A) × (push_to_swap ok w page_tid p ≡ some (w'', true))
        × (pull_from_swap (record w'' { frames = frames }) p ≡ some (w''', true))
        × ((i : ℕ) → i < sectors_per_page → w'''.frames p i ≡ w'.frames p i)
  push-pull ok w w' page_tid p slot frames real free fits =
      let (w'', pushed, h, _, _) = push_to_swap-Holds ok w w' page_tid p slot real free fits in
      let mine : Slot = record { sector = slot.sector; upage = p; tid = page_tid } in
      let later : Holds (record w'' { frames = frames }) p mine (w'.frames p) = record {
        found = h.found;
        page = h.page;
        on_disk = h.on_disk;
        fits = h.fits;
      } in
      let (w''', pulled, same, _, _) =
        pull_from_swap_lem (record w'' { frames = frames }) p mine (w'.frames p) later in
      (w'', w''', pushed, pulled, same)
