-- ===== src/Directory/Names.antt =====
-- What the loops over a directory in pintos/src/filesys/directory.c find.
use course_cs439_operating_s.Base.{
  ℕ, zero, suc, ◌+◌, ◌≤◌, ◌≡◌, refl, sym, ap, ◌∙◌, inl, inr, Bool, true, false, ◌&&◌, Option, none,
  some, List, [], ◌∷◌, arith, if◌then◌else◌, Bool-cases, length,
}
use course_cs439_operating_s.CString.{Str}
use course_cs439_operating_s.Directory.{DirEntry, equal, cut, lookup_loop, free_slot, write_entry}

pub equal_refl : (a : Str) → equal a a ≡ true
unfolding equal
equal_refl [] = refl
equal_refl (c ∷ a) = ground (arith, equal_refl a)

pub equal_sound : (a b : Str) → equal a b ≡ true → a ≡ b
unfolding equal
equal_sound [] [] h = refl
equal_sound [] (d ∷ b) h = absurd cc
equal_sound (c ∷ a) [] h = absurd cc
equal_sound (c ∷ a) (d ∷ b) h = ground (arith, h, equal_sound a b)

pub cut-short : (n : ℕ) (s : Str) → length s ≤ n → cut n s ≡ s
unfolding cut
cut-short zero [] h = refl
cut-short zero (c ∷ s) h = absurd (omega (arith, h))
cut-short (suc n) [] h = refl
cut-short (suc n) (c ∷ s) h = ap (◌∷◌ c) (cut-short n s (omega (arith, h)))

pub length-cut : (n : ℕ) (s : Str) → length (cut n s) ≤ n
unfolding cut
length-cut zero s = omega arith
length-cut (suc n) [] = omega arith
length-cut (suc n) (c ∷ s) = omega (arith, length-cut n s)

-- The directory as a map from names.
unfoldable pub find : List DirEntry → Str → Option DirEntry
find [] name = none
find (e ∷ es) name =
    let rest = find es name in if e.in_use && equal name e.name then some e else rest

-- The search with a new entry in the first free slot.
unfoldable pub fill : List DirEntry → DirEntry → List DirEntry
fill [] e = e ∷ []
fill (x ∷ xs) e = let rest = fill xs e in if x.in_use then x ∷ rest else e ∷ xs

-- The first entry of a name not in use any more.
unfoldable pub clear : List DirEntry → Str → List DirEntry
clear [] name = []
clear (x ∷ xs) name =
    let rest = clear xs name in
    if x.in_use && equal name x.name then record x { in_use = false } ∷ xs else x ∷ rest

free_slot-le :
    (ofs : ℕ) (es : List DirEntry) → (ofs ≤ free_slot ofs es) × (free_slot ofs es ≤ ofs + length es)
unfolding free_slot
free_slot-le ofs [] = (omega arith, omega arith)
free_slot-le ofs (e ∷ es) =
    let (low, high) = free_slot-le (suc ofs) es in (ground (arith, low), ground (arith, high))

free_slot-suc : (ofs : ℕ) (es : List DirEntry) → free_slot (suc ofs) es ≡ suc (free_slot ofs es)
unfolding free_slot
free_slot-suc ofs [] = refl
free_slot-suc ofs (e ∷ es) = ground (arith, free_slot-suc (suc ofs) es)

write_entry-suc :
    (x : DirEntry) (xs : List DirEntry) (ofs : ℕ) (e : DirEntry)
    → write_entry (x ∷ xs) (suc ofs) e ≡ x ∷ write_entry xs ofs e
unfolding write_entry
write_entry-suc x xs ofs e = ground arith

free_slot-used :
    (x : DirEntry) (xs : List DirEntry)
    → x.in_use ≡ true
    → free_slot 0 (x ∷ xs) ≡ suc (free_slot 0 xs)
unfolding free_slot
free_slot-used x xs h = ground (arith, h, free_slot-suc 0 xs)

free_slot-free : (x : DirEntry) (xs : List DirEntry) → x.in_use ≡ false → free_slot 0 (x ∷ xs) ≡ 0
unfolding free_slot
free_slot-free x xs h = ground (arith, h)

fill-used :
    (x : DirEntry) (xs : List DirEntry) (e : DirEntry)
    → x.in_use ≡ true
    → fill (x ∷ xs) e ≡ x ∷ fill xs e
unfolding fill
fill-used x xs e h = ground (arith, h)

fill-free :
    (x : DirEntry) (xs : List DirEntry) (e : DirEntry) → x.in_use ≡ false → fill (x ∷ xs) e ≡ e ∷ xs
unfolding fill
fill-free x xs e h = ground (arith, h)

write_entry-zero :
    (x : DirEntry) (xs : List DirEntry) (e : DirEntry) → write_entry (x ∷ xs) 0 e ≡ e ∷ xs
unfolding write_entry
write_entry-zero x xs e = ground arith

-- Writing into the free slot fills it.
pub write-fill : (es : List DirEntry) (e : DirEntry) → write_entry es (free_slot 0 es) e ≡ fill es e
unfolding free_slot fill write_entry
write-fill [] e = ground arith
write-fill (x ∷ xs) e = elim (Bool-cases x.in_use) [
  | inl used ↦
      ap (λ i. write_entry (x ∷ xs) i e) (free_slot-used x xs used)
      ∙ write_entry-suc x xs (free_slot 0 xs) e
      ∙ ap (◌∷◌ x) (write-fill xs e)
      ∙ sym (fill-used x xs e used)
  | inr free ↦
      ap (λ i. write_entry (x ∷ xs) i e) (free_slot-free x xs free)
      ∙ write_entry-zero x xs e
      ∙ sym (fill-free x xs e free)
]

abbrev matches : Str → DirEntry → Bool
matches name x = x.in_use && equal name x.name

pub find-match :
    (x : DirEntry) (xs : List DirEntry) (name : Str)
    → matches name x ≡ true
    → find (x ∷ xs) name ≡ some x
unfolding find
find-match x xs name h = ground (arith, h)

pub find-other :
    (x : DirEntry) (xs : List DirEntry) (name : Str)
    → matches name x ≡ false
    → find (x ∷ xs) name ≡ find xs name
unfolding find
find-other x xs name h = ground (arith, h)

-- An entry in use whose name was not there is found by its name.
pub find-fill :
    (es : List DirEntry) (e : DirEntry) (name : Str)
    → e.in_use ≡ true
    → find es e.name ≡ none
    → find (fill es e) name ≡ (if equal name e.name then some e else find es name)
unfolding find fill
find-fill [] e name u absent = ground (arith, u)
find-fill (x ∷ xs) e name u absent = elim (Bool-cases x.in_use) [
  | inr free ↦ ground (arith, free, u)
  | inl used ↦ elim (Bool-cases (equal e.name x.name)) [
    | inl same ↦ absurd (ground (arith, used, same, absent))
    | inr apart ↦ elim (Bool-cases (equal name e.name)) [
      | inl here ↦
          let eq : name ≡ e.name = equal_sound name e.name here in
          ground (arith, used, apart, here, eq, absent, find-fill xs e name u)
      | inr other ↦ ground (arith, used, apart, other, absent, find-fill xs e name u)
    ]
  ]
]

-- The loop of lookup finds what `find` does, at an index that holds it.
pub lookup_loop-find :
    (name : Str) (i : ℕ) (es : List DirEntry) → find es name ≡ none → lookup_loop name i es ≡ none
unfolding lookup_loop find
lookup_loop-find name i [] h = refl
lookup_loop-find name i (e ∷ es) h = ground (arith, h, lookup_loop-find name (suc i) es)

pub clear-match :
    (x : DirEntry) (xs : List DirEntry) (name : Str)
    → matches name x ≡ true
    → clear (x ∷ xs) name ≡ record x { in_use = false } ∷ xs
unfolding clear
clear-match x xs name h = ground (arith, h)

pub clear-other :
    (x : DirEntry) (xs : List DirEntry) (name : Str)
    → matches name x ≡ false
    → clear (x ∷ xs) name ≡ x ∷ clear xs name
unfolding clear
clear-other x xs name h = ground (arith, h)

lookup_loop-match :
    (x : DirEntry) (xs : List DirEntry) (name : Str) (i : ℕ)
    → matches name x ≡ true
    → lookup_loop name i (x ∷ xs) ≡ some (x, i)
unfolding lookup_loop
lookup_loop-match x xs name i h = ground (arith, h)

lookup_loop-other :
    (x : DirEntry) (xs : List DirEntry) (name : Str) (i : ℕ)
    → matches name x ≡ false
    → lookup_loop name i (x ∷ xs) ≡ lookup_loop name (suc i) xs
unfolding lookup_loop
lookup_loop-other x xs name i h = ground (arith, h)

-- Where `find` finds an entry, the loop of lookup finds it and its index, and taking it out of use there
-- clears it.
pub lookup_loop-some :
    (name : Str) (i : ℕ) (es : List DirEntry) (e : DirEntry)
    → find es name ≡ some e
    → (j : ℕ) × (lookup_loop name i es ≡ some (e, i + j))
      × (write_entry es j (record e { in_use = false }) ≡ clear es name)
unfolding find
lookup_loop-some name i [] e h = absurd cc
lookup_loop-some name i (x ∷ xs) e h = elim (Bool-cases (matches name x)) [
  | inl here ↦
      let same : x ≡ e = ground (arith, find-match x xs name here, h) in
      (
        0,
        lookup_loop-match x xs name i here
            ∙ ap (λ y. some (y, i)) same
            ∙ ap (λ k. some (e, k)) (omega arith),
        write_entry-zero x xs _
            ∙ ap (λ (y : DirEntry). record y { in_use = false } ∷ xs) (sym same)
            ∙ sym (clear-match x xs name here),
      )
  | inr away ↦
      let (j, found, write) =
        lookup_loop-some name (suc i) xs e (sym (find-other x xs name away) ∙ h) in
      (
        suc j,
        lookup_loop-other x xs name i away ∙ found ∙ ap (λ k. some (e, k)) (omega arith),
        write_entry-suc x xs j _ ∙ ap (◌∷◌ x) write ∙ sym (clear-other x xs name away),
      )
]
