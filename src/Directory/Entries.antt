-- ===== src/Directory/Entries.antt =====
-- The entries that lookup of pintos/src/filesys/directory.c finds, in a directory with one of them written.
use mathlib.Core.Path.{subst}
use course_cs439_operating_s.Base.{
  ℕ, ◌≡◌, refl, sym, ap, ◌∙◌, inl, inr, Bool, true, false, ◌&&◌, Option, none, some, List, [], ◌∷◌,
  arith, if◌then◌else◌, Bool-cases, Option-cases,
}
use course_cs439_operating_s.CString.{Str}
use course_cs439_operating_s.Path.{path_isvalid}
use course_cs439_operating_s.Directory.{DirEntry, equal, lookup}
use course_cs439_operating_s.Directory.Names.{
  equal_refl, equal_sound, find, fill, clear, find-match, find-other, find-fill, lookup_loop-find,
  lookup_loop-some, clear-match, clear-other,
}

-- No two entries in use have one name.
abbrev pub IsUnique : List DirEntry → Type 0
IsUnique [] = Unit {0}
IsUnique (x ∷ xs) = (x.in_use ≡ true → find xs x.name ≡ none) × IsUnique xs

abbrev pub entry : Option (DirEntry × ℕ) → Option DirEntry
entry none = none
entry (some (e, ofs)) = some e

equal_symmetric : (a b : Str) → equal a b ≡ false → equal b a ≡ false
equal_symmetric a b h = elim (Bool-cases (equal b a)) [
  | inr apart ↦ apart
  | inl same ↦
      let e : b ≡ a = equal_sound b a same in
      absurd (ground (arith, h, ap (λ c. equal a c) e, equal_refl a))
]

-- lookup of a valid name finds the entry in use that has it.
pub entry-lookup :
    (dir : List DirEntry) (name : Str)
    → path_isvalid (some name) ≡ true
    → entry (lookup dir name) ≡ find dir name
unfolding lookup
entry-lookup dir name v = elim (Option-cases (find dir name)) [
  | inl nothing ↦ rw v (ap entry (lookup_loop-find name 0 dir nothing) ∙ sym nothing)
  | inr (e, found) ↦
      let (j, looked, _) = lookup_loop-some name 0 dir e found in rw v (ap entry looked ∙ sym found)
]

pub IsUnique-fill :
    (es : List DirEntry) (e : DirEntry)
    → e.in_use ≡ true
    → find es e.name ≡ none
    → IsUnique es
    → IsUnique (fill es e)
unfolding fill find
IsUnique-fill [] e u absent d = ((λ _. refl), tt)
IsUnique-fill (x ∷ xs) e u absent d = used x.in_use refl (λ h. IsUnique-fill xs e u h d.1)
  where
    later : (x.in_use && equal e.name x.name) ≡ false
    later = elim (Bool-cases (x.in_use && equal e.name x.name)) [
      | inr away ↦ away
      | inl here ↦ absurd (ground (arith, find-match x xs e.name here, absent))
    ]

    rest_absent : find xs e.name ≡ none
    rest_absent = sym (find-other x xs e.name later) ∙ absent

    used :
        (b : Bool)
        → x.in_use ≡ b
        → (find xs e.name ≡ none → IsUnique (fill xs e))
        → IsUnique (if b then x ∷ fill xs e else e ∷ xs)
    used false h ih = ((λ _. rest_absent), d.1)
    used true h ih =
        let apart : equal x.name e.name ≡ false =
          equal_symmetric e.name x.name (ground (arith, h, later)) in
        ((λ k. find-fill xs e x.name u rest_absent ∙ rw apart (d.0 k)), ih rest_absent)

abbrev matches : Str → DirEntry → Bool
matches name x = x.in_use && equal name x.name

-- The names that are left.
pub find-clear :
    (es : List DirEntry) (name other : Str)
    → IsUnique es
    → find (clear es name) other ≡ (if equal other name then none else find es other)
unfolding find clear
find-clear [] name other d = ground arith
find-clear (x ∷ xs) name other d = elim (Bool-cases (matches name x)) [
  | inl here ↦
      let eq : name ≡ x.name = equal_sound name x.name (ground (arith, here)) in
      let used : x.in_use ≡ true = ground (arith, here) in
      ap (λ es. find es other) (clear-match x xs name here) ∙ elim (Bool-cases (equal other name)) [
        | inl same ↦
            let eq2 : other ≡ name = equal_sound other name same in
            rw same (ap (find xs) (eq2 ∙ eq) ∙ d.0 used)
        | inr apart ↦
            rw apart
              (sym (find-other x xs other (ground (arith, used, apart, ap (equal other) eq))))
      ]
  | inr away ↦
      ap (λ es. find es other) (clear-other x xs name away) ∙ elim (Bool-cases (matches other x)) [
        | inl mine ↦
            let eq : other ≡ x.name = equal_sound other x.name (ground (arith, mine)) in
            let apart : equal other name ≡ false =
              equal_symmetric name other (ap (equal name) eq ∙ ground (arith, away, mine)) in
            find-match x (clear xs name) other mine
            ∙ sym (find-match x xs other mine)
            ∙ rw apart refl
        | inr not_mine ↦
            find-other x (clear xs name) other not_mine
            ∙ find-clear xs name other d.1
            ∙ ap (λ o. if equal other name then none else o) (sym (find-other x xs other not_mine))
      ]
]

pub IsUnique-clear : (es : List DirEntry) (name : Str) → IsUnique es → IsUnique (clear es name)
unfolding clear
IsUnique-clear [] name d = tt
IsUnique-clear (x ∷ xs) name d = elim (Bool-cases (matches name x)) [
  | inl here ↦ subst IsUnique (sym (clear-match x xs name here)) ((λ h. absurd cc), d.1)
  | inr away ↦ subst IsUnique (sym (clear-other x xs name away)) (
    (λ h. find-clear xs name x.name d.1 ∙ elim (Bool-cases (equal x.name name)) [
      | inl same ↦ rw same refl
      | inr apart ↦ rw apart (d.0 h)
    ]),
    IsUnique-clear xs name d.1,
  )
]
