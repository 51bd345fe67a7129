-- ===== src/CString/Chars.antt =====
-- The characters of the tokens that strtok_r of pintos/src/lib/string.c finds.
use course_cs439_operating_s.Base.{
  ℕ, zero, suc, inl, inr, Option, none, some, [], ◌∷◌, arith, ◌==◌, Bool-cases, length, All,
}
use course_cs439_operating_s.CString.{Str, is_delimiter, scan_token, strtok_r, tokens_loop, tokens}
use course_cs439_operating_s.CString.Tokens.{
  strtok-nil, strtok_skip, strtok_start, continue, loop_suc,
}

module _ (d : ℕ) (P : ℕ → Type 0) where
  scan-All : (s : Str) → All P s → All P (scan_token (d ∷ []) s).0 × All P (scan_token (d ∷ []) s).1
  unfolding scan_token is_delimiter
  scan-All [] h = (tt, tt)
  scan-All (c ∷ s) h = ground (arith, scan-All s h.1)

  abbrev Both : Option (Str × Str) → Type 0
  Both none = Unit {0}
  Both (some (t, rest)) = All P t × All P rest

  strtok-Both : (s : Str) → All P s → Both (strtok_r (d ∷ []) s)
  strtok-Both [] h = rw (strtok-nil d) tt
  strtok-Both (c ∷ s) h = elim (Bool-cases (d == c)) [
    | inl hit ↦ rw (strtok_skip d c s hit) (strtok-Both s h.1)
    | inr miss ↦ rw (strtok_start d c s miss) (scan-All (c ∷ s) h)
  ]

  continue-All :
      (fuel : ℕ) (r : Option (Str × Str))
      → Both r
      → ((rest : Str) → All P rest → All (All P) (tokens_loop fuel (d ∷ []) rest))
      → All (All P) (continue d fuel r)
  continue-All fuel none b next = tt
  continue-All fuel (some (t, rest)) b next = (b.0, next rest b.1)

  loop-All : (fuel : ℕ) (s : Str) → All P s → All (All P) (tokens_loop fuel (d ∷ []) s)
  unfolding tokens_loop
  loop-All zero s h = tt
  loop-All (suc fuel) s h =
      rw loop_suc (continue-All fuel (strtok_r (d ∷ []) s) (strtok-Both s h) (loop-All fuel))

  -- The characters of the tokens are characters of the string.
  pub tokens-All : (s : Str) → All P s → All (All P) (tokens (d ∷ []) s)
  unfolding tokens
  tokens-All s h = loop-All (length s) s h
