-- ===== src/CString/Tokens.antt =====
-- The tokens that strtok_r finds with one delimiter: they are free of it,
-- and a string built from tokens is split into them again.
use course_cs439_operating_s.Base.{
  ℕ, zero, suc, ◌+◌, ◌≤◌, ◌<◌, ◌≡◌, refl, ap, sym, ◌∙◌, inl, inr, true, false, Option, none, some,
  List, [], ◌∷◌, ◌++◌, arith, ◌==◌, Bool-cases, Option-cases, length, length-append, All, ◌-◌,
  ==_refl,
}
use mathlib.Core.Path.{subst}
use mathlib.Core.List.{append-nil, append_assoc}
use course_cs439_operating_s.CString.{
  Str, is_delimiter, skip_delimiters, scan_token, strtok_r, tokens_loop, tokens,
}

module _ (d : ℕ) where
  -- No character of the string is the delimiter.
  abbrev pub Free : Str → Type 0
  Free s = All (λ c. (d == c) ≡ false) s

  abbrev pub IsToken : Str → Type 0
  IsToken t = (0 < length t) × Free t

  -- Each token behind a delimiter.
  unfoldable pub flat : List Str → Str
  flat [] = []
  flat (t ∷ ts) = d ∷ (t ++ flat ts)

  -- The position behind the delimiter that ended a token.
  abbrev behind : Str → Str
  behind [] = []
  behind (c ∷ s) = s

  skip-Free : (c : ℕ) (t s : Str) → (d == c) ≡ false → skip_delimiters (d ∷ []) (c ∷ s) ≡ c ∷ s
  unfolding skip_delimiters is_delimiter
  skip-Free c t s h = rw h

  scan-Free :
      (t : Str) (ts : List Str)
      → Free t
      → scan_token (d ∷ []) (t ++ flat ts) ≡ (t, behind (flat ts))
  unfolding scan_token is_delimiter flat
  scan-Free [] [] h = refl
  scan-Free [] (u ∷ us) h = ground arith
  scan-Free (c ∷ t) ts h = ground (arith, scan-Free t ts h.1)

  pub strtok-nil : strtok_r (d ∷ []) [] ≡ none
  unfolding strtok_r skip_delimiters
  strtok-nil = refl

  loop-nil : (fuel : ℕ) → tokens_loop fuel (d ∷ []) [] ≡ []
  unfolding tokens_loop strtok_r skip_delimiters
  loop-nil zero = refl
  loop-nil (suc fuel) = refl

  -- At the start of a string of tokens, and behind a delimiter in it, the next token is the first.
  strtok-flat :
      (t : Str) (ts : List Str)
      → IsToken t
      → strtok_r (d ∷ []) (flat (t ∷ ts)) ≡ some (t, behind (flat ts))
  unfolding strtok_r skip_delimiters is_delimiter flat
  strtok-flat [] ts h = absurd (omega arith)
  strtok-flat (c ∷ t) ts h = ground (arith, scan-Free (c ∷ t) ts h.1)

  strtok-behind :
      (t : Str) (ts : List Str)
      → IsToken t
      → strtok_r (d ∷ []) (behind (flat (t ∷ ts))) ≡ some (t, behind (flat ts))
  unfolding strtok_r skip_delimiters is_delimiter flat
  strtok-behind [] ts h = absurd (omega arith)
  strtok-behind (c ∷ t) ts h = ground (arith, scan-Free (c ∷ t) ts h.1)

  loop-behind :
      (fuel : ℕ) (ts : List Str)
      → All IsToken ts
      → length ts ≤ fuel
      → tokens_loop fuel (d ∷ []) (behind (flat ts)) ≡ ts
  unfolding tokens_loop flat
  loop-behind zero [] h k = refl
  loop-behind zero (t ∷ ts) h k = absurd (omega arith)
  loop-behind (suc fuel) [] h k = loop-nil (suc fuel)
  loop-behind (suc fuel) (t ∷ ts) h k =
      rw (strtok-behind t ts h.0, tokens_loop) (ap (◌∷◌ t) (loop-behind fuel ts h.1 (omega arith)))

  length-flat : (ts : List Str) → length ts ≤ length (flat ts)
  unfolding flat
  length-flat [] = omega arith
  length-flat (t ∷ ts) = omega (arith, length-append t (flat ts), length-flat ts)

  loop-flat :
      (fuel : ℕ) (ts : List Str)
      → All IsToken ts
      → length ts ≤ fuel
      → tokens_loop fuel (d ∷ []) (flat ts) ≡ ts
  unfolding tokens_loop flat
  loop-flat zero [] h k = refl
  loop-flat zero (t ∷ ts) h k = absurd (omega arith)
  loop-flat (suc fuel) [] h k = loop-nil (suc fuel)
  loop-flat (suc fuel) (t ∷ ts) h k =
      rw (strtok-flat t ts h.0, tokens_loop) (ap (◌∷◌ t) (loop-behind fuel ts h.1 (omega arith)))

  -- A string made of tokens, each behind a delimiter, is split into these tokens.
  pub tokens-flat : (ts : List Str) → All IsToken ts → tokens (d ∷ []) (flat ts) ≡ ts
  unfolding tokens
  tokens-flat ts h = loop-flat (length (flat ts)) ts h (length-flat ts)

  -- What strtok_r returns on any string: a token, and a shorter rest.
  abbrev Found : Str → Option (Str × Str) → Type 0
  Found s none = Unit {0}
  Found s (some (t, rest)) = IsToken t × (length rest < length s)

  scan-Found :
      (s : Str) → Free (scan_token (d ∷ []) s).0 × (length (scan_token (d ∷ []) s).1 ≤ length s)
  unfolding scan_token is_delimiter
  scan-Found [] = (tt, omega arith)
  scan-Found (c ∷ s) = ground (arith, scan-Found s)

  Found-mono : (s s' : Str) (r : Option (Str × Str)) → length s ≤ length s' → Found s r → Found s' r
  Found-mono s s' none k f = tt
  Found-mono s s' (some (t, rest)) k f = (f.0, omega arith)

  pub strtok_skip :
      (c : ℕ) (s : Str) → (d == c) ≡ true → strtok_r (d ∷ []) (c ∷ s) ≡ strtok_r (d ∷ []) s
  unfolding strtok_r skip_delimiters is_delimiter
  strtok_skip c s h = ground arith

  pub strtok_start :
      (c : ℕ) (s : Str)
      → (d == c) ≡ false
      → strtok_r (d ∷ []) (c ∷ s) ≡ some (scan_token (d ∷ []) (c ∷ s))
  unfolding strtok_r skip_delimiters is_delimiter
  strtok_start c s h = ground arith

  scan_start :
      (c : ℕ) (s : Str)
      → (d == c) ≡ false
      → scan_token (d ∷ []) (c ∷ s) ≡ (c ∷ (scan_token (d ∷ []) s).0, (scan_token (d ∷ []) s).1)
  unfolding scan_token is_delimiter
  scan_start c s h = ground arith

  strtok-Found : (s : Str) → Found s (strtok_r (d ∷ []) s)
  strtok-Found [] = rw strtok-nil tt
  strtok-Found (c ∷ s) = elim (Bool-cases (d == c)) [
    | inl hit ↦
        rw (strtok_skip c s hit)
          (Found-mono s (c ∷ s) (strtok_r (d ∷ []) s) (omega arith) (strtok-Found s))
    | inr miss ↦
        rw (strtok_start c s miss, scan_start c s miss)
          ((omega arith, (miss, (scan-Found s).0)), omega (arith, (scan-Found s).1))
  ]

  -- What the loop does with a token and its rest.
  abbrev pub continue : ℕ → Option (Str × Str) → List Str
  continue fuel none = []
  continue fuel (some (t, rest)) = t ∷ tokens_loop fuel (d ∷ []) rest

  pub loop_suc :
      (fuel : ℕ) (s : Str) → tokens_loop (suc fuel) (d ∷ []) s ≡ continue fuel (strtok_r (d ∷ []) s)
  unfolding tokens_loop
  loop_suc fuel s = refl

  continue-IsToken :
      (fuel : ℕ) (s : Str) (r : Option (Str × Str))
      → Found s r
      → ((rest : Str) → All IsToken (tokens_loop fuel (d ∷ []) rest))
      → All IsToken (continue fuel r)
  continue-IsToken fuel s none f next = tt
  continue-IsToken fuel s (some (t, rest)) f next = (f.0, next rest)

  loop-IsToken : (fuel : ℕ) (s : Str) → All IsToken (tokens_loop fuel (d ∷ []) s)
  unfolding tokens_loop
  loop-IsToken zero s = tt
  loop-IsToken (suc fuel) s =
      rw loop_suc
        (continue-IsToken fuel s (strtok_r (d ∷ []) s) (strtok-Found s) (loop-IsToken fuel))

  -- Every token is nonempty and free of the delimiter.
  pub tokens-IsToken : (s : Str) → All IsToken (tokens (d ∷ []) s)
  unfolding tokens
  tokens-IsToken s = loop-IsToken (length s) s

  continue_fuel :
      (fuel : ℕ) (s : Str) (r : Option (Str × Str))
      → Found s r
      → length s ≤ suc fuel
      → ((rest : Str)
          → length rest ≤ fuel
          → tokens_loop (suc fuel) (d ∷ []) rest ≡ tokens_loop fuel (d ∷ []) rest)
      → continue (suc fuel) r ≡ continue fuel r
  continue_fuel fuel s none f k next = refl
  continue_fuel fuel s (some (t, rest)) f k next = ap (◌∷◌ t) (next rest (omega arith))

  -- A round for each character is enough: one more changes nothing.
  tokens_loop_fuel :
      (fuel : ℕ) (s : Str)
      → length s ≤ fuel
      → tokens_loop (suc fuel) (d ∷ []) s ≡ tokens_loop fuel (d ∷ []) s
  tokens_loop_fuel zero [] k = loop-nil 1 ∙ sym (loop-nil 0)
  tokens_loop_fuel zero (c ∷ s) k = absurd (omega arith)
  tokens_loop_fuel (suc fuel) s k =
      rw (loop_suc (suc fuel) s, loop_suc fuel s)
        (continue_fuel fuel s (strtok_r (d ∷ []) s) (strtok-Found s) k (tokens_loop_fuel fuel))

  loop-more :
      (k fuel : ℕ) (s : Str)
      → length s ≤ fuel
      → tokens_loop (k + fuel) (d ∷ []) s ≡ tokens_loop fuel (d ∷ []) s
  loop-more zero fuel s h = ap (λ n. tokens_loop n (d ∷ []) s) (omega arith)
  loop-more (suc k) fuel s h =
      ap (λ n. tokens_loop n (d ∷ []) s) (omega arith)
      ∙ tokens_loop_fuel (k + fuel) s (omega arith)
      ∙ loop-more k fuel s h

  -- So any fuel that is at least the length gives the tokens.
  pub tokens_loop-tokens :
      (fuel : ℕ) (s : Str) → length s ≤ fuel → tokens_loop fuel (d ∷ []) s ≡ tokens (d ∷ []) s
  unfolding tokens
  tokens_loop-tokens fuel s h =
      ap (λ n. tokens_loop n (d ∷ []) s) (omega arith)
      ∙ loop-more (fuel - length s) (length s) s (omega arith)

  tokens_found :
      (s t rest : Str)
      → strtok_r (d ∷ []) s ≡ some (t, rest)
      → tokens (d ∷ []) s ≡ t ∷ tokens (d ∷ []) rest
  unfolding tokens
  tokens_found [] t rest h = ground (arith, strtok-nil)
  tokens_found (c ∷ s) t rest h =
      let shorter = subst (Found (c ∷ s)) h (strtok-Found (c ∷ s)) in
      rw (loop_suc (length s) (c ∷ s), h)
        (ap (◌∷◌ t) (tokens_loop-tokens (length s) rest (omega arith)))

  tokens-none : (s : Str) → strtok_r (d ∷ []) s ≡ none → tokens (d ∷ []) s ≡ []
  unfolding tokens
  tokens-none [] h = loop-nil 0
  tokens-none (c ∷ s) h = rw (loop_suc (length s) (c ∷ s), h)

  -- A leading delimiter makes no difference.
  pub tokens-skip : (s : Str) → tokens (d ∷ []) (d ∷ s) ≡ tokens (d ∷ []) s
  tokens-skip s = elim (Option-cases (strtok_r (d ∷ []) s)) [
    | inl e ↦ tokens-none (d ∷ s) (strtok_skip d s (==_refl d) ∙ e) ∙ sym (tokens-none s e)
    | inr ((t, rest), e) ↦
        tokens_found (d ∷ s) t rest (strtok_skip d s (==_refl d) ∙ e)
        ∙ sym (tokens_found s t rest e)
  ]

  scan-delimiter : (t r : Str) → Free t → scan_token (d ∷ []) (t ++ d ∷ r) ≡ (t, r)
  unfolding scan_token is_delimiter
  scan-delimiter [] r h = rw (==_refl d)
  scan-delimiter (c ∷ t) r h = ground (arith, scan-delimiter t r h.1)

  strtok-delimiter : (t r : Str) → IsToken t → strtok_r (d ∷ []) (t ++ d ∷ r) ≡ some (t, r)
  strtok-delimiter [] r h = absurd (omega arith)
  strtok-delimiter (c ∷ t) r h =
      strtok_start c (t ++ d ∷ r) h.1.0 ∙ ap some (scan-delimiter (c ∷ t) r h.1)

  -- The tokens of a string behind a string made of tokens.
  pub tokens-flat_append :
      (ts : List Str) (s : Str)
      → All IsToken ts
      → tokens (d ∷ []) (flat ts ++ d ∷ s) ≡ ts ++ tokens (d ∷ []) s
  unfolding flat
  tokens-flat_append [] s h = tokens-skip s
  tokens-flat_append (t ∷ []) s h =
      rw append-nil
        (tokens-skip (t ++ d ∷ s) ∙ tokens_found (t ++ d ∷ s) t s (strtok-delimiter t s h.0))
  tokens-flat_append (t ∷ u ∷ us) s h = rw append_assoc (
      tokens-skip (t ++ d ∷ ((u ++ flat us) ++ d ∷ s))
      ∙ tokens_found (t ++ d ∷ ((u ++ flat us) ++ d ∷ s)) t ((u ++ flat us) ++ d ∷ s)
          (strtok-delimiter t ((u ++ flat us) ++ d ∷ s) h.0)
      ∙ ap (◌∷◌ t)
          (sym (tokens-skip ((u ++ flat us) ++ d ∷ s)) ∙ tokens-flat_append (u ∷ us) s h.1))
