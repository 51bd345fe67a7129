-- ===== src/CString.antt =====
-- Strings of the kernel, and calls that may fail for want of memory: strtok_r of
-- pintos/src/lib/string.c, and the outcomes of malloc.
-- A string is the list of its character codes without the terminator; a pointer to one is an
-- `Option`, `none` being NULL.
pub mod Tokens
pub mod Chars
use Prim.Native.Char.{code}
use Prim.Native.String.{String}
use course_cs439_operating_s.Base.{
  ℕ, zero, suc, Bool, true, false, ◌||◌, Option, none, some, List, [], ◌∷◌, ◌==◌, if◌then◌else◌,
  length,
}

abbrev pub Str : Type 0
Str = List ℕ

abbrev pub codes : String → Str
codes String.[] = []
codes (String.◌∷◌ c s) = code c ∷ codes s

abbrev pub Ptr : Type 0
Ptr = Option Str

-- Outcomes of the calls of malloc to come; past the end of the list every call succeeds.
abbrev pub Memory : Type 0
Memory = List Bool

-- `panic` is a failed ASSERT, `fault` an access out of bounds.
pub data Run (A : Type 0) : Type 0 where
  ok : A → Memory → Run A
  panic : Run A
  fault : Run A

abbrev pub Cmd : Type 0 → Type 0
Cmd A = Memory → Run A

abbrev pub pure : {A : Type 0} → A → Cmd A
pure = ok

abbrev pub and_then : {A B : Type 0} → Run A → (A → Cmd B) → Run B
and_then (ok a m) k = k a m
and_then panic k = panic
and_then fault k = fault

infixl 5 ◌>>=◌
abbrev pub ◌>>=◌ : {A B : Type 0} → Cmd A → (A → Cmd B) → Cmd B
◌>>=◌ m k s = and_then (m s) k

-- Whether the next malloc succeeds.
unfoldable pub malloc : Cmd Bool
malloc [] = ok true []
malloc (b ∷ m) = ok b m

-- malloc for a copy of a string, and the strlcpy that fills it; NULL if there is no memory.
unfoldable pub copy : Str → Cmd Ptr
unfolding malloc
copy s = do got ← malloc; pure (if got then some s else none)

-- strchr (delimiters, c) for a character that is not the terminator.
pub is_delimiter : Str → ℕ → Bool
is_delimiter [] c = false
is_delimiter (d ∷ ds) c = (d == c) || is_delimiter ds c

-- The first loop of strtok_r: past the delimiters at the current position.
pub skip_delimiters : Str → Str → Str
skip_delimiters ds [] = []
skip_delimiters ds (c ∷ s) = if is_delimiter ds c then skip_delimiters ds s else c ∷ s

-- The second loop: the token, and the position behind the delimiter that ends it.
pub scan_token : Str → Str → Str × Str
scan_token ds [] = ([], [])
scan_token ds (c ∷ s) =
    if is_delimiter ds c then ([], s) else (c ∷ (scan_token ds s).0, (scan_token ds s).1)

-- The next token and the new `*save_ptr`; `none` is the null pointer at the end of the string.
pub strtok_r : Str → Str → Option (Str × Str)
unfolding skip_delimiters scan_token is_delimiter
strtok_r ds s = elim (skip_delimiters ds s) [ [] ↦ none | c ∷ r ↦ some (scan_token ds (c ∷ r)) ]

-- `for (token = strtok_r (s, ds, &save_ptr); token != NULL; token = strtok_r (NULL, ds, &save_ptr))`:
-- the tokens in turn. A round of fuel is enough for each character.
pub tokens_loop : ℕ → Str → Str → List Str
tokens_loop zero ds s = []
tokens_loop (suc fuel) ds s = elim (strtok_r ds s) [
  | none ↦ []
  | some (token, rest) ↦ token ∷ tokens_loop fuel ds rest
]

unfoldable pub tokens : Str → Str → List Str
unfolding tokens_loop strtok_r
tokens ds s = tokens_loop (length s) ds s
