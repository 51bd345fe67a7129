-- ===== src/Intq/Fifo.antt =====
-- The bytes in an interrupt queue of pintos/src/devices/intq.c, first in, first out.
use course_cs439_operating_s.Base.{
  ℕ, zero, suc, ◌+◌, ◌%◌, ◌≤◌, ◌<◌, ◌≡◌, refl, sym, ap, ◌∙◌, ◌↔◌, true, false, some, List, [], ◌∷◌,
  ◌++◌, arith, ◌==◌, if◌then◌else◌, Bool-cases, inl, inr,
}
use course_cs439_operating_s.Thread.{null, Kernel}
use course_cs439_operating_s.Intq.{
  intq_bufsize, Intq, next, intq_empty, intq_full, signal, intq_getc, intq_putc,
}

-- The `n` bytes of a buffer from the position `i` on, around its end.
abbrev pub bytes_from : (ℕ → ℕ) → (i n : ℕ) → List ℕ
bytes_from buf i zero = []
bytes_from buf i (suc n) = buf i ∷ bytes_from buf (next i) n

-- The queue holds the bytes `bs`.
pub record Contains (q : Intq) (n : ℕ) (bs : List ℕ) : Type 0 where
  pub listed : bs ≡ bytes_from q.buf q.tail n
  pub small : n < intq_bufsize
  pub head_at : q.head ≡ (q.tail + n) % intq_bufsize
  pub tail_low : q.tail < intq_bufsize

after_next : (t n : ℕ) → t < intq_bufsize → (t + suc n) % intq_bufsize ≡ (next t + n) % intq_bufsize
after_next t n h = omega arith

bytes_from_snoc :
    (buf : ℕ → ℕ) (i n : ℕ)
    → i < intq_bufsize
    → bytes_from buf i (suc n) ≡ bytes_from buf i n ++ buf ((i + n) % intq_bufsize) ∷ []
bytes_from_snoc buf i zero h = let here : (i + 0) % intq_bufsize ≡ i = omega arith in rw here
bytes_from_snoc buf i (suc n) h = ap (◌∷◌ (buf i)) (
    bytes_from_snoc buf (next i) n (omega arith)
    ∙ ap (λ j. bytes_from buf (next i) n ++ buf j ∷ []) (sym (after_next i n h)))

-- A byte written in front of the head is none of those in the queue.
bytes_from-written :
    (buf : ℕ → ℕ) (byte h i n m : ℕ)
    → i < intq_bufsize
    → n ≤ m
    → m < intq_bufsize
    → h ≡ (i + m) % intq_bufsize
    → bytes_from (λ j. if j == h then byte else buf j) i n ≡ bytes_from buf i n
bytes_from-written buf byte h i zero m low le lt e = refl
bytes_from-written buf byte h i (suc n) zero low le lt e = absurd (omega arith)
bytes_from-written buf byte h i (suc n) (suc m) low le lt e =
    let apart : (i == h) ≡ false = elim (Bool-cases (i == h)) [
      | inr ne ↦ ne
      | inl same ↦ let i_h : i ≡ h = ground arith in absurd (omega (arith, i_h, e))
    ] in
    rw apart (
      ap (◌∷◌ (buf i)) (
        bytes_from-written buf byte h (next i) n m (omega arith) (omega arith) (omega arith)
          (e ∙ after_next i m low)))

-- A queue of fewer than 64 bytes is empty exactly if it holds none, and full exactly if it holds 63.
pub intq_empty-full_iff :
    (q : Intq) (n : ℕ) (bs : List ℕ)
    → Contains q n bs
    → ((intq_empty q ≡ true) ↔ (n ≡ 0)) × ((intq_full q ≡ true) ↔ (suc n ≡ intq_bufsize))
unfolding intq_empty intq_full
intq_empty-full_iff q n bs c = (
  (
    λ h. let e : q.head ≡ q.tail = ground arith in omega (arith, e, c.head_at, c.small, c.tail_low),
    λ h. let e : q.head ≡ q.tail = omega (arith, c.head_at, c.tail_low) in ground (arith, e),
  ),
  (
    λ h.
        let e : next q.head ≡ q.tail = ground arith in
        omega (arith, e, c.head_at, c.small, c.tail_low),
    λ h. let e : next q.head ≡ q.tail = omega (arith, c.head_at, c.tail_low) in ground (arith, e),
  ),
)

getc_eq :
    (k k' : Kernel) (q : Intq)
    → intq_empty q ≡ false
    → signal k q.not_full ≡ some k'
    → intq_getc k q ≡ some (k', record q { tail = next q.tail; not_full = null }, q.buf q.tail)
unfolding intq_getc
getc_eq k k' q e s = rw (intq_getc, e, s)

putc_eq :
    (k k' : Kernel) (q : Intq) (byte : ℕ)
    → intq_full q ≡ false
    → signal k q.not_empty ≡ some k'
    → intq_putc k q byte
      ≡ some (
        k',
        record q {
          buf = λ i. if i == q.head then byte else q.buf i;
          head = next q.head;
          not_empty = null;
        },
      )
unfolding intq_putc
putc_eq k k' q byte e s = rw (intq_putc, e, s)

-- From a queue that holds a byte and more, intq_getc takes that byte and leaves the others in order, if
-- the thread that waits for room can be woken.
pub intq_getc-Contains :
    (k k' : Kernel) (q : Intq) (n b : ℕ) (bs : List ℕ)
    → Contains q (suc n) (b ∷ bs)
    → signal k q.not_full ≡ some k'
    → (q' : Intq) × (intq_getc k q ≡ some (k', q', b)) × Contains q' n bs
intq_getc-Contains k k' q n b bs c s =
    let nonempty : intq_empty q ≡ false = elim (Bool-cases (intq_empty q)) [
      | inr e ↦ e
      | inl e ↦ absurd (omega (arith, (intq_empty-full_iff q (suc n) (b ∷ bs) c).0.0 e))
    ] in
    let first : q.buf q.tail ≡ b = cc c.listed in
    let rest : bs ≡ bytes_from q.buf (next q.tail) n = cc c.listed in
    (
      record q { tail = next q.tail; not_full = null },
      getc_eq k k' q nonempty s
          ∙ ap (λ x. some (k', record q { tail = next q.tail; not_full = null }, x)) first,
      record {
        listed = rest;
        small = omega (arith, c.small);
        head_at = c.head_at ∙ after_next q.tail n c.tail_low;
        tail_low = omega (arith, c.tail_low);
      },
    )

-- To a queue that is not full intq_putc adds the byte behind the others, if the thread that waits for a
-- byte can be woken.
pub intq_putc-Contains :
    (k k' : Kernel) (q : Intq) (n : ℕ) (bs : List ℕ) (byte : ℕ)
    → Contains q n bs
    → suc n < intq_bufsize
    → signal k q.not_empty ≡ some k'
    → (q' : Intq) × (intq_putc k q byte ≡ some (k', q')) × Contains q' (suc n) (bs ++ byte ∷ [])
intq_putc-Contains k k' q n bs byte c room s =
    let not_full : intq_full q ≡ false = elim (Bool-cases (intq_full q)) [
      | inr e ↦ e
      | inl e ↦ absurd (omega (arith, (intq_empty-full_iff q n bs c).1.0 e))
    ] in
    let buf' : ℕ → ℕ = λ i. if i == q.head then byte else q.buf i in
    let kept : bytes_from buf' q.tail n ≡ bs =
      bytes_from-written q.buf byte q.head q.tail n n c.tail_low (omega arith) c.small c.head_at
      ∙ sym c.listed in
    let last : buf' ((q.tail + n) % intq_bufsize) ≡ byte = ground (arith, c.head_at) in
    (
      _,
      putc_eq k k' q byte not_full s,
      record {
        listed = sym (bytes_from_snoc buf' q.tail n c.tail_low ∙ rw (kept, last));
        small = room;
        head_at = omega (arith, c.head_at, c.tail_low);
        tail_low = c.tail_low;
      },
    )
