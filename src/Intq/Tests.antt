-- ===== src/Intq/Tests.antt =====
-- A queue that holds two bytes around the end of its buffer, and nobody waiting.
use course_cs439_operating_s.Base.{◌≡◌, refl, some, [], ◌∷◌, arith, ◌==◌, if◌then◌else◌}
use course_cs439_operating_s.Thread.{null}
use course_cs439_operating_s.Thread.Tests.{busy}
use course_cs439_operating_s.Intq.{Intq, signal, intq_putc}
use course_cs439_operating_s.Intq.Fifo.{Contains, intq_putc-Contains}

abbrev wrapped : Intq
wrapped = record {
  not_full = null;
  not_empty = null;
  buf = λ i. if i == 63 then 65 else 66;
  head = 1;
  tail = 63;
}

wrapped-Contains : Contains wrapped 2 (65 ∷ 66 ∷ [])
wrapped-Contains = record {
  listed = refl;
  small = omega arith;
  head_at = refl;
  tail_low = omega arith;
}

nobody : signal busy null ≡ some busy
unfolding signal
nobody = refl

intq_putc-Contains_example :
    (q' : Intq) × (intq_putc busy wrapped 67 ≡ some (busy, q')) × Contains q' 3 (65 ∷ 66 ∷ 67 ∷ [])
intq_putc-Contains_example =
    intq_putc-Contains busy busy wrapped 2 (65 ∷ 66 ∷ []) 67 wrapped-Contains (omega arith) nobody
