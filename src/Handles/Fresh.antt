-- ===== src/Handles/Fresh.antt =====
-- The descriptors of a process are different ones: the handles in pintos/src/threads/thread.c.
use course_cs439_operating_s.Base.{
  ℕ, suc, ◌≤◌, ◌<◌, ◌≡◌, ◌≢◌, refl, ap, none, some, List, [], ◌∷◌, ◌++◌, arith, ◌==◌, if◌then◌else◌,
  Bool-cases, inl, inr, All, All-append,
}
use course_cs439_operating_s.Handles.{
  FileHandle, Process, new_process, add_handle, handle_loop, get_handle, close_loop,
  thread_close_handler,
}

abbrev pub Distinct : List FileHandle → Type 0
Distinct [] = Unit {0}
Distinct (h ∷ hs) = All (λ k. k.fd ≢ h.fd) hs × Distinct hs

-- No two handles have one descriptor, none has 0 or 1, and the next descriptor is a new one.
pub record IsFresh (t : Process) : Type 0 where
  pub reserved : All (λ h. 2 ≤ h.fd) t.handles
  pub below : All (λ h. h.fd < t.next_fd) t.handles
  pub next : 2 ≤ t.next_fd
  pub distinct : Distinct t.handles

Distinct-snoc :
    (hs : List FileHandle) (h : FileHandle)
    → All (λ k. k.fd < h.fd) hs
    → Distinct hs
    → Distinct (hs ++ h ∷ [])
Distinct-snoc [] h a d = (tt, tt)
Distinct-snoc (k ∷ hs) h a d = (
  All-append (λ j. j.fd ≢ k.fd) hs (h ∷ []) d.0 ((λ e. absurd (omega (arith, a.0, e))), tt),
  Distinct-snoc hs h a.1 d.1,
)

All-weaken :
    (m n : ℕ) (hs : List FileHandle) → m ≤ n → All (λ h. h.fd < m) hs → All (λ h. h.fd < n) hs
All-weaken m n [] le a = tt
All-weaken m n (h ∷ hs) le a = (omega (arith, le, a.0), All-weaken m n hs le a.1)

pub add_handle-IsFresh :
    (t : Process) (file dir : ℕ) → IsFresh t → IsFresh (add_handle t file dir).0
unfolding add_handle
add_handle-IsFresh t file dir f = record {
  reserved = All-append (λ h. 2 ≤ h.fd) t.handles _ f.reserved (f.next, tt);
  below =
      All-append (λ h. h.fd < suc t.next_fd) t.handles _
        (All-weaken t.next_fd (suc t.next_fd) t.handles (omega arith) f.below) (omega arith, tt);
  next = omega (arith, f.next);
  distinct = Distinct-snoc t.handles _ f.below f.distinct;
}

handle_loop-snoc :
    (fd : ℕ) (hs : List FileHandle) (h : FileHandle)
    → All (λ k. k.fd < h.fd) hs
    → handle_loop fd (hs ++ h ∷ []) ≡ (if h.fd == fd then some h else handle_loop fd hs)
unfolding handle_loop
handle_loop-snoc fd [] h a = refl
handle_loop-snoc fd (k ∷ hs) h a = ground (arith, handle_loop-snoc fd hs h a.1, a.0)

-- A new handle serves its descriptor and no other.
pub get_handle-add :
    (t : Process) (file dir fd : ℕ)
    → IsFresh t
    → get_handle (add_handle t file dir).0 fd ≡ (
        if t.next_fd == fd
        then some (record { file = file; dir = dir; fd = t.next_fd })
        else get_handle t fd)
unfolding get_handle add_handle
get_handle-add t file dir fd f = handle_loop-snoc fd t.handles _ f.below

handle_loop-absent :
    (fd : ℕ) (hs : List FileHandle) → All (λ k. k.fd ≢ fd) hs → handle_loop fd hs ≡ none
unfolding handle_loop
handle_loop-absent fd [] a = refl
handle_loop-absent fd (h ∷ hs) a = ground (arith, handle_loop-absent fd hs a.1, a.0)

pub get_handle-next : (t : Process) → IsFresh t → get_handle t t.next_fd ≡ none
unfolding get_handle
get_handle-next t f = handle_loop-absent t.next_fd t.handles (apart t.handles f.below)
  where
    apart : (hs : List FileHandle) → All (λ h. h.fd < t.next_fd) hs → All (λ h. h.fd ≢ t.next_fd) hs
    apart [] a = tt
    apart (h ∷ hs) a = ((λ e. absurd (omega (arith, a.0, e))), apart hs a.1)

-- What close_loop gives back is the handle that was found.
close_loop-closed : (fd : ℕ) (hs : List FileHandle) → (close_loop fd hs).1 ≡ handle_loop fd hs
unfolding close_loop handle_loop
close_loop-closed fd [] = refl
close_loop-closed fd (h ∷ hs) = ground (arith, close_loop-closed fd hs)

close_loop-All :
    (P : FileHandle → Type 0) (fd : ℕ) (hs : List FileHandle)
    → All P hs
    → All P (close_loop fd hs).0
unfolding close_loop
close_loop-All P fd [] a = tt
close_loop-All P fd (h ∷ hs) a = elim (Bool-cases (h.fd == fd)) [
  | inl here ↦ rw here a.1
  | inr later ↦ rw later (a.0, close_loop-All P fd hs a.1)
]

close_loop-Distinct : (fd : ℕ) (hs : List FileHandle) → Distinct hs → Distinct (close_loop fd hs).0
unfolding close_loop
close_loop-Distinct fd [] d = tt
close_loop-Distinct fd (h ∷ hs) d = elim (Bool-cases (h.fd == fd)) [
  | inl here ↦ rw here d.1
  | inr later ↦
      rw later (close_loop-All (λ k. k.fd ≢ h.fd) fd hs d.0, close_loop-Distinct fd hs d.1)
]

pub close-IsFresh : (t : Process) (fd : ℕ) → IsFresh t → IsFresh (thread_close_handler t fd).0
unfolding thread_close_handler
close-IsFresh t fd f = record {
  reserved = close_loop-All _ fd t.handles f.reserved;
  below = close_loop-All _ fd t.handles f.below;
  next = f.next;
  distinct = close_loop-Distinct fd t.handles f.distinct;
}

handle_loop-close :
    (fd i : ℕ) (hs : List FileHandle)
    → Distinct hs
    → handle_loop i (close_loop fd hs).0 ≡ (if fd == i then none else handle_loop i hs)
unfolding handle_loop close_loop
handle_loop-close fd i [] d = ground arith
handle_loop-close fd i (h ∷ hs) d = elim (Bool-cases (h.fd == fd)) [
  | inl here ↦
      let e : h.fd ≡ fd = ground (arith, here) in
      let absent = handle_loop-absent h.fd hs d.0 in
      rw here (ground (arith, e, absent, ap (λ j. handle_loop j hs) e))
  | inr later ↦ rw later (ground (arith, later, handle_loop-close fd i hs d.1))
]

-- A descriptor that was closed serves no file, and the others serve what they did.
pub get_handle-close :
    (t : Process) (fd i : ℕ)
    → IsFresh t
    → get_handle (thread_close_handler t fd).0 i ≡ (if fd == i then none else get_handle t i)
unfolding get_handle thread_close_handler
get_handle-close t fd i f = handle_loop-close fd i t.handles f.distinct

pub closed-get_handle : (t : Process) (fd : ℕ) → (thread_close_handler t fd).1 ≡ get_handle t fd
unfolding get_handle thread_close_handler
closed-get_handle t fd = close_loop-closed fd t.handles

pub data Step (t t' : Process) : Type 0 where
  opens : (file dir : ℕ) → t' ≡ (add_handle t file dir).0 → Step t t'
  closes : (fd : ℕ) → t' ≡ (thread_close_handler t fd).0 → Step t t'

pub data Reach (t : Process) : Process → Type 0 where
  here : Reach t t
  next : {t' t'' : Process} → Reach t t' → Step t' t'' → Reach t t''

new_process-IsFresh : IsFresh new_process
unfolding new_process
new_process-IsFresh = record { reserved = tt; below = tt; next = omega arith; distinct = tt }

Step-IsFresh : {t t' : Process} → Step t t' → IsFresh t → IsFresh t'
Step-IsFresh {t} (opens file dir e) f = rw e (add_handle-IsFresh t file dir f)
Step-IsFresh {t} (closes fd e) f = rw e (close-IsFresh t fd f)

pub Reach-IsFresh : {t : Process} → Reach new_process t → IsFresh t
Reach-IsFresh here = new_process-IsFresh
Reach-IsFresh (next r s) = Step-IsFresh s (Reach-IsFresh r)
