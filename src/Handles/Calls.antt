-- ===== src/Handles/Calls.antt =====
-- The life of a descriptor from open to close: pintos/src/threads/thread.c and
-- pintos/src/userprog/syscall.c.
use course_cs439_operating_s.Base.{
  ℕ, ◌≤◌, ◌<◌, ◌≡◌, ◌≢◌, refl, sym, ap, ◌∙◌, true, false, ◌&&◌, ◌||◌, none, some, arith, ◌==◌,
  Bool-cases, ==_refl, inl, inr,
}
use course_cs439_operating_s.Base.Int.{pos, negsuc, ltb_ℤ}
use course_cs439_operating_s.Handles.{
  FileHandle, Process, new_process, add_handle, thread_add_file_handler, get_handle,
  thread_close_handler, value, file_read, file_write, get_int_handle, sysread, syswrite,
}
use course_cs439_operating_s.Handles.Fresh.{
  Reach, Reach-IsFresh, get_handle-add, get_handle-next, get_handle-close, closed-get_handle,
  add_handle-IsFresh,
}

abbrev pub handle_of : (file fd : ℕ) → FileHandle
handle_of file fd = record { file = file; dir = 0; fd = fd }

write_serves :
    (t : Process) (fd buffer size file : ℕ)
    → 2 ≤ fd
    → file ≢ 0
    → get_handle t fd ≡ some (handle_of file fd)
    → syswrite t (pos fd) buffer size ≡ file_write file buffer size
unfolding syswrite get_int_handle
write_serves t fd buffer size file ge ne g =
    let e1 : (ltb_ℤ (pos fd) (pos 2) && ltb_ℤ (pos 0) (pos fd)) ≡ false = ground (arith, ge) in
    let e2 : ltb_ℤ (pos 1) (pos fd) ≡ true = ground (arith, ge) in
    let e3 : (file == 0) ≡ false = ground (arith, ne) in rw (e1, e2, g, e3) refl

write_fails :
    (t : Process) (fd buffer size : ℕ)
    → 2 ≤ fd
    → get_handle t fd ≡ none
    → syswrite t (pos fd) buffer size ≡ value (negsuc 0)
unfolding syswrite get_int_handle
write_fails t fd buffer size ge g =
    let e1 : (ltb_ℤ (pos fd) (pos 2) && ltb_ℤ (pos 0) (pos fd)) ≡ false = ground (arith, ge) in
    let e2 : ltb_ℤ (pos 1) (pos fd) ≡ true = ground (arith, ge) in rw (e1, e2, g) refl

read_serves :
    (t : Process) (fd buffer size file : ℕ)
    → 2 ≤ fd
    → file ≢ 0
    → 0 < size
    → get_handle t fd ≡ some (handle_of file fd)
    → sysread t (pos fd) buffer (pos size) true true ≡ file_read file buffer (pos size)
unfolding sysread get_int_handle
read_serves t fd buffer size file ge ne more g =
    let e1 : (ltb_ℤ (pos fd) (pos 1) && ltb_ℤ (negsuc 0) (pos fd)) ≡ false = ground (arith, ge) in
    let e2 : ((ltb_ℤ (pos fd) (pos 2) && ltb_ℤ (pos 0) (pos fd)) || ltb_ℤ (pos size) (pos 0))
        ≡ false =
      ground (arith, ge) in
    let e3 : ltb_ℤ (pos size) (pos 1) ≡ false = ground (arith, more) in
    let e4 : (file == 0) ≡ false = ground (arith, ne) in rw (e1, e2, e3, g, e4) refl

-- What the process sees of a descriptor for `file`.
pub record Serves (t : Process) (fd file : ℕ) : Type 0 where
  pub writes : (buffer size : ℕ) → syswrite t (pos fd) buffer size ≡ file_write file buffer size
  pub reads :
      (buffer size : ℕ)
      → 0 < size
      → sysread t (pos fd) buffer (pos size) true true ≡ file_read file buffer (pos size)

add_runs :
    (t : Process) (file : ℕ)
    → thread_add_file_handler true t file ≡ some ((add_handle t file 0).0, t.next_fd)
unfolding thread_add_file_handler add_handle
add_runs t file = refl

-- After any sequence of opening and closing files and directories in a new process, a file that is opened gets a
-- descriptor above 1 that had none: writes and reads through it go to that file. Closing it closes that
-- file and no other, writing through it then gives -1, and every descriptor serves what it did before
-- the file was opened.
pub opened-Serves :
    (t : Process) (file : ℕ)
    → Reach new_process t
    → file ≢ 0
    → (t' : Process) × (fd : ℕ) × (thread_add_file_handler true t file ≡ some (t', fd))
      × (2 ≤ fd)
      × (get_handle t fd ≡ none)
      × Serves t' fd file
      × ((thread_close_handler t' fd).1 ≡ some (handle_of file fd))
      × ((buffer size : ℕ)
          → syswrite (thread_close_handler t' fd).0 (pos fd) buffer size ≡ value (negsuc 0))
      × ((i : ℕ) → get_handle (thread_close_handler t' fd).0 i ≡ get_handle t i)
opened-Serves t file r ne =
    let f = Reach-IsFresh r in
    let t' = (add_handle t file 0).0 in
    let fd = t.next_fd in
    let f' = add_handle-IsFresh t file 0 f in
    let absent = get_handle-next t f in
    let added : get_handle t' fd ≡ some (handle_of file fd) =
      get_handle-add t file 0 fd f ∙ rw (==_refl fd) refl in
    let gone : get_handle (thread_close_handler t' fd).0 fd ≡ none =
      get_handle-close t' fd fd f' ∙ rw (==_refl fd) refl in
    (
      t',
      fd,
      add_runs t file,
      f.next,
      absent,
      record {
        writes = λ buffer size. write_serves t' fd buffer size file f.next ne added;
        reads = λ buffer size more. read_serves t' fd buffer size file f.next ne more added;
      },
      closed-get_handle t' fd ∙ added,
      (λ buffer size. write_fails (thread_close_handler t' fd).0 fd buffer size f.next gone),
      λ i. get_handle-close t' fd i f' ∙ elim (Bool-cases (fd == i)) [
        | inl here ↦
            let e : fd ≡ i = ground (arith, here) in rw here (sym absent ∙ ap (get_handle t) e)
        | inr away ↦ rw away (get_handle-add t file 0 i f ∙ rw away refl)
      ],
    )
