-- ===== src/Handles/Tests.antt =====
-- Runs of a process that opens the file at address 500.
use course_cs439_operating_s.Base.{
  ℕ, ◌≤◌, ◌≡◌, refl, true, false, none, some, [], ◌∷◌, arith, ◌==◌, if◌then◌else◌,
}
use course_cs439_operating_s.Base.Int.{pos, negsuc}
use course_cs439_operating_s.Handles.{
  Process, IntrFrame, new_process, add_handle, thread_add_file_handler, get_handle, handle_loop,
  get_int_handle, thread_close_handler, pop_stack, value, terminates, input_getc, file_read,
  syswrite, sysread_handler, sysfilesize_handler,
}
use course_cs439_operating_s.Handles.Fresh.{here, next, opens}
use course_cs439_operating_s.Handles.Calls.{Serves, handle_of, opened-Serves}

-- A process with the directory at address 300 open.
abbrev browsing : Process
browsing = record { handles = record { file = 0; dir = 300; fd = 2 } ∷ []; next_fd = 3 }

opened-Serves_example :
    (t' : Process) × (fd : ℕ) × (thread_add_file_handler true browsing 500 ≡ some (t', fd))
    × (2 ≤ fd)
    × (get_handle browsing fd ≡ none)
    × Serves t' fd 500
    × ((thread_close_handler t' fd).1 ≡ some (handle_of 500 fd))
    × ((buffer size : ℕ)
        → syswrite (thread_close_handler t' fd).0 (pos fd) buffer size ≡ value (negsuc 0))
    × ((i : ℕ) → get_handle (thread_close_handler t' fd).0 i ≡ get_handle browsing i)
unfolding add_handle new_process
opened-Serves_example =
    opened-Serves browsing 500 (next here (opens 0 300 refl)) (λ e. absurd (omega (arith, e)))

-- read (fd, 100, 5) on the stack of a process.
abbrev call : ℕ → IntrFrame
call fd = record {
  memory = λ a. if a == 40 then fd else if a == 44 then 100 else if a == 48 then 5 else 0;
  esp = 40;
}

read_file :
    sysread_handler (add_handle browsing 500 0).0 (call 3) (λ a. true) (λ a. true)
    ≡ file_read 500 100 (pos 5)
unfolding sysread_handler pop_stack get_int_handle get_handle handle_loop add_handle
read_file = refl

read_directory : sysread_handler browsing (call 2) (λ a. true) (λ a. true) ≡ value (negsuc 0)
unfolding sysread_handler pop_stack get_int_handle get_handle handle_loop
read_directory = refl

read_console : sysread_handler browsing (call 0) (λ a. false) (λ a. false) ≡ input_getc 100
unfolding sysread_handler pop_stack
read_console = refl

no_stack :
    sysfilesize_handler browsing (record { memory = λ a. 0; esp = 0xC0000000 }) ≡ some terminates
unfolding sysfilesize_handler pop_stack
no_stack = refl
