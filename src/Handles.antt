-- ===== src/Handles.antt =====
-- The open files of a process: the handles at the end of pintos/src/threads/thread.c, get_handle and the
-- system calls on file descriptors of pintos/src/userprog/syscall.c. Files and directories are known by
-- their addresses, 0 being NULL.
pub mod Fresh
pub mod Calls
mod Tests
use course_cs439_operating_s.Base.{
  ℕ, zero, suc, ◌+◌, Bool, true, false, ◌&&◌, ◌||◌, not, Option, none, some, List, [], ◌∷◌, ◌++◌,
  ltb, leb, ◌==◌, if◌then◌else◌, ◌>>=◌, ◌>>◌, assert,
}
use course_cs439_operating_s.Base.Int.{ℤ, pos, negsuc, int_of_word, ltb_ℤ}

-- struct fileHandle.
pub record FileHandle : Type 0 where
  pub file : ℕ
  pub dir : ℕ
  pub fd : ℕ

-- The fields `handles` and `nextFD` of a thread.
pub record Process : Type 0 where
  pub handles : List FileHandle
  pub next_fd : ℕ

-- The fields as init_thread leaves them.
pub new_process : Process
new_process = record { handles = []; next_fd = 2 }

pub add_handle : Process → (file dir : ℕ) → Process × ℕ
add_handle t file dir =
    let new_handle : FileHandle = record { file = file; dir = dir; fd = t.next_fd } in
    (record { handles = t.handles ++ new_handle ∷ []; next_fd = suc t.next_fd }, new_handle.fd)

-- `none` is a write through NULL, which malloc gave.
pub thread_add_file_handler : (memory : Bool) → Process → (file : ℕ) → Option (Process × ℕ)
thread_add_file_handler memory t file = do assert memory; some (add_handle t file 0)

pub thread_add_dir_handler : (memory : Bool) → Process → (dir : ℕ) → Option (Process × ℕ)
thread_add_dir_handler memory t dir = do assert memory; some (add_handle t 0 dir)

pub handle_loop : ℕ → List FileHandle → Option FileHandle
handle_loop fd [] = none
handle_loop fd (fhp ∷ rest) =
    let later = handle_loop fd rest in if fhp.fd == fd then some fhp else later

pub get_handle : Process → ℕ → Option FileHandle
get_handle t fd = handle_loop fd t.handles

pub close_loop : ℕ → List FileHandle → List FileHandle × Option FileHandle
close_loop fd [] = ([], none)
close_loop fd (fhp ∷ rest) =
    let (rest', closed) = close_loop fd rest in
    if fhp.fd == fd then (rest, some fhp) else (fhp ∷ rest', closed)

-- The handle that comes back is the one whose file and directory are closed.
pub thread_close_handler : Process → ℕ → Process × Option FileHandle
thread_close_handler t fd =
    let (handles', closed) = close_loop fd t.handles in (record t { handles = handles' }, closed)

-- struct intr_frame of a system call: the words of user memory and the stack pointer.
pub record IntrFrame : Type 0 where
  pub memory : ℕ → ℕ
  pub esp : ℕ

abbrev pub phys_base : ℕ
phys_base = 0xC0000000

-- `none` is the end of the process by terminate_thread.
pub pop_stack : IntrFrame → Option (ℕ × IntrFrame)
pop_stack f =
    if ltb f.esp phys_base && not (f.esp == 0)
    then some (f.memory f.esp, record f { esp = f.esp + 4 })
    else none

-- What a handler of a system call does: it leaves a value in eax, calls a function for its value there,
-- or ends the process.
pub data Reply : Type 0 where
  value : ℤ → Reply
  nothing : Reply
  input_getc : (buffer : ℕ) → Reply
  putbuf : (buffer size : ℕ) → Reply
  file_read : (file buffer : ℕ) (size : ℤ) → Reply
  file_write : (file buffer size : ℕ) → Reply
  file_length : (file : ℕ) → Reply
  inode_length : (dir : ℕ) → Reply
  file_seek : (file : ℕ) (position : ℤ) → Reply
  file_tell : (file : ℕ) → Reply
  dir_readdir : (dir name : ℕ) → Reply
  file_inumber : (file : ℕ) → Reply
  dir_inumber : (dir : ℕ) → Reply
  terminates : Reply

-- A descriptor as the int that was passed: one below 0 is no handle's.
pub get_int_handle : Process → ℤ → Option FileHandle
unfolding get_handle
get_int_handle t (pos fd) = get_handle t fd
get_int_handle t (negsuc n) = none

pub sysread : Process → (fd : ℤ) → (buffer : ℕ) → (size : ℤ) → (readable writable : Bool) → Reply
sysread t fd buffer size readable writable =
    if ltb_ℤ fd (pos 1) && ltb_ℤ (negsuc 0) fd
    then input_getc buffer
    else if (ltb_ℤ fd (pos 2) && ltb_ℤ (pos 0) fd) || ltb_ℤ size (pos 0)
    then value (negsuc 0)
    else if ltb_ℤ size (pos 1)
    then value (pos 0)
    else if not readable || not writable
    then terminates
    else elim (get_int_handle t fd) [
      | none ↦ value (negsuc 0)
      | some fhp ↦ if not (fhp.file == 0) then file_read fhp.file buffer size else value (negsuc 0)
    ]

-- `readable` and `writable` tell whether get_user and put_user of the buffer succeed.
pub sysread_handler : Process → IntrFrame → (readable writable : ℕ → Bool) → Reply
unfolding sysread
sysread_handler t f readable writable =
    elim (do
      (fd, f1) ← pop_stack f
      (buffer, f2) ← pop_stack f1
      (size, _) ← pop_stack f2
      some (
          sysread t (int_of_word fd) buffer (int_of_word size) (readable buffer)
            (writable buffer))) [ none ↦ terminates | some r ↦ r ]

pub syswrite : Process → (fd : ℤ) → (buffer size : ℕ) → Reply
syswrite t fd buffer size =
    if ltb_ℤ fd (pos 2) && ltb_ℤ (pos 0) fd
    then putbuf buffer size
    else if ltb_ℤ (pos 1) fd
    then (elim (get_int_handle t fd) [
      | none ↦ value (negsuc 0)
      | some fhp ↦ if not (fhp.file == 0) then file_write fhp.file buffer size else value (negsuc 0)
    ])
    else value (negsuc 0)

pub syswrite_handler : Process → IntrFrame → Reply
unfolding syswrite
syswrite_handler t f =
    elim (do
      (fd, f1) ← pop_stack f
      (buffer, f2) ← pop_stack f1
      (size, _) ← pop_stack f2
      some (syswrite t (int_of_word fd) buffer size)) [ none ↦ terminates | some r ↦ r ]

-- By the kind of what a descriptor stands for; a handle of neither kind fails an ASSERT.
pub by_kind : (file dir : ℕ → Reply) → Option FileHandle → Option Reply
by_kind file dir none = some (value (negsuc 0))
by_kind file dir (some fhp) =
    if not (fhp.file == 0)
    then some (file fhp.file)
    else if not (fhp.dir == 0)
    then some (dir fhp.dir)
    else none

pub sysfilesize_handler : Process → IntrFrame → Option Reply
sysfilesize_handler t f = elim (pop_stack f) [
  | none ↦ some terminates
  | some (fd, _) ↦ by_kind file_length inode_length (get_int_handle t (int_of_word fd))
]

pub sysisdir_handler : Process → IntrFrame → Option Reply
sysisdir_handler t f = elim (pop_stack f) [
  | none ↦ some terminates
  | some (fd, _) ↦
      by_kind (λ _. value (pos 0)) (λ _. value (pos 1)) (get_int_handle t (int_of_word fd))
]

pub sysinumber_handler : Process → IntrFrame → Option Reply
sysinumber_handler t f = elim (pop_stack f) [
  | none ↦ some terminates
  | some (fd, _) ↦ by_kind file_inumber dir_inumber (get_int_handle t (int_of_word fd))
]

pub tell : Option FileHandle → Reply
tell none = value (negsuc 0)
tell (some fhp) = if not (fhp.file == 0) then file_tell fhp.file else value (negsuc 0)

pub systell_handler : Process → IntrFrame → Reply
systell_handler t f = elim (pop_stack f) [
  | none ↦ terminates
  | some (fd, _) ↦ tell (get_int_handle t (int_of_word fd))
]

pub readdir : (name : ℕ) → Option FileHandle → Reply
readdir name none = value (negsuc 0)
readdir name (some fhp) = if not (fhp.dir == 0) then dir_readdir fhp.dir name else value (pos 0)

pub sysreaddir_handler : Process → IntrFrame → Reply
sysreaddir_handler t f =
    elim (do
      (fd, f1) ← pop_stack f
      (name, _) ← pop_stack f1
      some (readdir name (get_int_handle t (int_of_word fd)))) [ none ↦ terminates | some r ↦ r ]

pub seek : (newpos : ℤ) → Option FileHandle → Reply
seek newpos none = nothing
seek newpos (some fhp) = if not (fhp.file == 0) then file_seek fhp.file newpos else nothing

pub sysseek_handler : Process → IntrFrame → Reply
sysseek_handler t f =
    elim (do
      (fd, f1) ← pop_stack f
      (newpos, _) ← pop_stack f1
      some (seek (int_of_word newpos) (get_int_handle t (int_of_word fd)))) [
        | none ↦ terminates
        | some r ↦ r
      ]

pub close : Process → ℤ → Process × Option FileHandle
unfolding thread_close_handler
close t (pos fd) = thread_close_handler t fd
close t (negsuc n) = (t, none)

-- `none` is the end of the process.
pub sysclose_handler : Process → IntrFrame → Option (Process × Option FileHandle)
sysclose_handler t f = do (fd, _) ← pop_stack f; some (close t (int_of_word fd))
