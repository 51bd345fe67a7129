-- ===== src/Children.antt =====
-- Waiting for a process: the exit statuses at the end of pintos/src/threads/thread.c, and process_wait
-- of pintos/src/userprog/process.c. A struct exit_status is known by its address. The state is that of
-- one thread, with the list that all threads share. `none` as a result is an access through NULL.
pub mod Once
mod Tests
use course_cs439_operating_s.Base.{
  ℕ, Bool, true, false, ◌||◌, not, Option, none, some, List, [], ◌∷◌, ◌==◌, if◌then◌else◌, ◌>>=◌,
  ◌>>◌,
}
use course_cs439_operating_s.Base.Int.{ℤ, negsuc}

pub record ExitStatus : Type 0 where
  pub tid : ℕ
  pub status : ℤ

-- exit_list, and the lists of children and of those already waited for of the thread.
pub record Family : Type 0 where
  pub exit_status : ℕ → ExitStatus
  pub exit_list : List ℕ
  pub child_list : List ℕ
  pub wait_list : List ℕ

-- The loop of thread_is_child and of thread_has_waited.
pub has_tid : (ℕ → ExitStatus) → ℕ → List ℕ → Bool
has_tid exit_status tid [] = false
has_tid exit_status tid (es ∷ rest) = ((exit_status es).tid == tid) || has_tid exit_status tid rest

pub thread_is_child : Family → ℕ → Bool
thread_is_child t tid = has_tid t.exit_status tid t.child_list

pub thread_has_waited : Family → ℕ → Bool
thread_has_waited t tid = has_tid t.exit_status tid t.wait_list

pub status_loop : (ℕ → ExitStatus) → ℕ → List ℕ → Option ℕ
status_loop exit_status tid [] = none
status_loop exit_status tid (es ∷ rest) =
    let later = status_loop exit_status tid rest in
    if (exit_status es).tid == tid then some es else later

-- The exit status of a thread that nobody waited for; `none` is NULL.
pub thread_get_exit_status : Family → ℕ → Option ℕ
thread_get_exit_status t tid = status_loop t.exit_status tid t.exit_list

pub thread_set_exit_status : Family → ℕ → ℤ → Option Family
thread_set_exit_status t tid status = do
  es ← thread_get_exit_status t tid
  some (record t {
    exit_status =
        λ a. if a == es then record (t.exit_status a) { status = status } else t.exit_status a;
  })

pub without : ℕ → List ℕ → List ℕ
without es [] = []
without es (x ∷ rest) = if x == es then rest else x ∷ without es rest

pub thread_mark_waited : Family → ℕ → Family
thread_mark_waited t es = record t {
  exit_list = without es t.exit_list;
  wait_list = es ∷ t.wait_list;
}

-- `alive` tells whether the child still exists, and `others` what the other threads do until it raises
-- its semaphore.
pub process_wait : (alive : Bool) → (others : Family → Family) → Family → ℕ → Option (Family × ℤ)
process_wait alive others t child_tid =
    if not (thread_is_child t child_tid) || thread_has_waited t child_tid
    then some (t, negsuc 0)
    else (do
      let t1 = if alive then others t else t
      es ← thread_get_exit_status t1 child_tid
      some (thread_mark_waited t1 es, (t1.exit_status es).status))
