-- ===== src/Children/Tests.antt =====
-- Runs of a parent whose child, thread 7, has its status at address 70.
use course_cs439_operating_s.Base.{
  ℕ, ◌≡◌, refl, Bool, true, none, some, [], ◌∷◌, ◌==◌, if◌then◌else◌,
}
use course_cs439_operating_s.Base.Int.{ℤ, pos, negsuc}
use course_cs439_operating_s.Children.{
  Family, ExitStatus, has_tid, thread_is_child, thread_has_waited, thread_get_exit_status,
  status_loop, thread_set_exit_status, process_wait,
}
use course_cs439_operating_s.Children.Once.{Later, process_wait-once}

abbrev status_at : ℤ → ℕ → ExitStatus
status_at s a = record { tid = if a == 70 then 7 else 8; status = s }

abbrev parent : Family
parent = record {
  exit_status = status_at (pos 0);
  exit_list = 80 ∷ 70 ∷ [];
  child_list = 70 ∷ [];
  wait_list = [];
}

-- The child exits with status 3.
abbrev exits : Family → Family
exits t = record t { exit_status = status_at (pos 3) }

process_wait-once_example :
    (t' : Family) × (process_wait true exits parent 7 ≡ some (t', pos 3))
    × ((status : ℤ) → thread_set_exit_status t' 7 status ≡ none)
    × ((t'' : Family) (alive' : Bool) (others' : Family → Family)
        → Later t' t''
        → process_wait alive' others' t'' 7 ≡ some (t'', negsuc 0))
unfolding thread_is_child thread_has_waited has_tid thread_get_exit_status status_loop
process_wait-once_example =
    process_wait-once true exits parent 7 70 refl refl (refl, (refl, tt)) refl

not_a_child : process_wait true exits parent 8 ≡ some (parent, negsuc 0)
unfolding process_wait thread_is_child has_tid
not_a_child = refl
