-- ===== src/Jobs.antt =====
-- The job list of the shell in project0/jobs.c. The array of jobs is a list, which the loops walk from its
-- first entry; `nextjid` goes with it. A pid is a number, so `pid < 1` is the test for 0. What
-- the functions print, and listjobs, are left out.
pub mod Find
pub mod Change
mod Tests
use course_cs439_operating_s.Base.{
  ℕ, suc, ◌+◌, Bool, true, false, not, Option, none, some, List, [], ◌∷◌, ltb, ◌==◌, if◌then◌else◌,
}
use course_cs439_operating_s.CString.{Str}

abbrev pub max_jobs : ℕ
max_jobs = 16

pub data State : Type 0 where
  undef fg bg st : State

pub record Job : Type 0 where
  pub pid : ℕ
  pub jid : ℕ
  pub state : State
  pub cmdline : Str

pub record Jobs : Type 0 where
  pub jobs : List Job
  pub nextjid : ℕ

abbrev pub cleared : Job
cleared = record { pid = 0; jid = 0; state = undef; cmdline = [] }

pub initjobs : List Job → List Job
initjobs [] = []
initjobs (j ∷ js) = cleared ∷ initjobs js

-- The loop of maxjid with the largest job ID so far.
pub maxjid : List Job → ℕ → ℕ
maxjid [] max = max
maxjid (j ∷ js) max = maxjid js (if ltb max j.jid then j.jid else max)

-- The loop of addjob: the job takes the first free entry; `none` if there is none.
pub add_loop : Job → List Job → Option (List Job)
add_loop new [] = none
add_loop new (j ∷ js) =
    if j.pid == 0
    then some (new ∷ js)
    else elim (add_loop new js) [ none ↦ none | some js' ↦ some (j ∷ js') ]

pub addjob : Jobs → ℕ → State → Str → Jobs × Bool
addjob w pid state cmdline =
    if ltb pid 1
    then (w, false)
    else elim (add_loop (record { pid = pid; jid = w.nextjid; state = state; cmdline = cmdline })
        w.jobs) [
          | none ↦ (w, false)
          | some js ↦ (
            record {
              jobs = js;
              nextjid = if ltb max_jobs (suc w.nextjid) then 1 else suc w.nextjid;
            },
            true,
          )
        ]

-- The loop of deletejob: the first entry with the pid is cleared.
pub delete_loop : ℕ → List Job → Option (List Job)
delete_loop pid [] = none
delete_loop pid (j ∷ js) =
    if j.pid == pid
    then some (cleared ∷ js)
    else elim (delete_loop pid js) [ none ↦ none | some js' ↦ some (j ∷ js') ]

pub deletejob : Jobs → ℕ → Jobs × Bool
deletejob w pid = if ltb pid 1 then (w, false) else elim (delete_loop pid w.jobs) [
  | none ↦ (w, false)
  | some js ↦ (record { jobs = js; nextjid = maxjid js 0 + 1 }, true)
]

abbrev pub is_fg : State → Bool
is_fg fg = true
is_fg _ = false

pub fgpid : List Job → ℕ
fgpid [] = 0
fgpid (j ∷ js) = if is_fg j.state then j.pid else fgpid js

-- The first job that passes a test, as the loops of getjobpid and getjobjid look for it.
pub first_job : (Job → Bool) → List Job → Option Job
first_job p [] = none
first_job p (j ∷ js) = if p j then some j else first_job p js

pub getjobpid : List Job → ℕ → Option Job
getjobpid js pid = if ltb pid 1 then none else first_job (λ j. j.pid == pid) js

pub getjobjid : List Job → ℕ → Option Job
getjobjid js jid = if ltb jid 1 then none else first_job (λ j. j.jid == jid) js

pub pid2jid : List Job → ℕ → ℕ
pid2jid js pid =
    if ltb pid 1 then 0 else elim (first_job (λ j. j.pid == pid) js) [ none ↦ 0 | some j ↦ j.jid ]
