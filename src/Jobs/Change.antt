-- ===== src/Jobs/Change.antt =====
-- addjob and deletejob of project0/jobs.c, as getjobpid sees them.
use course_cs439_operating_s.Base.{
  ℕ, suc, ◌+◌, ◌≤◌, ◌<◌, ◌≡◌, refl, sym, ◌∙◌, ◌≢◌, ◌⊎◌, inl, inr, true, false, none, some, List, [],
  ◌∷◌, arith, ltb, ◌==◌, if◌then◌else◌, Bool-cases, All,
}
use course_cs439_operating_s.CString.{Str}
use course_cs439_operating_s.Jobs.{
  max_jobs, State, Job, Jobs, maxjid, add_loop, addjob, delete_loop, deletejob, first_job,
  getjobpid,
}
use course_cs439_operating_s.Jobs.Find.{
  with_pid, NoPid, UniquePids, NoPid-first_job, add_loop-Added, delete_loop-Deleted,
}

search : (js : List Job) (pid : ℕ) → pid ≢ 0 → getjobpid js pid ≡ first_job (with_pid pid) js
unfolding getjobpid
search js pid real = let at_least : ltb pid 1 ≡ false = ground arith in rw (getjobpid, at_least)

search_0 : (js : List Job) → getjobpid js 0 ≡ none
unfolding getjobpid
search_0 js = refl

search-agree :
    (js js' : List Job) (pid q : ℕ)
    → ((q : ℕ) → q ≢ 0 → q ≢ pid → first_job (with_pid q) js' ≡ first_job (with_pid q) js)
    → q ≢ pid
    → getjobpid js' q ≡ getjobpid js q
search-agree js js' pid q same ne = elim (Bool-cases (q == 0)) [
  | inl z ↦ let e : q ≡ 0 = ground arith in rw e (search_0 js' ∙ sym (search_0 js))
  | inr nz ↦
      let real : q ≢ 0 = ground arith in search js' q real ∙ same q real ne ∙ sym (search js q real)
]

-- The job that addjob makes.
abbrev pub new_job : Jobs → ℕ → State → Str → Job
new_job w pid state cmdline = record {
  pid = pid;
  jid = w.nextjid;
  state = state;
  cmdline = cmdline;
}

add_eq :
    (w : Jobs) (pid : ℕ) (state : State) (cmdline : Str) (js : List Job)
    → pid ≢ 0
    → add_loop (new_job w pid state cmdline) w.jobs ≡ some js
    → addjob w pid state cmdline ≡ (
      record { jobs = js; nextjid = if ltb max_jobs (suc w.nextjid) then 1 else suc w.nextjid },
      true,
    )
unfolding addjob
add_eq w pid state cmdline js real h =
    let at_least : ltb pid 1 ≡ false = ground arith in rw (at_least, h)

add_full :
    (w : Jobs) (pid : ℕ) (state : State) (cmdline : Str)
    → pid ≢ 0
    → add_loop (new_job w pid state cmdline) w.jobs ≡ none
    → addjob w pid state cmdline ≡ (w, false)
unfolding addjob
add_full w pid state cmdline real h =
    let at_least : ltb pid 1 ≡ false = ground arith in rw (at_least, h)

-- addjob of a pid that is not listed fails and changes nothing if no entry is free. Otherwise getjobpid
-- finds the new job, with the job ID that was next, and under every other pid what it found before;
-- each pid still stands at most once if it did, and the next job ID is at most 16.
pub addjob_lem :
    (w : Jobs) (pid : ℕ) (state : State) (cmdline : Str)
    → pid ≢ 0
    → getjobpid w.jobs pid ≡ none
    → ((addjob w pid state cmdline ≡ (w, false)) × NoPid 0 w.jobs)
      ⊎ ((w' : Jobs) × (addjob w pid state cmdline ≡ (w', true))
          × (getjobpid w'.jobs pid ≡ some (new_job w pid state cmdline))
          × ((q : ℕ) → q ≢ pid → getjobpid w'.jobs q ≡ getjobpid w.jobs q)
          × (UniquePids w.jobs → UniquePids w'.jobs)
          × (w'.nextjid ≤ max_jobs))
addjob_lem w pid state cmdline real absent =
    let fresh = NoPid-first_job pid w.jobs (sym (search w.jobs pid real) ∙ absent) in
    elim (add_loop-Added (new_job w pid state cmdline) w.jobs real fresh) [
      | inl (full, taken) ↦ inl (add_full w pid state cmdline real full, taken)
      | inr (js, added, a) ↦ inr (
        _,
        add_eq w pid state cmdline js real added,
        search js pid real ∙ a.found,
        λ q ne. search-agree w.jobs js pid q a.others ne,
        a.unique,
        ground arith,
      )
    ]

next_max : ℕ → Job → ℕ
next_max max j = if ltb max j.jid then j.jid else max

maxjid_step : (j : Job) (js : List Job) (max : ℕ) → maxjid (j ∷ js) max ≡ maxjid js (next_max max j)
unfolding maxjid next_max
maxjid_step j js max = refl

next_max-bounds : (max : ℕ) (j : Job) → (max ≤ next_max max j) × (j.jid ≤ next_max max j)
unfolding next_max
next_max-bounds max j = ground arith

-- maxjid is at least every job ID of the list.
maxjid-bounds :
    (js : List Job) (max : ℕ) → (max ≤ maxjid js max) × All (λ j. j.jid ≤ maxjid js max) js
unfolding maxjid next_max
maxjid-bounds [] max = (omega arith, tt)
maxjid-bounds (j ∷ js) max =
    let (low, rest) = maxjid-bounds js (next_max max j) in
    let (a, b) = next_max-bounds max j in
    rw (maxjid_step j js max) (omega arith, (omega arith, rest))

delete_eq :
    (w : Jobs) (pid : ℕ) (js : List Job)
    → pid ≢ 0
    → delete_loop pid w.jobs ≡ some js
    → deletejob w pid ≡ (record { jobs = js; nextjid = maxjid js 0 + 1 }, true)
unfolding deletejob
delete_eq w pid js real h = let at_least : ltb pid 1 ≡ false = ground arith in rw (at_least, h)

delete_absent :
    (w : Jobs) (pid : ℕ) → pid ≢ 0 → delete_loop pid w.jobs ≡ none → deletejob w pid ≡ (w, false)
unfolding deletejob
delete_absent w pid real h = let at_least : ltb pid 1 ≡ false = ground arith in rw (at_least, h)

All-below : (m : ℕ) (js : List Job) → All (λ j. j.jid ≤ m) js → All (λ j. j.jid < m + 1) js
All-below m [] h = tt
All-below m (j ∷ js) h = (omega (arith, h.0), All-below m js h.1)

-- If each pid stands at most once, deletejob of a pid that is not listed fails and changes nothing;
-- of one that is listed it succeeds: getjobpid no longer finds it, finds what it found under every
-- other pid, each pid still stands at most once, and the next job ID is above all those in use.
pub deletejob_lem :
    (w : Jobs) (pid : ℕ)
    → pid ≢ 0
    → UniquePids w.jobs
    → ((deletejob w pid ≡ (w, false)) × NoPid pid w.jobs)
      ⊎ ((w' : Jobs) × (deletejob w pid ≡ (w', true))
          × (getjobpid w'.jobs pid ≡ none)
          × ((q : ℕ) → q ≢ pid → getjobpid w'.jobs q ≡ getjobpid w.jobs q)
          × UniquePids w'.jobs
          × All (λ j. j.jid < w'.nextjid) w'.jobs)
deletejob_lem w pid real u = elim (delete_loop-Deleted pid w.jobs real u) [
  | inl (absent, n) ↦ inl (delete_absent w pid real absent, n)
  | inr (js, deleted, d) ↦ inr (
    _,
    delete_eq w pid js real deleted,
    search js pid real ∙ d.gone,
    λ q ne. search-agree w.jobs js pid q d.others ne,
    d.unique u,
    All-below (maxjid js 0) js (maxjid-bounds js 0).1,
  )
]
