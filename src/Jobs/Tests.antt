-- ===== src/Jobs/Tests.antt =====
-- Runs of the job list.
use course_cs439_operating_s.Base.{ℕ, ◌≡◌, refl, inl, inr, none, some, [], ◌∷◌}
use course_cs439_operating_s.Jobs.{
  fg, bg, Job, Jobs, cleared, add_loop, addjob, first_job, getjobpid, getjobjid, pid2jid, fgpid,
}
use course_cs439_operating_s.Jobs.Find.{UniquePids}

abbrev job : ℕ → ℕ → Job
job pid jid = record { pid = pid; jid = jid; state = bg; cmdline = [] }

abbrev two_free : Jobs
two_free = record { jobs = job 11 1 ∷ cleared ∷ job 26 16 ∷ cleared ∷ []; nextjid = 17 }

-- After 17 the next job ID is 1, which a job of the list may have still.
repeated_job_id :
    (addjob (addjob two_free 30 fg []).0 31 bg []).0.jobs
    ≡ job 11 1 ∷ record { pid = 30; jid = 17; state = fg; cmdline = [] } ∷ job 26 16 ∷ job 31 1 ∷ []
unfolding addjob add_loop
repeated_job_id = refl

foreground : fgpid (addjob two_free 30 fg []).0.jobs ≡ 30
unfolding addjob add_loop fgpid
foreground = refl

job_id_of_pid : pid2jid two_free.jobs 26 ≡ 16
unfolding pid2jid first_job
job_id_of_pid = refl

pid_of_job_id : getjobjid two_free.jobs 16 ≡ some (job 26 16)
unfolding getjobjid first_job
pid_of_job_id = refl

not_listed : getjobpid two_free.jobs 30 ≡ none
unfolding getjobpid first_job
not_listed = refl

two_free-UniquePids : UniquePids two_free.jobs
two_free-UniquePids = (inr (refl, (refl, (refl, tt))), (inl refl, (inr (refl, tt), (inl refl, tt))))
