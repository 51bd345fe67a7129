-- ===== src/Jobs/Find.antt =====
-- What the loops of addjob and deletejob in project0/jobs.c do to a search of the list by pid.
use course_cs439_operating_s.Base.{
  ℕ, ◌≡◌, refl, sym, ◌∙◌, ◌≢◌, ◌⊎◌, inl, inr, Bool, true, false, none, some, List, [], ◌∷◌, arith,
  ◌==◌, Bool-cases, ==_refl, All,
}
use course_cs439_operating_s.Jobs.{Job, cleared, add_loop, delete_loop, first_job}

abbrev pub with_pid : ℕ → Job → Bool
with_pid pid j = j.pid == pid

-- No job of the list has the pid.
abbrev pub NoPid : ℕ → List Job → Type 0
NoPid pid js = All (λ j. (j.pid == pid) ≡ false) js

first_job-NoPid : (pid : ℕ) (js : List Job) → NoPid pid js → first_job (with_pid pid) js ≡ none
unfolding first_job
first_job-NoPid pid [] h = refl
first_job-NoPid pid (j ∷ js) h = rw h.0 (first_job-NoPid pid js h.1)

-- Each pid but 0 stands at most once.
abbrev pub UniquePids : List Job → Type 0
UniquePids [] = Unit {0}
UniquePids (j ∷ js) = ((j.pid ≡ 0) ⊎ NoPid j.pid js) × UniquePids js

module _ (q : ℕ) (j : Job) (js : List Job) where
  first_job_hit : (j.pid == q) ≡ true → first_job (with_pid q) (j ∷ js) ≡ some j
  unfolding first_job
  first_job_hit h = rw h

  first_job_skip :
      (j.pid == q) ≡ false → first_job (with_pid q) (j ∷ js) ≡ first_job (with_pid q) js
  unfolding first_job
  first_job_skip h = rw h

-- Behind a common first entry two lists that agree on a pid agree.
first_job_under :
    (q : ℕ) (j : Job) (js js' : List Job)
    → first_job (with_pid q) js' ≡ first_job (with_pid q) js
    → first_job (with_pid q) (j ∷ js') ≡ first_job (with_pid q) (j ∷ js)
unfolding first_job
first_job_under q j js js' h = rw h

pub NoPid-first_job : (pid : ℕ) (js : List Job) → first_job (with_pid pid) js ≡ none → NoPid pid js
NoPid-first_job pid [] h = tt
NoPid-first_job pid (j ∷ js) h = elim (Bool-cases (j.pid == pid)) [
  | inl here ↦ absurd (cc (first_job_hit pid j js here, h))
  | inr apart ↦ (apart, NoPid-first_job pid js (sym (first_job_skip pid j js apart) ∙ h))
]

-- A pid that is found in neither list.
NoPid-same :
    (q : ℕ) (js js' : List Job)
    → NoPid q js
    → first_job (with_pid q) js' ≡ first_job (with_pid q) js
    → NoPid q js'
NoPid-same q js js' n h = NoPid-first_job q js' (h ∙ first_job-NoPid q js n)

-- The list after a job has been added, in place of a free entry.
pub record Added (new : Job) (js js' : List Job) : Type 0 where
  pub found : first_job (with_pid new.pid) js' ≡ some new
  pub others :
      (q : ℕ) → q ≢ 0 → q ≢ new.pid → first_job (with_pid q) js' ≡ first_job (with_pid q) js
  pub unique : UniquePids js → UniquePids js'

pub add_loop-Added :
    (new : Job) (js : List Job)
    → new.pid ≢ 0
    → NoPid new.pid js
    → ((add_loop new js ≡ none) × NoPid 0 js)
      ⊎ ((js' : List Job) × (add_loop new js ≡ some js') × Added new js js')
unfolding add_loop
add_loop-Added new [] real fresh = inl (refl, tt)
add_loop-Added new (j ∷ js) real fresh = elim (Bool-cases (j.pid == 0)) [
  | inl free ↦ inr (
    new ∷ js,
    rw free,
    record {
      found = first_job_hit new.pid new js (==_refl new.pid);
      others = λ q nz ne.
          first_job_skip q new js (ground arith) ∙ sym (first_job_skip q j js (ground arith));
      unique = λ u. (inr fresh.1, u.1);
    },
  )
  | inr used ↦ elim (add_loop-Added new js real fresh.1) [
    | inl (full, rest) ↦ inl (rw (used, full), (used, rest))
    | inr (js', added, a) ↦ inr (
      j ∷ js',
      rw (used, added),
      record {
        found = first_job_skip new.pid j js' fresh.0 ∙ a.found;
        others = λ q nz ne. first_job_under q j js js' (a.others q nz ne);
        unique = λ u. (
          elim u.0 [
            | inl z ↦ inl z
            | inr n ↦ inr (
                NoPid-same j.pid js js' n (a.others j.pid (ground arith) (ground (arith, fresh.0))))
          ],
          a.unique u.1,
        );
      },
    )
  ]
]

-- The list after the entry of a pid has been cleared.
pub record Deleted (pid : ℕ) (js js' : List Job) : Type 0 where
  pub gone : first_job (with_pid pid) js' ≡ none
  pub others : (q : ℕ) → q ≢ 0 → q ≢ pid → first_job (with_pid q) js' ≡ first_job (with_pid q) js
  pub unique : UniquePids js → UniquePids js'

cleared_skip :
    (q : ℕ) (js : List Job)
    → q ≢ 0
    → first_job (with_pid q) (cleared ∷ js) ≡ first_job (with_pid q) js
cleared_skip q js nz = first_job_skip q cleared js (ground arith)

pub delete_loop-Deleted :
    (pid : ℕ) (js : List Job)
    → pid ≢ 0
    → UniquePids js
    → ((delete_loop pid js ≡ none) × NoPid pid js)
      ⊎ ((js' : List Job) × (delete_loop pid js ≡ some js') × Deleted pid js js')
unfolding delete_loop
delete_loop-Deleted pid [] real u = inl (refl, tt)
delete_loop-Deleted pid (j ∷ js) real u = elim (Bool-cases (j.pid == pid)) [
  | inl here ↦
      let same : j.pid ≡ pid = ground arith in
      let once : NoPid pid js = elim u.0 [
        | inl z ↦ absurd (real (sym same ∙ z))
        | inr n ↦ rw same at n
      ] in
      inr (
        cleared ∷ js,
        rw here,
        record {
          gone = cleared_skip pid js real ∙ first_job-NoPid pid js once;
          others = λ q nz ne. cleared_skip q js nz ∙ sym (first_job_skip q j js (ground arith));
          unique = λ u. (inl refl, u.1);
        },
      )
  | inr apart ↦ elim (delete_loop-Deleted pid js real u.1) [
    | inl (absent, rest) ↦ inl (rw (apart, absent), (apart, rest))
    | inr (js', deleted, d) ↦ inr (
      j ∷ js',
      rw (apart, deleted),
      record {
        gone = first_job_skip pid j js' apart ∙ d.gone;
        others = λ q nz ne. first_job_under q j js js' (d.others q nz ne);
        unique = λ u. (
          elim (Bool-cases (j.pid == 0)) [
            | inl free ↦ inl (ground arith)
            | inr used ↦ elim u.0 [
              | inl z ↦ inl z
              | inr n ↦
                  inr (NoPid-same j.pid js js' n (d.others j.pid (ground arith) (ground arith)))
            ]
          ],
          d.unique u.1,
        );
      },
    )
  ]
]
