-- ===== src/Jobs/Isolation.antt =====
-- What a child can change in its parent (src/jobs.c): nothing but the status and the interrupt.
use tash.Base.{◌≡◌, refl, ap, ◌∙◌, Bool, false, List, [], ◌∷◌, if◌then◌else◌, if_intro}
use tash.Builtins.State.{ℤ, is_negative, Control}
use tash.System.{Call, fork_process, set_group, wait_child, Status, exit_with, signaled, System}
use tash.World.{
  Ended, finished, exited, crashed, stuck, runaway, ◌>>=◌, Rest, World, perform, record_call,
}
use tash.Jobs.{
  Group, job_init_group, child_status, job_report_termination, as_child, as_parent, forked,
  job_fork_async, job_fork, wait_for, job_wait, job_single,
}

-- The same state but for the exit status, the interrupt flag and the system calls.
pub record SameBut (u v : World) : Type 0 where
  pub control : v.0 ≡ record u.0 { exit_status = v.0.exit_status; sigint_break = v.0.sigint_break }
  pub rest : v.1 ≡ record u.1 { history = v.1.history }

pub SameBut-refl : (w : World) → SameBut w w
SameBut-refl (c, r) = record { control = refl; rest = refl }

pub SameBut-trans : (u v w : World) → SameBut u v → SameBut v w → SameBut u w
SameBut-trans u v (c, r) h k = record {
  control =
      k.control
      ∙ ap
          (λ (x : Control). record x { exit_status = c.exit_status; sigint_break = c.sigint_break })
          h.control;
  rest = k.rest ∙ ap (λ (x : Rest). record x { history = r.history }) h.rest;
}

pub SameBut-record_call : (call : Call) (w : World) → SameBut w (record_call call w)
unfolding record_call
SameBut-record_call call (c, r) = record { control = refl; rest = refl }

pub SameBut-perform : (sys : System) (call : Call) (w : World) → SameBut w (perform sys call w).1
unfolding perform
SameBut-perform sys call (c, r) = record { control = refl; rest = refl }

pub SameBut-if :
    (b : Bool) (u v w : World) → SameBut u v → SameBut u w → SameBut u (if b then v else w)
SameBut-if b u v w h k = if_intro (SameBut u) b v w (λ _. h) (λ _. k)

SameBut-report :
    (status : Status) (bg : Bool) (w : World) → SameBut w (job_report_termination status bg w)
unfolding job_report_termination
SameBut-report (exit_with n) bg (c, r) = record { control = refl; rest = refl }
SameBut-report (signaled sig) bg (c, r) = record { control = refl; rest = refl }

SameBut-wait_for :
    (sys : System) (childs : List (ℤ × ℤ)) (w : World) → SameBut w (wait_for sys childs w)
unfolding wait_for
SameBut-wait_for sys [] w = SameBut-refl w
SameBut-wait_for sys ((pid, code) ∷ childs) w =
    let called = record_call (wait_child pid) w in
    let status = child_status sys called.1.history code in
    let reported = job_report_termination status false called in
    SameBut-trans w called (wait_for sys childs reported) (SameBut-record_call (wait_child pid) w) (
      SameBut-trans called reported (wait_for sys childs reported)
        (SameBut-report status false called) (SameBut-wait_for sys childs reported))

pub SameBut-job_wait : (sys : System) (group : Group) (w : World) → SameBut w (job_wait sys group w)
unfolding job_wait
SameBut-job_wait sys group w =
    SameBut-trans _ _ _ (SameBut-wait_for sys group.childs w)
      (SameBut-if _ _ _ _ (SameBut-record_call _ (wait_for sys group.childs w)) (SameBut-refl _))

-- A property of the value of a run that comes back.
abbrev pub Holds {ℓ κ} : {A : Type ℓ} → (A → Type κ) → Ended A → Type κ
Holds P (finished a) = P a
Holds P _ = Unit

pub Holds-bind {ℓ κ μ ν} :
    {A : Type ℓ} {B : Type κ} (P : A → Type μ) (Q : B → Type ν) (e : Ended A) (k : A → Ended B)
    → Holds P e
    → ((a : A) → P a → Holds Q (k a))
    → Holds Q (e >>= k)
Holds-bind P Q (finished a) k h g = g a h
Holds-bind P Q (exited n t) k h g = tt
Holds-bind P Q crashed k h g = tt
Holds-bind P Q stuck k h g = tt
Holds-bind P Q runaway k h g = tt

pub Holds-weaken {ℓ μ ν} :
    {A : Type ℓ} (P : A → Type μ) (Q : A → Type ν) (e : Ended A)
    → Holds P e
    → ((a : A) → P a → Q a)
    → Holds Q e
Holds-weaken P Q (finished a) h g = g a h
Holds-weaken P Q (exited n t) h g = tt
Holds-weaken P Q crashed h g = tt
Holds-weaken P Q stuck h g = tt
Holds-weaken P Q runaway h g = tt

pub held {ℓ} :
    {A : Type 0} (P : A → Type ℓ) (e : Ended A) (a : A) → Holds P e → e ≡ finished a → P a
held P e a h q = rw q at h

-- The state that a fork, or a wait, comes back with.
abbrev pub SameForked : World → ℤ × Group × World → Type 0
SameForked w (pid, group, w') = SameBut w w'

SameBut-as_parent :
    (pid code : ℤ) (group : Group) (w : World) → SameBut w (as_parent pid code group w).1
unfolding as_parent
SameBut-as_parent pid code group (c, r) =
    SameBut-if r.flags.job_control (c, r) (record_call (set_group pid group.leader) (c, r)) (c, r)
      (SameBut-record_call (set_group pid group.leader) (c, r)) (SameBut-refl (c, r))

forked-Same :
    (pid : ℤ) (group : Group) (w : World) (e : Ended World)
    → Holds (SameForked w) (forked pid group w e)
unfolding forked
forked-Same pid group (c, r) (exited code history) =
    SameBut-trans (c, r) (c, record r { history = history }) _
      (record { control = refl; rest = refl })
      (SameBut-as_parent pid code group (c, record r { history = history }))
forked-Same pid group w (finished _) = tt
forked-Same pid group w crashed = tt
forked-Same pid group w stuck = tt
forked-Same pid group w runaway = tt

pub job_fork_async-Same :
    (sys : System) (child : World → Ended World) (group : Group) (w : World)
    → Holds (SameForked w) (job_fork_async sys child group w)
unfolding job_fork_async
job_fork_async-Same sys child group w =
    let (pid, w1) = perform sys fork_process w in
    if_intro (Holds (SameForked w)) (is_negative pid) (finished (pid, group, w1))
      (forked pid group w1 (child (as_child group.leader w1)))
      (λ _. SameBut-perform sys fork_process w)
      (λ _.
        Holds-weaken (SameForked w1) (SameForked w)
          (forked pid group w1 (child (as_child group.leader w1)))
          (forked-Same pid group w1 (child (as_child group.leader w1)))
          (λ (n, g, v) h. SameBut-trans w w1 v (SameBut-perform sys fork_process w) h))

pub job_fork-Same :
    (sys : System) (child : World → Ended World) (group : Group) (w : World)
    → Holds (SameForked w) (job_fork sys child group w)
unfolding job_fork
job_fork-Same sys child group w =
    Holds-bind (SameForked w) (SameForked w) (job_fork_async sys child group w) _
      (job_fork_async-Same sys child group w)
      (λ (pid, group', w') h.
        SameBut-trans w w' _ h (SameBut-if _ _ _ _ (SameBut-record_call _ w') (SameBut-refl w')))

pub job_single-Same :
    (sys : System) (child : World → Ended World) (w : World)
    → Holds (SameBut w) (job_single sys child w)
unfolding job_single
job_single-Same sys child w =
    Holds-bind (SameForked w) (SameBut w) (job_fork sys child job_init_group w) _
      (job_fork-Same sys child job_init_group w)
      (λ (pid, group, w') h.
        if_intro (Holds (SameBut w)) (is_negative pid) _ _ (λ _. h)
          (λ _. SameBut-trans w w' _ h (SameBut-job_wait sys group w')))
