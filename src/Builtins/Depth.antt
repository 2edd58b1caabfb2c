-- ===== src/Builtins/Depth.antt =====
-- `loop_depth` and `stack_depth` through the builtins (src/builtin.c).
use tash.Base.{
  ℕ, zero, suc, ◌+◌, ◌≡◌, ◌∙◌, Bool, true, false, not, Option, none, some, List, [], ◌∷◌, ◌++◌,
  if◌then◌else◌, if_intro, arith, Text, codes, same_text,
}
use tash.Vars.{getvar}
use tash.Builtins.State.{ℤ, pos, negsuc, is_negative, Control, Strtol}
use tash.Builtins.Control.{Effect, builtin_break, builtin_continue, builtin_return, builtin_shift}
use tash.Builtins.Process.{
  Result, builtin_exit, builtin_cd, builtin_src, builtin_echo, builtin_eval, builtin_wait,
  builtin_kill, KillOptions, kill_options, chosen, invalid_signal, no_number, exit_with_code,
  eval_script, echo_args, wait_all, wait_pids, kill_pids, restored, joined, sigterm,
  status_and_world, set_pwd, set_pwd_from,
}
use tash.Builtins.Dispatch.{Builtin, builtins, find_builtin, try_builtin, on_control, handler_of}
use tash.System.{System, Call, Status, exit_with, signaled, open_file, close_fd, write_text}
use tash.World.{Ended, finished, crashed, ◌>>=◌, World, perform, record_call, set_status}
use tash.Jobs.{job_wait_pid, job_report_termination}
use tash.Jobs.Isolation.{Holds, Holds-bind}

-- The state is inside so many loops, functions and scripts.
abbrev pub At : ℕ → ℕ → World → Type 0
At l s w = (w.0.loop_depth ≡ l) × (w.0.stack_depth ≡ s)

abbrev pub AtWith {ℓ} : {A : Type ℓ} → ℕ → ℕ → A × World → Type 0
AtWith l s p = At l s p.1

-- What runs a text keeps the depths.
abbrev pub KeepsDepths : (Text → World → Ended World) → Type 0
KeepsDepths interpret =
    (l s : ℕ) (text : Text) (w : World) → At l s w → Holds (At l s) (interpret text w)

-- A builtin does.
abbrev pub Balanced : (List Text → World → Result) → Type 0
Balanced handler =
    (l s : ℕ) (args : List Text) (w : World) → At l s w → Holds (AtWith l s) (handler args w)

module _ (strtol : Strtol) where
  break-depths :
      (args : List Text) (c : Control)
      → ((builtin_break strtol args c).0.loop_depth ≡ c.loop_depth)
        × ((builtin_break strtol args c).0.stack_depth ≡ c.stack_depth)
  unfolding builtin_break
  break-depths [] c = ground arith
  break-depths (a ∷ []) c = ground arith
  break-depths (a ∷ b ∷ rest) c = ground arith

  continue-depths :
      (args : List Text) (c : Control)
      → ((builtin_continue strtol args c).0.loop_depth ≡ c.loop_depth)
        × ((builtin_continue strtol args c).0.stack_depth ≡ c.stack_depth)
  unfolding builtin_continue
  continue-depths [] c = ground arith
  continue-depths (a ∷ []) c = ground arith
  continue-depths (a ∷ b ∷ rest) c = ground arith

  return-depths :
      (args : List Text) (c : Control)
      → ((builtin_return strtol args c).0.loop_depth ≡ c.loop_depth)
        × ((builtin_return strtol args c).0.stack_depth ≡ c.stack_depth)
  unfolding builtin_return
  return-depths [] c = ground arith
  return-depths (a ∷ []) c = ground arith
  return-depths (a ∷ b ∷ rest) c = ground arith

  shift-depths :
      (args : List Text) (c : Control)
      → ((builtin_shift strtol args c).0.loop_depth ≡ c.loop_depth)
        × ((builtin_shift strtol args c).0.stack_depth ≡ c.stack_depth)
  unfolding builtin_shift
  shift-depths [] c = ground arith
  shift-depths (a ∷ []) c = ground (arith, strtol a)
  shift-depths (a ∷ b ∷ rest) c = ground arith

exit-Balanced : (sys : System) → Balanced (builtin_exit sys)
unfolding builtin_exit exit_with_code
exit-Balanced sys l s [] (c, r) h = tt
exit-Balanced sys l s (a ∷ []) (c, r) h =
    if_intro (Holds {A = ℤ × World} (AtWith l s)) (not (sys.strtol a).1)
      (exit_with_code (pos 2) (c, r)) (exit_with_code (sys.strtol a).0 (c, r)) (λ _. tt) (λ _. tt)
exit-Balanced sys l s (a ∷ b ∷ rest) w h = h

cd-Balanced : (sys : System) → Balanced (builtin_cd sys)
unfolding builtin_cd perform set_pwd set_pwd_from
cd-Balanced sys l s [] (c, r) h = at_home (getvar (codes "HOME") r.tables.vars)
  where
    at_home :
        (home : Option Text)
        → Holds (AtWith l s) (elim home as (λ x. Result) [
          | none ↦ finished (pos 1, (c, r))
          | some home ↦
              let (n, w1) = perform sys (Call.change_directory home) (c, r) in
              if is_negative n then finished (pos 1, w1) else finished (pos 0, set_pwd home w1)
        ])
    at_home none = h
    at_home (some home) = ground arith
cd-Balanced sys l s (dir ∷ []) (c, r) h = ground arith
cd-Balanced sys l s (a ∷ b ∷ rest) w h = h

echo_args-Balanced : (sys : System) (newline : Bool) → Balanced (echo_args sys newline)
unfolding echo_args perform
echo_args-Balanced sys newline l s [] (c, r) h = ground arith
echo_args-Balanced sys newline l s (arg ∷ args) (c, r) h =
    let behind : Text = elim args [ [] ↦ [] | _ ∷ _ ↦ b' ' ∷ [] ] in
    let (n, w1) = perform sys (write_text (arg ++ behind)) (c, r) in
    if_intro (Holds (AtWith l s)) (is_negative n) (finished (pos 1, w1))
      (echo_args sys newline args w1) (λ _. h) (λ _. echo_args-Balanced sys newline l s args w1 h)

echo-Balanced : (sys : System) → Balanced (builtin_echo sys)
unfolding builtin_echo
echo-Balanced sys l s [] w h = echo_args-Balanced sys true l s [] w h
echo-Balanced sys l s (a ∷ []) w h = echo_args-Balanced sys true l s (a ∷ []) w h
echo-Balanced sys l s (a ∷ b ∷ rest) w h =
    if_intro (Holds (AtWith l s)) (same_text a (codes "-n")) (echo_args sys false (b ∷ rest) w)
      (echo_args sys true (a ∷ b ∷ rest) w) (λ _. echo_args-Balanced sys false l s (b ∷ rest) w h)
      (λ _. echo_args-Balanced sys true l s (a ∷ b ∷ rest) w h)

report-At :
    (l s : ℕ) (status : Status) (w : World)
    → At l s w
    → At l s (job_report_termination status false w)
unfolding job_report_termination
report-At l s (exit_with n) (c, r) h = h
report-At l s (signaled n) (c, r) h = h

wait_pid-At :
    (l s : ℕ) (sys : System) (pid : ℤ) (w : World) → At l s w → At l s (job_wait_pid sys pid w).1
unfolding job_wait_pid perform
wait_pid-At l s sys pid (c, r) h =
    let (n, w1) = perform sys (Call.wait_child pid) (c, r) in
    if_intro (λ (p : Bool × World). At l s p.1) (is_negative n) (false, w1)
      (true, job_report_termination (sys.status_of w1.1.history) false w1) (λ _. h)
      (λ _. report-At l s (sys.status_of w1.1.history) w1 h)

wait_all-At :
    (sys : System) (f l s : ℕ) (w : World) → At l s w → Holds (AtWith l s) (wait_all sys f w)
unfolding wait_all
wait_all-At sys zero l s w h = tt
wait_all-At sys (suc f) l s w h =
    let (found, w1) = job_wait_pid sys (negsuc 0) w in
    let k = wait_pid-At l s sys (negsuc 0) w h in
    if_intro (Holds (AtWith l s)) found (wait_all sys f w1) (finished (pos 0, w1))
      (λ _. wait_all-At sys f l s w1 k) (λ _. k)

if_At : (l s : ℕ) (b : Bool) (u v : World) → At l s u → At l s v → At l s (if b then u else v)
if_At l s b u v h k = if_intro (At l s) b u v (λ _. h) (λ _. k)

wait_pids-At :
    (sys : System) (l s : ℕ) (args : List Text) (w : World)
    → At l s w
    → At l s (wait_pids sys args w)
unfolding wait_pids
wait_pids-At sys l s [] w h = h
wait_pids-At sys l s (arg ∷ args) w h =
    let (pid, valid) = sys.strtol arg in
    let (found, w1) = job_wait_pid sys pid w in
    let k = wait_pid-At l s sys pid w h in
    wait_pids-At sys l s args _ (
      if_At l s (not valid) (set_status (pos 1) w) (if found then w1 else set_status (pos 127) w1) h
        (if_At l s found w1 (set_status (pos 127) w1) k k))

wait-Balanced : (sys : System) (f : ℕ) → Balanced (builtin_wait sys f)
unfolding builtin_wait
wait-Balanced sys f l s [] w h = wait_all-At sys f l s (set_status (pos 0) w) h
wait-Balanced sys f l s (arg ∷ args) w h =
    wait_pids-At sys l s (arg ∷ args) (set_status (pos 0) w) h

kill_pids-At :
    (sys : System) (sig : ℤ) (l s : ℕ) (args : List Text) (w : World)
    → At l s w
    → At l s (kill_pids sys sig args w)
unfolding kill_pids perform
kill_pids-At sys sig l s [] w h = h
kill_pids-At sys sig l s (arg ∷ args) w h =
    let (pid, valid) = sys.strtol arg in
    let (n, w1) = perform sys (Call.send_signal pid sig) w in
    kill_pids-At sys sig l s args _ (
      if_At l s (not valid) (set_status (pos 1) w)
        (if is_negative n then set_status (pos 1) w1 else w1) h
        (if_At l s (is_negative n) (set_status (pos 1) w1) w1 h h))

kill-Balanced : (sys : System) → Balanced (builtin_kill sys)
unfolding builtin_kill
kill-Balanced sys l s args w h = split (kill_options sys args sigterm)
  where
    split :
        (o : KillOptions)
        → Holds (AtWith l s) (elim o as (λ x. Result) [
          | invalid_signal ↦ finished (pos 1, set_status (pos 0) w)
          | no_number ↦ crashed
          | chosen sig pids ↦ elim pids [
            | [] ↦ finished (pos 1, set_status (pos 0) w)
            | pid ∷ pids ↦ status_and_world (kill_pids sys sig (pid ∷ pids) (set_status (pos 0) w))
          ]
        ])
    split invalid_signal = h
    split no_number = tt
    split (chosen sig []) = h
    split (chosen sig (pid ∷ pids)) = kill_pids-At sys sig l s (pid ∷ pids) (set_status (pos 0) w) h

control-Balanced :
    (builtin : List Text → Control → Effect)
    → ((args : List Text) (c : Control)
        → ((builtin args c).0.loop_depth ≡ c.loop_depth)
          × ((builtin args c).0.stack_depth ≡ c.stack_depth))
    → Balanced (on_control builtin)
control-Balanced builtin depths l s args (c, r) h =
    ((depths args c).0 ∙ h.0, (depths args c).1 ∙ h.1)

module _ (sys : System) (interpret : Text → World → Ended World)
    (keeps : KeepsDepths interpret) where
  eval_script-At :
      (l s : ℕ) (path : Text) (w : World)
      → At l s w
      → Holds (At l s) (eval_script sys interpret path w)
  unfolding eval_script perform record_call
  eval_script-At l s path (c, r) h =
      let (fd, (c1, r1)) = perform sys (open_file path true false) (c, r) in
      let script = interpret (sys.contents r1.history path) (c1, r1) in
      let closed : Ended World = script >>= (λ w. finished (record_call (close_fd fd) w)) in
      if_intro (Holds (At l s)) (same_text path (codes "-"))
        (interpret (sys.contents r.history path) (c, r))
        (if is_negative fd then finished (set_status (pos 1) (c1, r1)) else closed)
        (λ _. keeps l s _ (c, r) h)
        (λ _.
          if_intro (Holds (At l s)) (is_negative fd) (finished (set_status (pos 1) (c1, r1))) closed
            (λ _. h)
            (λ _. Holds-bind (At l s) (At l s) script _ (keeps l s _ (c1, r1) h) (λ w k. k)))

  src-Balanced : Balanced (builtin_src sys interpret)
  unfolding builtin_src restored
  src-Balanced l s [] w h = h
  src-Balanced l s (path ∷ args) (c, r) h =
      let inner : World =
        (record c { args = args; stack_depth = c.stack_depth + 1 }, record r { argv0 = path }) in
      Holds-bind (At l (s + 1)) (AtWith l s) (eval_script sys interpret path inner) _
        (eval_script-At l (s + 1) path inner (h.0, omega arith)) (λ (c', r') k. (k.0, omega arith))

  eval-Balanced : Balanced (builtin_eval sys interpret)
  unfolding builtin_eval
  eval-Balanced l s args w h =
      Holds-bind (At l s) (AtWith l s) (interpret (joined sys interpret args) w) _ (keeps l s _ w h)
        (λ w' k. k)

  abbrev AllBalanced : List Builtin → Type 0
  AllBalanced [] = Unit
  AllBalanced (b ∷ bs) = Balanced b.handler × AllBalanced bs

  builtins-Balanced : (f : ℕ) → AllBalanced (builtins sys interpret f)
  unfolding builtins
  builtins-Balanced f = (
    cd-Balanced sys,
    (
      exit-Balanced sys,
      (
        (λ l s args w h. h),
        (
          src-Balanced,
          (
            src-Balanced,
            (
              (λ l s args w h. h),
              (
                echo-Balanced sys,
                (
                  eval-Balanced,
                  (
                    (λ l s args w h. h),
                    (
                      (λ l s args w h. h),
                      (
                        (λ l s args w h. h),
                        (
                          control-Balanced (builtin_break sys.strtol) (break-depths sys.strtol),
                          (
                            control-Balanced (builtin_continue sys.strtol)
                                (continue-depths sys.strtol),
                            (
                              wait-Balanced sys f,
                              (
                                control-Balanced (builtin_return sys.strtol)
                                    (return-depths sys.strtol),
                                (
                                  control-Balanced (builtin_shift sys.strtol)
                                      (shift-depths sys.strtol),
                                  ((λ l s args w h. h), (kill-Balanced sys, tt)),
                                ),
                              ),
                            ),
                          ),
                        ),
                      ),
                    ),
                  ),
                ),
              ),
            ),
          ),
        ),
      ),
    ),
  )

  find-Balanced :
      (name : Text) (bs : List Builtin)
      → AllBalanced bs
      → Balanced (handler_of (find_builtin name bs))
  unfolding find_builtin
  find-Balanced name [] all = λ l s args w h. h
  find-Balanced name (b ∷ bs) all =
      if_intro (λ (o : Option Builtin). Balanced (handler_of o)) (same_text name b.name) (some b)
        (find_builtin name bs) (λ _. all.0) (λ _. find-Balanced name bs all.1)

  -- Every builtin comes back with the depths of loops and of functions and scripts that it found.
  pub try_builtin-At :
      (f l s : ℕ) (name : Text) (args : List Text) (w : World)
      → At l s w
      → Holds (AtWith l s) (try_builtin sys interpret f name args w)
  unfolding try_builtin
  try_builtin-At f l s name args w h =
      find-Balanced name (builtins sys interpret f) (builtins-Balanced f) l s args w h
