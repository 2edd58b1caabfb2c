-- ===== src/Execute/Balance/Redirect.antt =====
-- `loop_depth` and `stack_depth` through the parts of the execution (src/execute.c and
-- src/builtin.c): everything but loops, functions and scripts leaves them alone.
use tash.Base.{ℕ, refl, ap, ◌∙◌, Bool, true, false, Option, none, some, List, [], ◌∷◌, arith, Text}
use tash.Builtins.State.{ℤ, pos, Control}
use tash.Builtins.Depth.{At, AtWith}
use tash.Expand.Shell.{Expanded, ok, expansion_error}
use tash.Parser.Tree.{Redir, Word}
use tash.System.{System}
use tash.World.{Ended, World, perform, record_call, set_status, of_expanded}
use tash.Jobs.Isolation.{SameBut, SameBut-trans, SameBut-refl, Holds, Holds-bind}
use tash.Execute.Redirect.{
  SavedFd, Target, closing, from_fd, opened, save_fd, restore_fd, restore_fds, target_of,
  save_before, apply_target, with_saved, redirect_to, apply_redir, undo_redirs, single_field,
  apply_redirs,
}

module _ (l s : ℕ) where
  pub At-SameBut : (u v : World) → At l s u → SameBut u v → At l s v
  At-SameBut u v h k = (
    ap (λ (c : Control). c.loop_depth) k.control ∙ h.0,
    ap (λ (c : Control). c.stack_depth) k.control ∙ h.1,
  )

  pub of_expanded-At :
      {A : Type 0} (w : World) (e : Expanded A) → At l s w → Holds (AtWith l s) (of_expanded w e)
  unfolding of_expanded
  of_expanded-At (c, r) (ok a sh) h = h
  of_expanded-At (c, r) (expansion_error sh) h = h
  of_expanded-At (c, r) Expanded.crashed h = tt
  of_expanded-At (c, r) Expanded.stuck h = tt
  of_expanded-At (c, r) Expanded.runaway h = tt

restore_fd-Same : (sys : System) (saved : SavedFd) (w : World) → SameBut w (restore_fd sys saved w)
unfolding restore_fd perform record_call
restore_fd-Same sys saved (c, r) = ground arith

pub restore_fds-Same :
    (sys : System) (saves : List SavedFd) (w : World) → SameBut w (restore_fds sys saves w)
unfolding restore_fds
restore_fds-Same sys [] w = SameBut-refl w
restore_fds-Same sys (saved ∷ saves) w =
    SameBut-trans _ _ _ (restore_fd-Same sys saved w)
      (restore_fds-Same sys saves (restore_fd sys saved w))

target_of-Same :
    (sys : System) (r : Redir) (val : Text) (w : World) → SameBut w (target_of sys r val w).1
unfolding target_of perform
target_of-Same sys redir val (c, r) = ground arith

save_before-Same :
    (sys : System) (fd : ℤ) (t : Target) (w : World) → SameBut w (save_before sys fd t w).1
unfolding save_before perform save_fd
save_before-Same sys fd t (c, r) = ground arith

apply_target-Same :
    (sys : System) (fd : ℤ) (t : Target) (w : World) → SameBut w (apply_target sys fd t w).1
unfolding apply_target perform record_call
apply_target-Same sys fd closing (c, r) = ground arith
apply_target-Same sys fd (from_fd n) (c, r) = ground arith
apply_target-Same sys fd (opened n) (c, r) = ground arith

redirect_to-Same :
    (sys : System) (fd : ℤ) (t : Target) (saves : List SavedFd) (w : World)
    → SameBut w (redirect_to sys fd t saves w).2
unfolding redirect_to
redirect_to-Same sys fd t saves w =
    split (save_before sys fd t w).0 (save_before sys fd t w).1 (save_before-Same sys fd t w)
  where
    split :
        (saved : Option (Option SavedFd)) (v : World)
        → SameBut w v
        → SameBut w (
            (elim saved as (λ x. Bool × List SavedFd × World) [
              | none ↦ (false, saves, v)
              | some s ↦ let (fine, w2) = apply_target sys fd t v in (fine, with_saved saves s, w2)
            ]).2)
    split none v h = h
    split (some s) v h = SameBut-trans w v _ h (apply_target-Same sys fd t v)

apply_redir-Same :
    (sys : System) (redir : Redir) (val : Text) (saves : List SavedFd) (w : World)
    → SameBut w (apply_redir sys redir val saves w).2
unfolding apply_redir
apply_redir-Same sys redir val saves w =
    split (target_of sys redir val w).0 (target_of sys redir val w).1
      (target_of-Same sys redir val w)
  where
    split :
        (target : Option Target) (v : World)
        → SameBut w v
        → SameBut w (
            (elim target as (λ x. Bool × List SavedFd × World) [
              | none ↦ (false, saves, v)
              | some t ↦ redirect_to sys (pos redir.fd) t saves v
            ]).2)
    split none v h = h
    split (some t) v h = SameBut-trans w v _ h (redirect_to-Same sys (pos redir.fd) t saves v)

SameBut-set_status : (n : ℤ) (w : World) → SameBut w (set_status n w)
SameBut-set_status n (c, r) = record { control = refl; rest = refl }

module _ (l s : ℕ) (sys : System) (expand : List Word → World → Ended (Option (List Text) × World))
    (expand_At : (ws : List Word) (w : World) → At l s w → Holds (AtWith l s) (expand ws w)) where
  undo_redirs-At :
      (saves : List SavedFd) (w : World) → At l s w → Holds (AtWith l s) (undo_redirs sys saves w)
  unfolding undo_redirs
  undo_redirs-At saves w h = At-SameBut l s w _ h (
      SameBut-trans w (restore_fds sys saves w) _ (restore_fds-Same sys saves w)
        (SameBut-set_status (pos 1) (restore_fds sys saves w)))

  pub apply_redirs-At :
      (redirs : List Redir) (saves : List SavedFd) (w : World)
      → At l s w
      → Holds (AtWith l s) (apply_redirs sys expand redirs saves w)
  unfolding apply_redirs
  apply_redirs-At [] saves w h = h
  apply_redirs-At (redir ∷ redirs) saves w h =
      Holds-bind (AtWith l s) (AtWith l s) (expand (redir.dest ∷ []) w) _ (expand_At _ w h)
        (λ (fields, w1) k. with_value (single_field fields) w1 k (apply_redirs-At redirs))
    where
      fields_done :
          (fine : Bool) (saves' : List SavedFd) (w2 : World)
          → At l s w2
          → ((saves : List SavedFd) (w : World)
              → At l s w
              → Holds (AtWith l s) (apply_redirs sys expand redirs saves w))
          → Holds (AtWith l s) (elim fine as (λ x. Ended (Option (List SavedFd) × World)) [
            | false ↦ undo_redirs sys saves' w2
            | true ↦ apply_redirs sys expand redirs saves' w2
          ])
      fields_done false saves' w2 k ih = undo_redirs-At saves' w2 k
      fields_done true saves' w2 k ih = ih saves' w2 k

      with_value :
          (field : Option Text) (w1 : World)
          → At l s w1
          → ((saves : List SavedFd) (w : World)
              → At l s w
              → Holds (AtWith l s) (apply_redirs sys expand redirs saves w))
          → Holds (AtWith l s) (elim field as (λ x. Ended (Option (List SavedFd) × World)) [
            | none ↦ undo_redirs sys saves w1
            | some val ↦
                let (fine, saves', w2) = apply_redir sys redir val saves w1 in
                elim fine [
                  | false ↦ undo_redirs sys saves' w2
                  | true ↦ apply_redirs sys expand redirs saves' w2
                ]
          ])
      with_value none w1 k ih = undo_redirs-At saves w1 k
      with_value (some val) w1 k ih =
          let (fine, saves', w2) = apply_redir sys redir val saves w1 in
          fields_done fine saves' w2
            (At-SameBut l s w1 w2 k (apply_redir-Same sys redir val saves w1)) ih
