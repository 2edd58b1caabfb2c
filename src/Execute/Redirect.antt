-- ===== src/Execute/Redirect.antt =====
-- Redirections (src/execute.c), with HAVE_FCNTL, HAVE_DUP2, HAVE_OPEN and F_DUPFD_CLOEXEC. The
-- flushing of the standard streams is left out.
use tash.Base.{
  Bool, true, false, not, ◌&&◌, Option, none, some, List, [], ◌∷◌, ◌++◌, ◌==◌, if◌then◌else◌, Text,
  codes, same_text,
}
use tash.Builtins.State.{ℤ, pos, negsuc, is_negative}
use tash.Parser.Tree.{Redir, Word}
use tash.System.{open_file, close_fd, dup_fd, get_fd_flags, save_above, set_fd_flags, System}
use tash.World.{Ended, finished, ◌>>=◌, World, perform, record_call, set_status}

-- struct saved_fd
pub record SavedFd : Type 0 where
  pub original : ℤ
  pub saved : ℤ
  pub flags : ℤ

unfoldable pub save_fd : System → ℤ → World → Option SavedFd × World
unfolding perform
save_fd sys fd w =
    let (flags, w1) = perform sys (get_fd_flags fd) w in
    let (copy, w2) = perform sys (save_above fd) w1 in
    if is_negative flags
    then (none, w1)
    else if is_negative copy
    then (none, w2)
    else (some (record { original = fd; saved = copy; flags = flags }), w2)

unfoldable pub restore_fd : System → SavedFd → World → World
unfolding perform record_call
restore_fd sys s w =
    let (moved, w1) = perform sys (dup_fd s.saved s.original) w in
    let (set, w2) = perform sys (set_fd_flags s.original s.flags) w1 in
    record_call (close_fd s.saved) (if is_negative moved then w1 else w2)

-- From the first that was saved to the last.
unfoldable pub restore_fds : System → List SavedFd → World → World
unfolding restore_fd
restore_fds sys [] w = w
restore_fds sys (s ∷ saves) w = restore_fds sys saves (restore_fd sys s w)

-- What a redirection puts in place of its descriptor.
pub data Target : Type 0 where
  closing : Target
  from_fd : ℤ → Target
  opened : ℤ → Target

-- `src`, which is -1 for a descriptor to be closed.
abbrev source_fd : Target → ℤ
source_fd closing = negsuc 0
source_fd (from_fd n) = n
source_fd (opened n) = n

abbrev pub same_fd : ℤ → ℤ → Bool
same_fd (pos n) (pos m) = n == m
same_fd (negsuc n) (negsuc m) = n == m
same_fd _ _ = false

-- The target for the word's value: `none` where the descriptor is no number or the file cannot be
-- opened. A value that starts with a number is taken for it, whatever follows.
unfoldable pub target_of : System → Redir → Text → World → Option Target × World
unfolding perform
target_of sys r val w =
    let (fd, w1) = perform sys (open_file val r.input r.append) w in
    if r.dup
    then (if same_text val (codes "-")
        then (some closing, w)
        else if not (sys.converts val) && not (same_text val [])
        then (none, w)
        else (some (from_fd (sys.strtol val).0), w))
    else if is_negative fd
    then (none, w1)
    else (some (opened fd), w1)

-- `save before apply if neccesary`: `none` is an error, `some none` that nothing is to be saved.
unfoldable pub save_before : System → ℤ → Target → World → Option (Option SavedFd) × World
unfolding perform save_fd
save_before sys fd target w =
    let (flags, w1) = perform sys (get_fd_flags fd) w in
    let (saved, w2) = save_fd sys fd w1 in
    if not (is_negative flags) && not (same_fd (source_fd target) fd)
    then (elim saved [ none ↦ (none, w2) | some s ↦ (some (some s), w2) ])
    else (some none, w1)

-- `actually apply redir`; false is an error. A file that was opened is closed, but for one that got
-- the very descriptor.
unfoldable pub apply_target : System → ℤ → Target → World → Bool × World
unfolding perform record_call
apply_target sys fd closing w =
    let (n, w1) = perform sys (close_fd fd) w in (not (is_negative n), w1)
apply_target sys fd (from_fd src) w =
    let (n, w1) = perform sys (dup_fd src fd) w in
    if same_fd src fd then (true, w) else (not (is_negative n), w1)
apply_target sys fd (opened src) w =
    let (n, w1) = perform sys (dup_fd src fd) w in
    if same_fd src fd then (true, w) else (not (is_negative n), record_call (close_fd src) w1)

abbrev pub with_saved : List SavedFd → Option SavedFd → List SavedFd
with_saved saves none = saves
with_saved saves (some s) = saves ++ (s ∷ [])

unfoldable pub redirect_to :
    System → ℤ → Target → List SavedFd → World → Bool × List SavedFd × World
unfolding save_before apply_target
redirect_to sys fd target saves w =
    let (saved, w1) = save_before sys fd target w in
    elim saved [
      | none ↦ (false, saves, w1)
      | some s ↦ let (fine, w2) = apply_target sys fd target w1 in (fine, with_saved saves s, w2)
    ]

-- One redirection, with its word's value: the descriptors saved so far, with its own, and whether
-- it went well.
unfoldable pub apply_redir :
    System → Redir → Text → List SavedFd → World → Bool × List SavedFd × World
unfolding target_of redirect_to
apply_redir sys r val saves w =
    let (target, w1) = target_of sys r val w in
    elim target [ none ↦ (false, saves, w1) | some t ↦ redirect_to sys (pos r.fd) t saves w1 ]

-- `error:` of `apply_redirs`.
unfoldable pub undo_redirs : System → List SavedFd → World → Ended (Option (List SavedFd) × World)
unfolding restore_fds
undo_redirs sys saves w = finished (none, set_status (pos 1) (restore_fds sys saves w))

-- The fields of a redirection's word have to be one.
abbrev pub single_field : Option (List Text) → Option Text
single_field none = none
single_field (some []) = none
single_field (some (v ∷ [])) = some v
single_field (some (v ∷ _ ∷ _)) = none

-- `expand` is `word_expansion` with splitting. The result is what to restore, or `none` for -1.
module _ (sys : System) (expand : List Word → World → Ended (Option (List Text) × World)) where
  unfoldable pub apply_redirs :
      List Redir → List SavedFd → World → Ended (Option (List SavedFd) × World)
  unfolding apply_redir undo_redirs
  apply_redirs [] saves w = finished (some saves, w)
  apply_redirs (r ∷ redirs) saves w = expand (r.dest ∷ []) w >>= (λ (fields, w1).
      elim (single_field fields) [
        | none ↦ undo_redirs sys saves w1
        | some val ↦
            let (fine, saves', w2) = apply_redir sys r val saves w1 in
            elim fine [ false ↦ undo_redirs sys saves' w2 | true ↦ apply_redirs redirs saves' w2 ]
      ])
