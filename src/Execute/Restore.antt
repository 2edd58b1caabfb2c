-- ===== src/Execute/Restore.antt =====
-- What `restore_fds` (src/execute.c) puts back, for a system whose `dup2`, `close` and `fcntl` do
-- what they are documented to.
use tash.Base.{◌≡◌, refl, ◌∙◌, false, Option, none, some, List, [], ◌∷◌, if◌then◌else◌, arith}
use tash.Builtins.State.{ℤ, is_negative}
use tash.System.{History, System, close_fd, dup_fd, set_fd_flags}
use tash.World.{World, perform, record_call}
use tash.Execute.Redirect.{SavedFd, same_fd, restore_fd, restore_fds}

-- The table of descriptors behind the calls of a process: `dup2(a, b)` puts the file of `a` at `b`
-- and leaves the others, F_SETFD leaves all, and `close` leaves all but its own.
pub record Descriptors (File : Type 0) (sys : System) : Type 0 where
  pub table : History → ℤ → File
  pub dup_works : (h : History) (a b : ℤ) → is_negative (sys.answer h (dup_fd a b)) ≡ false
  pub moved :
      (h : History) (a b x : ℤ)
      → table (dup_fd a b ∷ h) x ≡ (if same_fd x b then table h a else table h x)
  pub flagged : (h : History) (fd flags x : ℤ) → table (set_fd_flags fd flags ∷ h) x ≡ table h x
  pub closed :
      (h : History) (fd x : ℤ) → same_fd x fd ≡ false → table (close_fd fd ∷ h) x ≡ table h x

-- No copy that was saved is `x`.
abbrev pub Outside : ℤ → List SavedFd → Type 0
Outside x [] = Unit
Outside x (s ∷ saves) = (same_fd x s.saved ≡ false) × Outside x saves

-- No copy is `fd`, or the copy `copy`.
abbrev pub Apart : ℤ → ℤ → List SavedFd → Type 0
Apart fd copy [] = Unit
Apart fd copy (s ∷ saves) =
    (same_fd s.saved fd ≡ false) × (same_fd s.saved copy ≡ false) × Apart fd copy saves

-- The copies are descriptors of their own, as F_DUPFD_CLOEXEC gives them.
abbrev pub Fresh : List SavedFd → Type 0
Fresh [] = Unit
Fresh (s ∷ saves) = Apart s.original s.saved saves × Fresh saves

-- The copy that was saved last for a descriptor.
abbrev pub last_saved : ℤ → List SavedFd → Option ℤ
last_saved x [] = none
last_saved x (s ∷ saves) = elim (last_saved x saves) [
  | some copy ↦ some copy
  | none ↦ if same_fd x s.original then some s.saved else none
]

abbrev pub file_from {ℓ} : {File : Type ℓ} → (ℤ → File) → ℤ → Option ℤ → File
file_from files x none = files x
file_from files x (some copy) = files copy

last_saved-Apart :
    (x fd copy : ℤ) (saves : List SavedFd) (c : ℤ)
    → Apart fd copy saves
    → last_saved x saves ≡ some c
    → (same_fd c fd ≡ false) × (same_fd c copy ≡ false)
last_saved-Apart x fd copy [] c h e = ground arith
last_saved-Apart x fd copy (s ∷ saves) c (h, k, g) e =
    ground (arith, last_saved-Apart x fd copy saves c g)

module _ {File : Type 0} (sys : System) (d : Descriptors File sys) where
  open d use {table, dup_works, moved, flagged, closed}

  table-restore_fd :
      (s : SavedFd) (w : World) (x : ℤ)
      → same_fd x s.saved ≡ false
      → table (restore_fd sys s w).1.history x
        ≡ (if same_fd x s.original then table w.1.history s.saved else table w.1.history x)
  unfolding restore_fd perform record_call
  table-restore_fd s (c, r) x h =
      let dup = dup_fd s.saved s.original ∷ r.history in
      let flag = set_fd_flags s.original s.flags ∷ dup in
      rw (dup_works r.history s.saved s.original) (
        closed flag s.saved x h
        ∙ flagged dup s.original s.flags x
        ∙ moved r.history s.saved s.original x)

  table-restored :
      (s : SavedFd) (saves : List SavedFd) (w : World) (x : ℤ) (o : Option ℤ)
      → last_saved x saves ≡ o
      → same_fd x s.saved ≡ false
      → Apart s.original s.saved saves
      → file_from (table (restore_fd sys s w).1.history) x o
        ≡ file_from (table w.1.history) x (last_saved x (s ∷ saves))
  table-restored s saves w x none e h apart = rw e (ground (arith, table-restore_fd s w x h))
  table-restored s saves w x (some copy) e h apart =
      let free = last_saved-Apart x s.original s.saved saves copy apart e in
      rw e (ground (arith, table-restore_fd s w copy free.1))

  -- Where `dup2` works and no copy is a descriptor that was saved before it, or its copy: behind
  -- `restore_fds` a descriptor that is none of the copies has the file of the copy that was saved
  -- last for it, or the file it had where none was saved.
  pub restore_fds-last_saved :
      (saves : List SavedFd) (w : World) (x : ℤ)
      → Fresh saves
      → Outside x saves
      → table (restore_fds sys saves w).1.history x
        ≡ file_from (table w.1.history) x (last_saved x saves)
  unfolding restore_fds
  restore_fds-last_saved [] w x fresh out = refl
  restore_fds-last_saved (s ∷ saves) w x (apart, fresh) (h, out) =
      restore_fds-last_saved saves (restore_fd sys s w) x fresh out
      ∙ table-restored s saves w x (last_saved x saves) refl h apart
