-- ===== src/System.antt =====
-- What the shell asks of the operating system and of the C library. The calls of a process are
-- recorded, the last one first; what the system answers is any function of the calls so far. A
-- child's calls stand between its fork and its exit in the one history, those of a pipeline's
-- children one child after another.
use tash.Base.{ℕ, Bool, Option, List, Text}
use tash.Builtins.State.{ℤ, Strtol}

-- `open_file path read append` opens for reading, for appending, or else truncates; `set_foreground
-- none` is the group of the shell itself.
pub data Call : Type 0 where
  open_file : Text → Bool → Bool → Call
  close_fd : ℤ → Call
  dup_fd : ℤ → ℤ → Call
  get_fd_flags : ℤ → Call
  save_above : ℤ → Call
  set_fd_flags : ℤ → ℤ → Call
  make_pipe : Call
  fork_process : Call
  exec_program : List Text → List Text → Call
  exit_process : ℤ → Call
  wait_child : ℤ → Call
  set_group : ℤ → ℤ → Call
  set_foreground : Option ℤ → Call
  set_handlers : Bool → Call
  write_text : Text → Call
  change_directory : Text → Call
  send_signal : ℤ → ℤ → Call

abbrev pub History : Type 0
History = List Call

-- A status of `waitpid`, as WIFEXITED and WIFSIGNALED read it.
pub data Status : Type 0 where
  exit_with : ℕ → Status
  signaled : ℕ → Status

-- `answer` is the value that a call returns; `pipe_ends` the two descriptors of a pipe;
-- `program` what the program run by `execvp` exits with, or `none` where there is none to run;
-- `killed_by` the signal that ended the child just waited for, if any, where its own code is known;
-- `status_of` the status of any other child; `reads` the reads from the
-- pipe of a command substitution; `files` what `glob_files` gives; `contents` the bytes of a script;
-- `directory` the answer of `getcwd`; `strtol` and `converts` (whether it reads a digit at all) the
-- reading of a number, and `number` its printing.
pub record System : Type 0 where
  pub answer : History → Call → ℤ
  pub pipe_ends : History → ℤ × ℤ
  pub program : History → List Text → List Text → Option ℤ
  pub killed_by : History → Option ℕ
  pub status_of : History → Status
  pub reads : History → List Text
  pub files : History → Text → List Text
  pub contents : History → Text → Text
  pub directory : History → Option Text
  pub strtol : Strtol
  pub converts : Text → Bool
  pub number : ℤ → Text
