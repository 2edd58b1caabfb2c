-- ===== src/Lib.antt =====
-- tash, a POSIX-like shell: its tables, its lexer and parser, the expansion of words, the execution of
-- trees with redirections, functions, jobs and builtins, and the line editor of its prompt.
--
-- How the parts work together. The lexer reads characters from a source and makes tokens of them; in
-- a word it writes CTLQUOT for a quotation mark and CTLESC before each character that quotes protect.
-- The parser pulls tokens, with one that can be put back, and builds the tree of a line. The expansion
-- takes the words of the tree: it replaces parameters and command substitutions, writing CTLESC again
-- before what quotes protect, splits the result into fields, matches fields against files, and takes
-- CTLESC out. It reads and writes the table of variables. For a command substitution it calls the
-- parser on the text behind it. The execution walks a tree: it opens what the redirections name,
-- expands the words of a command, looks for a builtin, a function or a program, forks for the latter
-- and for pipelines, subshells and background commands, and puts the descriptors back. `interpret`
-- parses and executes line by line; `eval` and `source` call it again. In an interactive shell the
-- source takes its bytes from the prompt, whose editor fills a buffer with a line.
--
-- Which file models which part (paths from the repository's root):
--   Base           what the other modules share: lists, tests, byte strings
--   Vector         include/vector.h, over elements
--   Vars           src/var.c: the table, `setup_environ`, `setup_var`
--   Funcs          src/func.c: the table of functions
--   Glob           `glob_match` of src/globing.c; Glob.Pattern says what a pattern means
--   Lexer          src/lexer.c: Source (characters), Word (`get_word_helper`), Next (`next_token`,
--                  `discard_line`), Token (include/tash.h, `token_name`, `token_len`)
--   Parser         src/parser.c: Tree (the nodes), State, Command (simple commands, redirections),
--                  Descent (the other parse functions), Buffer (`parse_list_buf`);
--                  Grammar and Phrases are a grammar of the language, as rules over lists of
--                  tokens, without fuel and without a token that is put back
--   Expand         src/expand.c: Quoting, Trim (`remove_prefix_suffix`), Param and Word (`handle_var`,
--                  `first_expansion`), Command (`execute_subshell`, `handle_backtick`), Split
--                  (`word_spliting`, `word_expansion`); Files is `glob_files` of src/globing.c
--   System         what is asked of the operating system and of the C library
--   World          the whole state, and how a run ends
--   Jobs           src/jobs.c: fork, groups, wait
--   Builtins       src/builtin.c: Control (`break`, `continue`, `return`, `shift`), Options (`set`),
--                  Tables (`export`, `unset`), Process (the others, and `eval_script` of
--                  src/parser.c), Dispatch (`try_builtin`)
--   Execute        src/execute.c: Redirect, Loops (`while` and `until`), Commands (simple commands),
--                  Compound (`for`, `case`), Pipes (pipelines, background commands, and the child of
--                  `execute_subshell`), Tree (`execute`, with `interpret` and `eval` of src/parser.c)
--   Prompt         src/prompt.c: Editor (the buffer and its keys), Completion, Loop (`do_prompt`,
--                  `prompt_getc`), Show (`show_prompt`)
--   Start          src/main.c: Options (the command line); Start itself is `init` of src/init.c and
--                  what `main` runs
-- The other modules under these hold the theorems, and the modules named Tests and Runs
-- run them.
--
-- State. A C string is the list of its bytes. The vectors of variables, functions, words and saved
-- descriptors are lists, in their order. A source keeps what its `get_char` callback has left, the character and the token put back,
-- and the flags of the lexer; EOF is `none`, and byte 255, which as a signed char is EOF, reads as
-- such. The parser is a monad over the source, `parser_error` and `prompt`, with four ends: a tree, a
-- NULL, a read through NULL (`crashed`), and more rounds than the fuel (`stuck`). The expansion has
-- the same ends over the state that Expand.Shell lists.
--
-- The state of the execution is `World`: the control state (exit status, the depths, the positional
-- parameters) and the rest, with the history of the system calls. What a call returns is any function
-- of the calls so far (`System`). A forked child is run to its end at the fork, with the state that it
-- got; its calls stand in the one history, and the parent goes on with its own state, so that what the
-- children of a pipeline do at the same time has one order here. The code of a child is kept in its
-- group for the wait. A run comes back, is the end of the process, reads through NULL, has too little
-- fuel, or is `runaway`: a child that comes back into the code of its parent. The body of a function
-- definition is taken out of its tree when it is run; trees are named by places, and the places whose
-- body is gone are a part of the state.
--
-- The prompt's buffer is a function from places to bytes, with the test of every access against its
-- 256 bytes; an access beyond them ends the run (`overflow`, `overrun`).
--
-- Fuel. `get_word_helper`, `next_token` and the parse functions recurse on fuel, as do the loops of
-- the expansion. `next_token` gives its loops as much as there are characters and two rounds more.
-- `glob_match` gives its loop (n + 1) * (m + 2) + 1 rounds for n bytes of text and m of pattern.
-- `line_cost` of Parser.Lines counts what `parse_line` needs on a line of the grammar. The fuel of
-- the parse functions, of the expansion and of the execution is an argument, and every call between
-- `execute`, the expansion and `interpret` spends one unit. `do_prompt` has enough with twice the
-- length of the input and the size of the buffer.
--
-- Parameters stand for what is outside the source: the answers of the system calls, the programs that
-- `execvp` runs, the signal that ended a child, the reads from a pipe, the contents of scripts, the
-- paths that match a pattern, `strtol` and the printing of numbers (System); the file tree of
-- Expand.Files; the names in a directory and the width of the terminal (Prompt.Completion); the clock,
-- the host and the user (Prompt.Show); the environment and which files there are (Start). `child` of
-- the expansion is what the execution fills in.
--
-- Not modelled: messages, locale, memory management and the flushing of the standard streams; what the
-- line editor prints for a key, the terminal settings, and WCHAR_SUPPORT; the delivery of signals,
-- where a handler would set the interrupt flag in between; that a function which is redefined while
-- it runs has its tree freed. Parameters are lists: where a function or a script calls `set`, the
-- pointer that is put back behind it would show what that `set` wrote into its static array. The
-- files that an expansion matches are those of its start, and a script is read when it is opened. The
-- HOME that the printing of a prompt shortens is an argument and a result of `show_prompt`; it is not
-- handed on to the children of the shell. `set -m` does not call `job_control_setup`. src/mem.c,
-- src/error.c and src/stub.c are left out: they are allocation, output and replacements.
pub mod Base
pub mod Vector
pub mod Vars
pub mod Funcs
pub mod System
pub mod World
pub mod Jobs
pub mod Prompt
pub mod Glob
pub mod Lexer
pub mod Parser
pub mod Expand
pub mod Builtins
pub mod Execute
pub mod Start
