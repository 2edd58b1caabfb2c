-- ===== src/Prompt/Tests.antt =====
-- Runs of the line editor and of the prompt (src/prompt.c).
use tash.Base.{
  ◌≤◌, inr, length, ◌+◌, ◌≡◌, refl, false, none, some, List, [], ◌∷◌, ◌++◌, Text, codes, arith,
}
use tash.Prompt.Editor.{Editor}
use tash.Prompt.Completion.{Terminal, copied, contents, autocomplete, handle_autocompletion}
use tash.Prompt.Loop.{overrun, edit_line, do_prompt}
use tash.Prompt.View.{view, Key, typed, erase, left, right, Inside}
use tash.Prompt.Typing.{Reads, keys_bytes, do_prompt-keys}
use tash.Prompt.Ends.{edit_line-hangup}
use tash.Prompt.Progress.{Comes, do_prompt-Comes}
use tash.Prompt.Keys.{Shows}
use tash.Prompt.Words.{Word}
use tash.Prompt.Fills.{AllBegin, LongestCommon}
use tash.Prompt.Completing.{handle_autocompletion-Shows}
use tash.Prompt.Show.{Host, past_end, before, show_prompt, show_prompt-append}

-- A directory with two names, and a terminal of ten columns.
abbrev plain_terminal : Terminal
plain_terminal = record {
  entries = λ dir. some (codes "main.c" ∷ codes "make" ∷ []);
  is_directory = λ path. false;
  columns = 10;
  eof_key = 4;
}

abbrev fresh : Editor
fresh = record { cells = λ k. 0; cursor = 0; len = 0; index = 0 }

-- l, s, left, x, right, erase
abbrev keys : List Key
keys = typed b'l' ∷ typed b's' ∷ left ∷ typed b'x' ∷ right ∷ erase ∷ []

do_prompt-keys_example :
    Reads
      (do_prompt 7 plain_terminal (keys_bytes keys ++ (10 ∷ codes "pwd")) fresh)
      (codes "pwd")
      (codes "lx" ++ (10 ∷ []))
do_prompt-keys_example =
    do_prompt-keys plain_terminal refl 7 keys (codes "pwd") fresh
      (refl, (refl, (tt, (refl, (tt, (tt, tt)))))) (omega arith) (omega arith)

-- x, escape, [, C, erase, ^A, escape, [: the last escape sequence takes a newline.
abbrev noise : Text
noise = b'x' ∷ 27 ∷ b'[' ∷ b'C' ∷ 127 ∷ 1 ∷ 27 ∷ b'[' ∷ []

do_prompt-Comes_example :
    Comes (do_prompt 9 plain_terminal (noise ++ (10 ∷ 10 ∷ codes "pwd")) fresh) (codes "pwd")
do_prompt-Comes_example =
    do_prompt-Comes plain_terminal refl 9 noise (codes "pwd") fresh
      (refl, (refl, (refl, (refl, (refl, (refl, (refl, (refl, tt)))))))) (omega arith) (omega arith)

abbrev fresh-Inside : Inside fresh
fresh-Inside = record { cursor_le = omega arith; len_le = omega arith }

edit_line-hangup_example : edit_line 257 plain_terminal [] fresh ≡ overrun
edit_line-hangup_example = edit_line-hangup 256 plain_terminal fresh fresh-Inside (omega arith)

-- `ls m -l` with the cursor behind the m, where main.c and make can be meant.
abbrev unfinished : Editor
unfinished = record { cells = copied 0 (codes "ls m -l") (λ k. 0); cursor = 4; len = 7; index = 0 }

m-Word : Word unfinished 3 4
m-Word = record {
  start_le = omega arith;
  stop_ge = omega arith;
  stop_le = omega arith;
  letters = λ k l r. let e : k ≡ 3 = omega (arith, l, r) in rw e refl;
  before = inr refl;
  behind = inr refl;
}

ma-LongestCommon : LongestCommon (codes "main.c" ∷ codes "make" ∷ []) (codes "ma")
ma-LongestCommon = record {
  shared = ((codes "in.c", refl), ((codes "ke", refl), tt));
  longest = below;
}
  where
    below : (q : Text) → AllBegin q (codes "main.c" ∷ codes "make" ∷ []) → length q ≤ 2
    below [] h = omega arith
    below (c ∷ []) h = omega arith
    below (c ∷ d ∷ []) h = omega arith
    below (c ∷ d ∷ x ∷ q) ((r, e), h') = let (r', e') = h'.0 in absurd (ground arith)

handle_autocompletion-Shows_example :
    Shows
      (handle_autocompletion plain_terminal unfinished)
      (record { text = codes "ls ma -l"; at = 5 })
      8
unfolding view contents autocomplete
handle_autocompletion-Shows_example =
    handle_autocompletion-Shows plain_terminal unfinished 3 4 (codes "main.c") (codes "make" ∷ [])
      (codes "ma") m-Word refl ma-LongestCommon (omega arith) (omega arith) (omega arith)

abbrev host : Host
host = record {
  hour = 13;
  minute = 5;
  second = 9;
  decimal = λ n. (b'0' + n) ∷ [];
  version = codes "1";
  directory = codes "/a/b";
  hostname = codes "here";
  logname = none;
  superuser = false;
}

-- HOME is /a// at first: the two escapes show different names of the same directory.
show_prompt-append_example :
    (show_prompt host (some (codes "/a//")) (codes "\\w" ++ codes "\\w")
      ≡ before (codes "~b") (show_prompt host (some (codes "/a/")) (codes "\\w")))
    × (show_prompt host (some (codes "/a//")) (codes "\\w" ++ codes "\\") ≡ past_end)
unfolding show_prompt
show_prompt-append_example =
    show_prompt-append host (some (codes "/a//")) (some (codes "/a/")) (codes "\\w") (codes "~b")
      (codes "\\w") refl
