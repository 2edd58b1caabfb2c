-- ===== src/Parser/Reports.antt =====
-- The flag `parser_error` of the parser (src/parser.c), by which `interpret` tells a syntax error
-- from the end of the input.
use tash.Base.{
  ℕ, zero, suc, ◌≡◌, refl, Bool, true, false, Option, none, List, ◌==◌, if◌then◌else◌, if_intro,
}
use tash.Lexer.Token.{Token, t_eof}
use tash.Parser.Tree.{Node}
use tash.Parser.State.{
  State, Outcome, done, failed, crashed, stuck, Parser, continue, at_error, unget, set_prompt,
  skip_newlines,
}
use tash.Parser.Command.{parse_simple_command}
use tash.Parser.Descent.{
  parse_list, list_loop, parse_logic_list, logic_loop, parse_pipeline, parse_line,
}

-- A failure is reported.
abbrev Reports {ℓ} : {A : Type ℓ} → Outcome A → Type 0
Reports (failed s) = s.parser_error ≡ true
Reports _ = Unit

at_error-Reports {ℓ} : {A : Type ℓ} (r : Outcome A) → Reports (at_error r)
at_error-Reports (failed s) = refl
at_error-Reports (done a s) = tt
at_error-Reports crashed = tt
at_error-Reports stuck = tt

continue-Reports {ℓ κ} :
    {A : Type ℓ} {B : Type κ} (k : A → Parser B) (r : Outcome A)
    → Reports r
    → ((a : A) (s : State) → Reports (k a s))
    → Reports (continue k r)
continue-Reports k (failed s) h g = h
continue-Reports k (done a s) h g = g a s
continue-Reports k crashed h g = tt
continue-Reports k stuck h g = tt

parse_simple_command-Reports :
    (f : ℕ) (t : Token) (s : State) → Reports (parse_simple_command f t s)
unfolding parse_simple_command
parse_simple_command-Reports f t s = at_error-Reports _

-- A choice between two parsers that report.
if_intro-Reports :
    (b : Bool) {A : Type 0} (p q : Parser A) (s : State)
    → Reports (p s)
    → Reports (q s)
    → Reports ((if b then p else q) s)
if_intro-Reports true p q s hp hq = hp
if_intro-Reports false p q s hp hq = hq

mutual
  unfolding parse_list unget set_prompt

  parse_list-Reports :
      (f : ℕ) (multi : Bool) (terminators : Option (List ℕ)) (s : State)
      → Reports (parse_list f multi terminators s)
  parse_list-Reports zero multi terminators s = tt
  parse_list-Reports (suc f) multi terminators s =
      continue-Reports _ (parse_logic_list f s) (parse_logic_list-Reports f s)
        (λ n s'. list_loop-Reports f multi terminators n s')

  list_loop-Reports :
      (f : ℕ) (multi : Bool) (terminators : Option (List ℕ)) (n : Node) (s : State)
      → Reports (list_loop f multi terminators n s)
  list_loop-Reports zero multi terminators n s = tt
  list_loop-Reports (suc f) multi terminators n s = at_error-Reports _

  parse_logic_list-Reports : (f : ℕ) (s : State) → Reports (parse_logic_list f s)
  parse_logic_list-Reports zero s = tt
  parse_logic_list-Reports (suc f) s =
      continue-Reports _ (parse_pipeline f s) (parse_pipeline-Reports f s)
        (λ n s'. logic_loop-Reports f n s')

  logic_loop-Reports : (f : ℕ) (n : Node) (s : State) → Reports (logic_loop f n s)
  logic_loop-Reports zero n s = tt
  logic_loop-Reports (suc f) n s = at_error-Reports _

  parse_pipeline-Reports : (f : ℕ) (s : State) → Reports (parse_pipeline f s)
  parse_pipeline-Reports zero s = tt
  parse_pipeline-Reports (suc f) s = at_error-Reports _

parse_line-Reports : (f : ℕ) (s : State) → Reports (parse_line f s)
unfolding parse_line unget
parse_line-Reports f s = split (skip_newlines f s)
  where
    split :
        (r : Outcome Token)
        → Reports (elim r [
          | done t s' ↦
              if t.type == t_eof
              then done Node.missing s'
              else continue (λ _. parse_list f false none) (unget t s')
          | failed s' ↦ crashed
          | crashed ↦ crashed
          | stuck ↦ stuck
        ])
    split (failed s') = tt
    split crashed = tt
    split stuck = tt
    split (done t s') =
        if_intro Reports (t.type == t_eof) _ _ (λ _. tt) (λ _. parse_list-Reports f false none _)

reported : (r : Outcome Node) (s : State) → Reports r → r ≡ failed s → s.parser_error ≡ true
reported r s h e = rw e at h

-- Where the parse of a line, whatever the state it starts from, returns NULL, other than at the end
-- of the input, `parser_error` is set.
pub parse_line-parser_error :
    (f : ℕ) (s after : State) → parse_line f s ≡ failed after → after.parser_error ≡ true
parse_line-parser_error f s after e = reported (parse_line f s) after (parse_line-Reports f s) e
