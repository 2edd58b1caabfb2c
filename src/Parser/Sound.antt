-- ===== src/Parser/Sound.antt =====
-- What the calls of the parser (src/parser.c) have read when they return, in terms of the grammar.
pub mod Calls
pub mod Args
pub mod Words
pub mod Bodies
pub mod Ifs
pub mod CaseLists
pub mod Commands
pub mod Pipelines
pub mod Lists
use tash.Base.{ℕ, zero, suc, ◌≡◌, Bool, true, false, some, List, ◌==◌}
use tash.Lexer.Token.{Token, t_if, t_for, t_while, t_until, t_case, t_open_paren, t_open_braces}
use tash.Parser.Tree.{Node}
use tash.Parser.State.{State}
use tash.Parser.Descent.{
  parse_list, list_loop, list_next, parse_logic_list, logic_loop, parse_pipeline,
  parse_simple_pipeline, parse_command, parse_compound_command, compound_of, parse_loop, parse_for,
  parse_case, case_loop, case_body, parse_if, else_part, parse_subshell, parse_group, parse_func,
}
use tash.Parser.Phrases.{Is, separates, ended}
use tash.Parser.Grammar.{
  Block, Items, Logic, LogicRest, Pipeline, Piped, Command, Compound, Else, CaseList, CaseBody,
}
use tash.Parser.Sound.Calls.{
  After, at_error-After, if-After, failed-After, stuck-After, test-Is, Took,
}
use tash.Parser.Sound.Bodies.{
  Parsed, TookBody, parse_loop-After, parse_for-After, parse_case-After, parse_subshell-After,
  parse_group-After,
}
use tash.Parser.Sound.CaseLists.{case_body-After, case_loop-After}
use tash.Parser.Sound.Commands.{
  TookFunc, parse_func-After, parse_command-After, parse_compound_command-After,
}
use tash.Parser.Sound.Pipelines.{
  parse_simple_pipeline-After, parse_pipeline-After, parse_logic_list-After, logic_loop-After,
}
use tash.Parser.Sound.Lists.{parse_list-After, list_next-After, list_loop-After}
use tash.Parser.Sound.Ifs.{parse_if-After, else_part-After}

mutual
  unfolding parse_list

  pub Block-parse_list :
      (f : ℕ) (types : List ℕ) (s : State)
      → After (parse_list f true (some types) s) (Parsed (Block types) s)
  Block-parse_list zero types s = stuck-After _
  Block-parse_list (suc f) types s =
      parse_list-After f (Logic-parse_logic_list f) (Items-list_loop f) types s

  pub Items-list_loop :
      (f : ℕ) (types : List ℕ) (n : Node) (s : State)
      → After (list_loop f true (some types) n s) (Parsed (Items types n) s)
  Items-list_loop zero types n s = stuck-After _
  Items-list_loop (suc f) types n s = list_loop-After f (Items-list_next f) types n s

  Items-list_next :
      (f : ℕ) (types : List ℕ) (t : Token) (n : Node) (s s1 : State)
      → Took s t s1
      → separates t ≡ true
      → After (list_next f (some types) (ended t n) s1) (Parsed (Items types n) s)
  Items-list_next zero types t n s s1 took e = stuck-After _
  Items-list_next (suc f) types t n s s1 took e =
      list_next-After f (Logic-parse_logic_list f) (Items-list_loop f) types t n s s1 took e

  pub Logic-parse_logic_list : (f : ℕ) (s : State) → After (parse_logic_list f s) (Parsed Logic s)
  Logic-parse_logic_list zero s = stuck-After _
  Logic-parse_logic_list (suc f) s =
      parse_logic_list-After f (Pipeline-parse_pipeline f) (LogicRest-logic_loop f) s

  LogicRest-logic_loop :
      (f : ℕ) (n : Node) (s : State) → After (logic_loop f n s) (Parsed (LogicRest n) s)
  LogicRest-logic_loop zero n s = stuck-After _
  LogicRest-logic_loop (suc f) n s =
      logic_loop-After f (Pipeline-parse_pipeline f) (LogicRest-logic_loop f) n s

  Pipeline-parse_pipeline : (f : ℕ) (s : State) → After (parse_pipeline f s) (Parsed Pipeline s)
  Pipeline-parse_pipeline zero s = stuck-After _
  Pipeline-parse_pipeline (suc f) s =
      parse_pipeline-After f (Command-parse_command f) (Piped-parse_simple_pipeline f) s

  Piped-parse_simple_pipeline :
      (f : ℕ) (s : State) → After (parse_simple_pipeline f s) (Parsed Piped s)
  Piped-parse_simple_pipeline zero s = stuck-After _
  Piped-parse_simple_pipeline (suc f) s =
      parse_simple_pipeline-After f (Command-parse_command f) (Piped-parse_simple_pipeline f) s

  Command-parse_command : (f : ℕ) (s : State) → After (parse_command f s) (Parsed Command s)
  Command-parse_command zero s = stuck-After _
  Command-parse_command (suc f) s =
      parse_command-After f (Compound-parse_compound_command f) (TookFunc-parse_func f) s

  TookFunc-parse_func : (f : ℕ) (t : Token) (s : State) → After (parse_func f t s) (TookFunc t s)
  TookFunc-parse_func zero t s = stuck-After _
  TookFunc-parse_func (suc f) t s = parse_func-After f (Compound-parse_compound_command f) t s

  Compound-parse_compound_command :
      (f : ℕ) (s : State) → After (parse_compound_command f s) (Parsed Compound s)
  Compound-parse_compound_command zero s = stuck-After _
  Compound-parse_compound_command (suc f) s =
      parse_compound_command-After f (TookBody-compound_of f) s

  -- The switch on the first word.
  TookBody-compound_of : (f : ℕ) (t : Token) (s : State) → After (compound_of f t s) (TookBody t s)
  TookBody-compound_of zero t s = stuck-After _
  TookBody-compound_of (suc f) t s =
      if-After _ (t.type == t_if) _ _ s (λ e. TookBody-parse_if f t s (test-Is t_if t e))
        (λ _.
          if-After _ (t.type == t_for) _ _ s (λ e. TookBody-parse_for f t s (test-Is t_for t e))
            (λ _.
              if-After _ (t.type == t_while) _ _ s
                (λ e. TookBody-parse_while f t s (test-Is t_while t e))
                (λ _.
                  if-After _ (t.type == t_until) _ _ s
                    (λ e. TookBody-parse_until f t s (test-Is t_until t e))
                    (λ _.
                      if-After _ (t.type == t_case) _ _ s
                        (λ e. TookBody-parse_case f t s (test-Is t_case t e))
                        (λ _.
                          if-After _ (t.type == t_open_paren) _ _ s
                            (λ e. TookBody-parse_subshell f t s (test-Is t_open_paren t e))
                            (λ _.
                              if-After _ (t.type == t_open_braces) _ _ s
                                (λ e. TookBody-parse_group f t s (test-Is t_open_braces t e))
                                (λ _. at_error-After _ _ (failed-After _ s))))))))

  TookBody-parse_if :
      (f : ℕ) (t : Token) (s : State) → Is t_if t → After (parse_if f s) (TookBody t s)
  TookBody-parse_if zero t s e = stuck-After _
  TookBody-parse_if (suc f) t s e = parse_if-After f (Block-parse_list f) (Else-else_part f) t s e

  Else-else_part : (f : ℕ) (s : State) → After (else_part f s) (Parsed Else s)
  Else-else_part zero s = stuck-After _
  Else-else_part (suc f) s = else_part-After f (Block-parse_list f) (Else-else_part f) s

  TookBody-parse_for :
      (f : ℕ) (t : Token) (s : State) → Is t_for t → After (parse_for f s) (TookBody t s)
  TookBody-parse_for zero t s e = stuck-After _
  TookBody-parse_for (suc f) t s e = parse_for-After f (Block-parse_list f) t s e

  TookBody-parse_while :
      (f : ℕ) (t : Token) (s : State) → Is t_while t → After (parse_loop f true s) (TookBody t s)
  TookBody-parse_while zero t s e = stuck-After _
  TookBody-parse_while (suc f) t s e = parse_loop-After f (Block-parse_list f) true t s e

  TookBody-parse_until :
      (f : ℕ) (t : Token) (s : State) → Is t_until t → After (parse_loop f false s) (TookBody t s)
  TookBody-parse_until zero t s e = stuck-After _
  TookBody-parse_until (suc f) t s e = parse_loop-After f (Block-parse_list f) false t s e

  TookBody-parse_case :
      (f : ℕ) (t : Token) (s : State) → Is t_case t → After (parse_case f s) (TookBody t s)
  TookBody-parse_case zero t s e = stuck-After _
  TookBody-parse_case (suc f) t s e =
      parse_case-After f (Block-parse_list f) t s e (CaseList-case_loop f)

  CaseList-case_loop : (f : ℕ) (s : State) → After (case_loop f s) (Parsed CaseList s)
  CaseList-case_loop zero s = stuck-After _
  CaseList-case_loop (suc f) s = case_loop-After f (CaseBody-case_body f) (CaseList-case_loop f) s

  CaseBody-case_body : (f : ℕ) (s : State) → After (case_body f s) (Parsed CaseBody s)
  CaseBody-case_body zero s = stuck-After _
  CaseBody-case_body (suc f) s = case_body-After f (Block-parse_list f) s

  TookBody-parse_subshell :
      (f : ℕ) (t : Token) (s : State)
      → Is t_open_paren t
      → After (parse_subshell f s) (TookBody t s)
  TookBody-parse_subshell zero t s e = stuck-After _
  TookBody-parse_subshell (suc f) t s e = parse_subshell-After f (Block-parse_list f) t s e

  TookBody-parse_group :
      (f : ℕ) (t : Token) (s : State) → Is t_open_braces t → After (parse_group f s) (TookBody t s)
  TookBody-parse_group zero t s e = stuck-After _
  TookBody-parse_group (suc f) t s e = parse_group-After f (Block-parse_list f) t s e
