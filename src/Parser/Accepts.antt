-- ===== src/Parser/Accepts.antt =====
-- How the parser (src/parser.c) reads the commands of the grammar, and what fuel it takes.
pub mod Args
pub mod Words
pub mod Lists
pub mod Commands
pub mod Bodies
pub mod CaseLists
use tash.Base.{ℕ, zero, suc, ◌+◌, ◌<◌, ◌≡◌, Bool, true, false, none, some, List, arith}
use tash.Lexer.Token.{Token}
use tash.Parser.Tree.{Node, Content, Cases}
use tash.Parser.State.{State}
use tash.Parser.Descent.{
  parse_list, list_loop, parse_logic_list, logic_loop, parse_pipeline, parse_simple_pipeline,
  parse_command, parse_compound_command, else_part, case_loop, case_body,
}
use tash.Parser.Streams.{Ready, Gives, newlines_cost}
use tash.Parser.Accepts.Args.{redirs_cost, simple_cost}
use tash.Parser.Accepts.Words.{for_in_cost, open_patterns_cost}
use tash.Parser.Grammar.{
  Block, block, Items, unseparated, terminated, item, Logic, logic, LogicRest, no_logic, both,
  either, Pipeline, negated, plain, Piped, unpiped, piped, Command, words, redirected, definition,
  compound, Compound, redirect, Body, if_then, while_do, until_do, for_do, case_in, parentheses,
  braces, Else, no_else, else_do, elif_then, CaseList, empty, last_case, next_case, CaseBody,
  no_body, body,
}
use tash.Parser.Accepts.Lists.{
  Reads, parse_list-Reads, unseparated-Reads, terminated-Reads, item-Reads, parse_logic_list-Reads,
  no_logic-Reads, both-Reads, either-Reads, negated-Reads, plain-Reads, unpiped-Reads, piped-Reads,
}
use tash.Parser.Accepts.Commands.{
  words-Reads, redirected-Reads, definition-Reads, compound-Reads, redirect-Reads,
}
use tash.Parser.Accepts.Bodies.{
  ReadsBlock, ReadsBody, if_then-Reads, while_do-Reads, until_do-Reads, for_do-Reads, case_in-Reads,
  parentheses-Reads, braces-Reads, no_else-Reads, else_do-Reads, elif_then-Reads,
}
use tash.Parser.Accepts.CaseLists.{
  empty-Reads, last_case-Reads, next_case-Reads, no_body-Reads, body-Reads,
}

-- What the derivation spends. A rule spends two units, and what its parts do.
abbrev mutual
  pub block_cost : {types : List ℕ} {ts rest : List Token} {n : Node} → Block types ts n rest → ℕ
  block_cost (block p q) = 3 + (logic_cost p + items_cost q)

  pub items_cost :
      {types : List ℕ} {n m : Node} {ts rest : List Token} → Items types n ts m rest → ℕ
  items_cost (unseparated _) = 3
  items_cost (terminated _ q _) = 3 + (newlines_cost q)
  items_cost (item _ q _ s t) = 3 + (newlines_cost q + logic_cost s + items_cost t)

  pub logic_cost : {ts rest : List Token} {n : Node} → Logic ts n rest → ℕ
  logic_cost (logic p q) = 3 + (pipeline_cost p + logic_rest_cost q)

  pub logic_rest_cost : {n m : Node} {ts rest : List Token} → LogicRest n ts m rest → ℕ
  logic_rest_cost (no_logic _ _) = 3
  logic_rest_cost (both _ q r) = 3 + (pipeline_cost q + logic_rest_cost r)
  logic_rest_cost (either _ q r) = 3 + (pipeline_cost q + logic_rest_cost r)

  pub pipeline_cost : {ts rest : List Token} {n : Node} → Pipeline ts n rest → ℕ
  pipeline_cost (negated _ q) = 3 + (piped_cost q)
  pipeline_cost (plain _ q) = 3 + (piped_cost q)

  pub piped_cost : {ts rest : List Token} {n : Node} → Piped ts n rest → ℕ
  piped_cost (unpiped p _) = 3 + (command_cost p)
  piped_cost (piped p _ r) = 3 + (command_cost p + piped_cost r)

  pub command_cost : {ts rest : List Token} {n : Node} → Command ts n rest → ℕ
  command_cost (words p _ _ s) = 3 + (newlines_cost p + simple_cost s)
  command_cost (redirected p _ _ _ t) = 3 + (newlines_cost p + simple_cost t)
  command_cost (definition p _ _ _ _ u) = 3 + (newlines_cost p + compound_cost u)
  command_cost (compound p _ r) = 3 + (newlines_cost p + compound_cost r)

  pub compound_cost : {ts rest : List Token} {n : Node} → Compound ts n rest → ℕ
  compound_cost (redirect p q r) = 3 + (newlines_cost p + body_cost q + redirs_cost r)

  pub body_cost : {t : Token} {ts rest : List Token} {c : Content} → Body t ts c rest → ℕ
  body_cost (if_then _ q _ s t _) = 3 + (block_cost q + block_cost s + else_cost t)
  body_cost (while_do _ q _ s _) = 3 + (block_cost q + block_cost s)
  body_cost (until_do _ q _ s _) = 3 + (block_cost q + block_cost s)
  body_cost (for_do _ _ r _ t _) = 3 + (for_in_cost r + block_cost t)
  body_cost (case_in _ _ _ s _) = 3 + (case_list_cost s)
  body_cost (parentheses _ q r _) = 3 + (block_cost q + newlines_cost r)
  body_cost (braces _ q _) = 3 + (block_cost q)

  pub else_cost : {ts rest : List Token} {n : Node} → Else ts n rest → ℕ
  else_cost (no_else _ _) = 3
  else_cost (else_do _ q) = 3 + (block_cost q)
  else_cost (elif_then _ q _ s t) = 3 + (block_cost q + block_cost s + else_cost t)

  pub case_list_cost : {ts rest : List Token} {cs : Cases} → CaseList ts cs rest → ℕ
  case_list_cost (empty p _ _) = 3 + (newlines_cost p)
  case_list_cost (last_case p q _ s _) =
      3 + (newlines_cost p + open_patterns_cost q + case_body_cost s)
  case_list_cost (next_case p q _ s _ u) =
      3 + (newlines_cost p + open_patterns_cost q + case_body_cost s + case_list_cost u)

  pub case_body_cost : {ts rest : List Token} {n : Node} → CaseBody ts n rest → ℕ
  case_body_cost (no_body p _) = 3 + (newlines_cost p)
  case_body_cost (body p _ _ s) = 3 + (newlines_cost p + block_cost s)

mutual
  pub parse_list-Block :
      {types : List ℕ} {ts rest : List Token} {n : Node} (d : Block types ts n rest) (f : ℕ)
      → block_cost d < f
      → ReadsBlock f types ts n rest
  parse_list-Block (block p q) (suc f) h =
      parse_list-Reads f _ _ _ _ _ _ (parse_logic_list-Logic p f (omega arith))
        (list_loop-Items q f (omega arith))
  parse_list-Block _ zero h = absurd (omega arith)

  pub list_loop-Items :
      {types : List ℕ} {n m : Node} {ts rest : List Token} (d : Items types n ts m rest) (f : ℕ)
      → items_cost d < f
      → Reads (list_loop f true (some types) n) ts m rest
  list_loop-Items (unseparated p) (suc f) h = unseparated-Reads f true _ _ _ _ p
  list_loop-Items (terminated p q r) (suc (suc f)) h =
      terminated-Reads f _ _ _ _ _ _ p q (omega arith) r
  list_loop-Items (item p q r s t) (suc (suc f)) h =
      item-Reads f _ _ _ _ _ _ _ _ _ _ p q (omega arith) r
        (parse_logic_list-Logic s f (omega arith)) (list_loop-Items t f (omega arith))
  list_loop-Items _ zero h = absurd (omega arith)
  list_loop-Items (terminated p q r) (suc zero) h = absurd (omega arith)
  list_loop-Items (item p q r s t) (suc zero) h = absurd (omega arith)

  pub parse_logic_list-Logic :
      {ts rest : List Token} {n : Node} (d : Logic ts n rest) (f : ℕ)
      → logic_cost d < f
      → Reads (parse_logic_list f) ts n rest
  parse_logic_list-Logic (logic p q) (suc f) h =
      parse_logic_list-Reads f _ _ _ _ _ (parse_pipeline-Pipeline p f (omega arith))
        (logic_loop-LogicRest q f (omega arith))
  parse_logic_list-Logic _ zero h = absurd (omega arith)

  pub logic_loop-LogicRest :
      {n m : Node} {ts rest : List Token} (d : LogicRest n ts m rest) (f : ℕ)
      → logic_rest_cost d < f
      → Reads (logic_loop f n) ts m rest
  logic_loop-LogicRest (no_logic p q) (suc f) h = no_logic-Reads f _ _ _ p q
  logic_loop-LogicRest (both p q r) (suc f) h =
      both-Reads f _ _ _ _ _ _ _ p (parse_pipeline-Pipeline q f (omega arith))
        (logic_loop-LogicRest r f (omega arith))
  logic_loop-LogicRest (either p q r) (suc f) h =
      either-Reads f _ _ _ _ _ _ _ p (parse_pipeline-Pipeline q f (omega arith))
        (logic_loop-LogicRest r f (omega arith))
  logic_loop-LogicRest _ zero h = absurd (omega arith)

  pub parse_pipeline-Pipeline :
      {ts rest : List Token} {n : Node} (d : Pipeline ts n rest) (f : ℕ)
      → pipeline_cost d < f
      → Reads (parse_pipeline f) ts n rest
  parse_pipeline-Pipeline (negated p q) (suc f) h =
      negated-Reads f _ _ _ _ p (parse_simple_pipeline-Piped q f (omega arith))
  parse_pipeline-Pipeline (plain p q) (suc f) h =
      plain-Reads f _ _ _ _ p (parse_simple_pipeline-Piped q f (omega arith))
  parse_pipeline-Pipeline _ zero h = absurd (omega arith)

  pub parse_simple_pipeline-Piped :
      {ts rest : List Token} {n : Node} (d : Piped ts n rest) (f : ℕ)
      → piped_cost d < f
      → Reads (parse_simple_pipeline f) ts n rest
  parse_simple_pipeline-Piped (unpiped p q) (suc f) h =
      unpiped-Reads f _ _ _ _ (parse_command-Command p f (omega arith)) q
  parse_simple_pipeline-Piped (piped p q r) (suc f) h =
      piped-Reads f _ _ _ _ _ _ (parse_command-Command p f (omega arith)) q
        (parse_simple_pipeline-Piped r f (omega arith))
  parse_simple_pipeline-Piped _ zero h = absurd (omega arith)

  pub parse_command-Command :
      {ts rest : List Token} {n : Node} (d : Command ts n rest) (f : ℕ)
      → command_cost d < f
      → Reads (parse_command f) ts n rest
  parse_command-Command (words p q r s) (suc f) h =
      words-Reads f _ _ _ _ _ _ p (omega arith) q r s (omega arith)
  parse_command-Command (redirected p q r s t) (suc f) h =
      redirected-Reads f _ _ _ _ _ p (omega arith) q r s t (omega arith)
  parse_command-Command (definition p q r s t u) (suc (suc f)) h =
      definition-Reads f _ _ _ _ _ _ _ p (omega arith) q r s t
        (parse_compound_command-Compound u f (omega arith))
  parse_command-Command (compound p q r) (suc f) h =
      compound-Reads f _ _ _ _ _ p (omega arith) q
        (parse_compound_command-Compound r f (omega arith))
  parse_command-Command _ zero h = absurd (omega arith)
  parse_command-Command (definition p q r s t u) (suc zero) h = absurd (omega arith)

  pub parse_compound_command-Compound :
      {ts rest : List Token} {n : Node} (d : Compound ts n rest) (f : ℕ)
      → compound_cost d < f
      → Reads (parse_compound_command f) ts n rest
  parse_compound_command-Compound (redirect p q r) (suc (suc (suc f))) h =
      redirect-Reads (suc (suc f)) _ _ _ _ _ _ _ _ _ p (omega arith)
        (compound_of-Body q f (omega arith)) r (omega arith)
  parse_compound_command-Compound _ zero h = absurd (omega arith)
  parse_compound_command-Compound (redirect p q r) (suc zero) h = absurd (omega arith)
  parse_compound_command-Compound (redirect p q r) (suc (suc zero)) h = absurd (omega arith)

  pub compound_of-Body :
      {t : Token} {ts rest : List Token} {c : Content} (d : Body t ts c rest) (f : ℕ)
      → body_cost d < f
      → ReadsBody f t ts c rest
  compound_of-Body (if_then p q r s t u) f h =
      if_then-Reads f _ _ _ _ _ _ _ _ _ _ p (parse_list-Block q f (omega arith)) r
        (parse_list-Block s f (omega arith)) (else_part-Else t f (omega arith)) u
  compound_of-Body (while_do p q r s t) f h =
      while_do-Reads f _ _ _ _ _ _ _ _ p (parse_list-Block q f (omega arith)) r
        (parse_list-Block s f (omega arith)) t
  compound_of-Body (until_do p q r s t) f h =
      until_do-Reads f _ _ _ _ _ _ _ _ p (parse_list-Block q f (omega arith)) r
        (parse_list-Block s f (omega arith)) t
  compound_of-Body (for_do p q r s t u) f h =
      for_do-Reads f _ _ _ _ _ _ _ _ _ p q r (omega arith) s (parse_list-Block t f (omega arith)) u
  compound_of-Body (case_in p q r s t) f h =
      case_in-Reads f _ _ _ _ _ _ _ p q r (case_loop-CaseList s f (omega arith)) t
  compound_of-Body (parentheses p q r s) f h =
      parentheses-Reads f _ _ _ _ _ _ p (parse_list-Block q f (omega arith)) r (omega arith) s
  compound_of-Body (braces p q r) f h =
      braces-Reads f _ _ _ _ _ p (parse_list-Block q f (omega arith)) r

  pub else_part-Else :
      {ts rest : List Token} {n : Node} (d : Else ts n rest) (f : ℕ)
      → else_cost d < f
      → Reads (else_part f) ts n rest
  else_part-Else (no_else p q) (suc f) h = no_else-Reads f _ _ p q
  else_part-Else (else_do p q) (suc f) h =
      else_do-Reads f _ _ _ _ p (parse_list-Block q f (omega arith))
  else_part-Else (elif_then p q r s t) (suc f) h =
      elif_then-Reads f _ _ _ _ _ _ _ _ _ p (parse_list-Block q f (omega arith)) r
        (parse_list-Block s f (omega arith)) (else_part-Else t f (omega arith))
  else_part-Else _ zero h = absurd (omega arith)

  pub case_loop-CaseList :
      {ts rest : List Token} {cs : Cases} (d : CaseList ts cs rest) (f : ℕ)
      → case_list_cost d < f
      → Gives (Ready ts) (case_loop f) cs (Ready rest)
  case_loop-CaseList (empty p q r) (suc f) h = empty-Reads f _ _ _ p (omega arith) q r
  case_loop-CaseList (last_case p q r s t) (suc f) h =
      last_case-Reads f _ _ _ _ _ _ _ _ _ p (omega arith) q (omega arith) r
        (case_body-CaseBody s f (omega arith)) t
  case_loop-CaseList (next_case p q r s t u) (suc f) h =
      next_case-Reads f _ _ _ _ _ _ _ _ _ _ _ p (omega arith) q (omega arith) r
        (case_body-CaseBody s f (omega arith)) t (case_loop-CaseList u f (omega arith))
  case_loop-CaseList _ zero h = absurd (omega arith)

  pub case_body-CaseBody :
      {ts rest : List Token} {n : Node} (d : CaseBody ts n rest) (f : ℕ)
      → case_body_cost d < f
      → Reads (case_body f) ts n rest
  case_body-CaseBody (no_body p q) (suc f) h = no_body-Reads f _ _ _ p (omega arith) q
  case_body-CaseBody (body p q r s) (suc f) h =
      body-Reads f _ _ _ _ _ p (omega arith) q r (parse_list-Block s f (omega arith))
  case_body-CaseBody _ zero h = absurd (omega arith)
