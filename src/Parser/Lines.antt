-- ===== src/Parser/Lines.antt =====
-- The lines of the grammar, as `parse_line` (src/parser.c) reads them.
use tash.Base.{ℕ, zero, suc, ◌+◌, ◌<◌, ◌≡◌, refl, true, false, none, List, ◌∷◌, ◌==◌, arith}
use tash.Lexer.Token.{Token, t_eof}
use tash.Parser.Tree.{Node}
use tash.Parser.State.{State}
use tash.Parser.Descent.{parse_list, parse_line}
use tash.Parser.Streams.{Ready, Ends, Newlines, newlines_cost, skip_newlines-Gives, unget-Gives}
use tash.Parser.Phrases.{separates, ended}
use tash.Parser.Grammar.{Logic, Line, at_end, unended, a_line}
use tash.Parser.Accepts.Lists.{Reads, unseparated-Reads, line-Reads}
use tash.Parser.Accepts.Commands.{Is-test}
use tash.Parser.Accepts.{logic_cost, parse_logic_list-Logic}

-- What the derivation of a line spends.
abbrev pub line_cost : {ts rest : List Token} {n : Node} → Line ts n rest → ℕ
line_cost (at_end p _) = 3 + newlines_cost p
line_cost (unended p _ r _) = 3 + (newlines_cost p + logic_cost r)
line_cost (a_line p _ r _) = 3 + (newlines_cost p + logic_cost r)

-- A logic list, and nothing or a separator behind it, as a list that is one line.
unended_list-Reads :
    (f : ℕ) {u : Token} {ts us : List Token} {n : Node} (d : Logic ts n (u ∷ us))
    → logic_cost d < suc f
    → separates u ≡ false
    → Reads (parse_list (suc (suc f)) false none) ts n (u ∷ us)
unfolding parse_list
unended_list-Reads f {u = u} {us = us} {n = n} d h e s ready =
    let a = parse_logic_list-Logic d (suc f) h s ready in
    let b = unseparated-Reads f false none u us n e a.after a.post in
    record { after = b.after; returns = rw a.returns b.returns; post = b.post }

line_list-Reads :
    (f : ℕ) {u : Token} {ts us : List Token} {n : Node} (d : Logic ts n (u ∷ us))
    → logic_cost d < suc f
    → separates u ≡ true
    → Reads (parse_list (suc (suc f)) false none) ts (ended u n) us
unfolding parse_list
line_list-Reads f {u = u} {us = us} {n = n} d h e s ready =
    let a = parse_logic_list-Logic d (suc f) h s ready in
    let b = line-Reads f none u us n e a.after a.post in
    record { after = b.after; returns = rw a.returns b.returns; post = b.post }

-- From newlines and a token that is not the end of the input on, `parse_line` is `parse_list`.
from_list-Reads :
    (f : ℕ) (rest : List Token) {t : Token} {ts us : List Token} {n : Node} (d : Newlines ts t us)
    → newlines_cost d < f
    → (t.type == t_eof) ≡ false
    → Reads (parse_list f false none) (t ∷ us) n rest
    → Reads (parse_line f) ts n rest
unfolding parse_line
from_list-Reads f rest {t = t} {us = us} d h e p s ready =
    let a = skip_newlines-Gives d f h s ready in
    let b = unget-Gives t us a.after a.post in
    let c = p b.after b.post in
    record {
      after = c.after;
      returns = rw (a.returns, parse_line) (rw (e, b.returns) c.returns);
      post = c.post;
    }

-- Where the source gives the tokens of a line of the grammar in front of `rest`, and the fuel is
-- above the cost of the line's derivation, `parse_line` returns the line's tree, and the source then
-- gives `rest`.
pub parse_line-Line :
    (ts rest : List Token) (n : Node) (d : Line ts n rest) (f : ℕ) (s : State)
    → line_cost d < f
    → Ready ts s.src
    → Ends (parse_line f s) n (Ready rest)
unfolding parse_line
parse_line-Line ts rest n (at_end {t = t} p e) f s h ready =
    let a = skip_newlines-Gives p f (omega arith) s ready in
    record {
      after = a.after;
      returns = rw (a.returns, parse_line) (rw (Is-test t_eof t e) refl);
      post = a.post.1;
    }
parse_line-Line ts _ n (unended {u = u} {vs = vs} p e r e') (suc (suc f)) s h ready =
    from_list-Reads (suc (suc f)) (u ∷ vs) p (omega arith) e
      (unended_list-Reads f r (omega arith) e') s ready
parse_line-Line ts rest n (a_line p e r e') (suc (suc f)) s h ready =
    from_list-Reads (suc (suc f)) rest p (omega arith) e (line_list-Reads f r (omega arith) e') s
      ready
parse_line-Line ts _ n (unended p e r e') zero s h ready = absurd (omega arith)
parse_line-Line ts _ n (unended p e r e') (suc zero) s h ready = absurd (omega arith)
parse_line-Line ts rest n (a_line p e r e') zero s h ready = absurd (omega arith)
parse_line-Line ts rest n (a_line p e r e') (suc zero) s h ready = absurd (omega arith)
