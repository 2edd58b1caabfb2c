-- ===== src/Parser/Accepts/Lists.antt =====
-- The steps of the parser (src/parser.c) from a list down to a command: what a call returns, from
-- what the calls in it return.
use tash.Base.{ℕ, suc, ◌<◌, ◌≡◌, refl, Bool, true, false, Option, some, List, ◌∷◌}
use tash.Lexer.Token.{Token, t_and, t_or, t_pipe, t_bang}
use tash.Parser.Tree.{Node, pipe, or_else, and_then, sep, negate, new_node}
use tash.Parser.State.{Parser}
use tash.Parser.Descent.{
  mem_type, parse_list, list_loop, parse_logic_list, logic_loop, parse_pipeline,
  parse_simple_pipeline, parse_command,
}
use tash.Parser.Streams.{
  Ready, Gives, next-Gives, unget-Gives, Newlines, newlines_cost, skip_newlines-Gives,
}
use tash.Parser.Phrases.{Is, Not, separates, ended}

-- The parser reads these tokens up to those, and returns this value.
abbrev pub Reads : Parser Node → List Token → Node → List Token → Type 0
Reads p ts n rest = Gives (Ready ts) p n (Ready rest)

module _ (f : ℕ) where
  pub parse_list-Reads :
      (types : List ℕ) (ts us rest : List Token) (n m : Node)
      → Reads (parse_logic_list f) ts n us
      → Reads (list_loop f true (some types) n) us m rest
      → Reads (parse_list (suc f) true (some types)) ts m rest
  unfolding parse_list
  parse_list-Reads types ts us rest n m p q s ready =
      let a = p s ready in
      let b = q a.after a.post in
      record { after = b.after; returns = rw a.returns b.returns; post = b.post }

  pub unseparated-Reads :
      (multi : Bool) (types : Option (List ℕ)) (t : Token) (ts : List Token) (n : Node)
      → separates t ≡ false
      → Reads (list_loop (suc f) multi types n) (t ∷ ts) n (t ∷ ts)
  unfolding parse_list
  unseparated-Reads multi types t ts n e s ready =
      let a = next-Gives t ts s ready in
      let b = unget-Gives t ts a.after a.post in
      record { after = b.after; returns = rw (a.returns, e, b.returns) refl; post = b.post }

  pub line-Reads :
      (types : Option (List ℕ)) (t : Token) (ts : List Token) (n : Node)
      → separates t ≡ true
      → Reads (list_loop (suc f) false types n) (t ∷ ts) (ended t n) ts
  unfolding parse_list
  line-Reads types t ts n e s ready =
      let a = next-Gives t ts s ready in
      record { after = a.after; returns = rw (a.returns, e) refl; post = a.post.1 }

  pub terminated-Reads :
      (types : List ℕ) (t u : Token) (ts us : List Token) (n : Node)
      → separates t ≡ true
      → (d : Newlines ts u us) → newlines_cost d < f
      → mem_type u.type types ≡ true
      → Reads (list_loop (suc (suc f)) true (some types) n) (t ∷ ts) (ended t n) (u ∷ us)
  unfolding parse_list
  terminated-Reads types t u ts us n e d h e' s ready =
      let a = next-Gives t ts s ready in
      let b = skip_newlines-Gives d f h a.after a.post.1 in
      let c = unget-Gives u us b.after b.post in
      record {
        after = c.after;
        returns = rw (a.returns, e, b.returns, c.returns, e') refl;
        post = c.post;
      }

  pub item-Reads :
      (types : List ℕ) (t u : Token) (ts us vs rest : List Token) (n m child : Node)
      → separates t ≡ true
      → (d : Newlines ts u us) → newlines_cost d < f
      → mem_type u.type types ≡ false
      → Reads (parse_logic_list f) (u ∷ us) child vs
      → Reads (list_loop f true (some types) (new_node (sep (ended t n) child))) vs m rest
      → Reads (list_loop (suc (suc f)) true (some types) n) (t ∷ ts) m rest
  unfolding parse_list
  item-Reads types t u ts us vs rest n m child e d h e' p q s ready =
      let a = next-Gives t ts s ready in
      let b = skip_newlines-Gives d f h a.after a.post.1 in
      let c = unget-Gives u us b.after b.post in
      let x = p c.after c.post in
      let y = q x.after x.post in
      record {
        after = y.after;
        returns = rw (a.returns, e, b.returns, c.returns, e', x.returns, y.returns) refl;
        post = y.post;
      }

  pub parse_logic_list-Reads :
      (ts us rest : List Token) (n m : Node)
      → Reads (parse_pipeline f) ts n us
      → Reads (logic_loop f n) us m rest
      → Reads (parse_logic_list (suc f)) ts m rest
  unfolding parse_list
  parse_logic_list-Reads ts us rest n m p q s ready =
      let a = p s ready in
      let b = q a.after a.post in
      record { after = b.after; returns = rw a.returns b.returns; post = b.post }

  pub no_logic-Reads :
      (t : Token) (ts : List Token) (n : Node)
      → Not t_and t
      → Not t_or t
      → Reads (logic_loop (suc f) n) (t ∷ ts) n (t ∷ ts)
  unfolding parse_list
  no_logic-Reads t ts n e e' s ready =
      let a = next-Gives t ts s ready in
      let b = unget-Gives t ts a.after a.post in
      record { after = b.after; returns = rw (a.returns, e, e', b.returns) refl; post = b.post }

  pub both-Reads :
      (t : Token) (ts us rest : List Token) (n m child : Node)
      → Is t_and t
      → Reads (parse_pipeline f) ts child us
      → Reads (logic_loop f (new_node (and_then n child))) us m rest
      → Reads (logic_loop (suc f) n) (t ∷ ts) m rest
  unfolding parse_list
  both-Reads t ts us rest n m child e p q s ready =
      let a = next-Gives t ts s ready in
      let x = p a.after a.post.1 in
      let y = q x.after x.post in
      record {
        after = y.after;
        returns = rw (a.returns, e, x.returns, y.returns) refl;
        post = y.post;
      }

  pub either-Reads :
      (t : Token) (ts us rest : List Token) (n m child : Node)
      → Is t_or t
      → Reads (parse_pipeline f) ts child us
      → Reads (logic_loop f (new_node (or_else n child))) us m rest
      → Reads (logic_loop (suc f) n) (t ∷ ts) m rest
  unfolding parse_list
  either-Reads t ts us rest n m child e p q s ready =
      let a = next-Gives t ts s ready in
      let x = p a.after a.post.1 in
      let y = q x.after x.post in
      record {
        after = y.after;
        returns = rw (a.returns, e, x.returns, y.returns) refl;
        post = y.post;
      }

  pub negated-Reads :
      (t : Token) (ts rest : List Token) (n : Node)
      → Is t_bang t
      → Reads (parse_simple_pipeline f) ts n rest
      → Reads (parse_pipeline (suc f)) (t ∷ ts) (new_node (negate n)) rest
  unfolding parse_list
  negated-Reads t ts rest n e p s ready =
      let a = next-Gives t ts s ready in
      let x = p a.after a.post.1 in
      record { after = x.after; returns = rw (a.returns, e, x.returns) refl; post = x.post }

  pub plain-Reads :
      (t : Token) (ts rest : List Token) (n : Node)
      → Not t_bang t
      → Reads (parse_simple_pipeline f) (t ∷ ts) n rest
      → Reads (parse_pipeline (suc f)) (t ∷ ts) n rest
  unfolding parse_list
  plain-Reads t ts rest n e p s ready =
      let a = next-Gives t ts s ready in
      let b = unget-Gives t ts a.after a.post in
      let x = p b.after b.post in
      record {
        after = x.after;
        returns = rw (a.returns, e, b.returns, x.returns) refl;
        post = x.post;
      }

  pub unpiped-Reads :
      (t : Token) (ts us : List Token) (n : Node)
      → Reads (parse_command f) ts n (t ∷ us)
      → Not t_pipe t
      → Reads (parse_simple_pipeline (suc f)) ts n (t ∷ us)
  unfolding parse_list
  unpiped-Reads t ts us n p e s ready =
      let x = p s ready in
      let a = next-Gives t us x.after x.post in
      let b = unget-Gives t us a.after a.post in
      record {
        after = b.after;
        returns = rw (x.returns, a.returns, e, b.returns) refl;
        post = b.post;
      }

  pub piped-Reads :
      (t : Token) (ts us rest : List Token) (n m : Node)
      → Reads (parse_command f) ts n (t ∷ us)
      → Is t_pipe t
      → Reads (parse_simple_pipeline f) us m rest
      → Reads (parse_simple_pipeline (suc f)) ts (new_node (pipe n m)) rest
  unfolding parse_list
  piped-Reads t ts us rest n m p e q s ready =
      let x = p s ready in
      let a = next-Gives t us x.after x.post in
      let y = q a.after a.post.1 in
      record {
        after = y.after;
        returns = rw (x.returns, a.returns, e, y.returns) refl;
        post = y.post;
      }
