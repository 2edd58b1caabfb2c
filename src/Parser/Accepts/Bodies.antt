-- ===== src/Parser/Accepts/Bodies.antt =====
-- The steps of the parser (src/parser.c) in the body of a compound command, behind its first word:
-- what a call returns, from what the calls in it return.
use tash.Base.{ℕ, suc, ◌<◌, ◌≡◌, refl, true, some, List, [], ◌∷◌}
use tash.Lexer.Token.{
  Token, token_is_word, t_close_paren, t_open_paren, t_if, t_then, t_else, t_elif, t_fi, t_for,
  t_in, t_do, t_done, t_while, t_until, t_case, t_esac, t_open_braces, t_close_braces,
}
use tash.Parser.Tree.{
  Word, Node, missing, Content, subshell, group, if_else, while, until, for_in, case, Cases,
  new_node,
}
use tash.Parser.State.{word_from_token}
use tash.Parser.Descent.{parse_list, compound_of, else_part, case_loop}
use tash.Parser.Streams.{
  Ready, Fresh, Gives, next-Gives, unget-Gives, expect_token-Gives, next_word-Gives, Newlines,
  newlines_cost, skip_newlines-Gives,
}
use tash.Parser.Phrases.{Is, Not, ForIn}
use tash.Parser.Accepts.Words.{for_in_cost, parse_for_in-Chain}
use tash.Parser.Accepts.Lists.{Reads}

-- The parser reads a list in front of one of these tokens.
abbrev pub ReadsBlock : ℕ → List ℕ → List Token → Node → List Token → Type 0
ReadsBlock f types ts n rest = Reads (parse_list f true (some types)) ts n rest

-- Behind its first word `t`, a compound command reads as this, with this fuel.
abbrev pub ReadsBody : ℕ → Token → List Token → Content → List Token → Type 0
ReadsBody f t ts c rest = Gives (Fresh ts) (compound_of (suc (suc f)) t) (new_node c) (Ready rest)

module _ (f : ℕ) where
  pub if_then-Reads :
      (t u v : Token) (ts us vs rest : List Token) (condition body else_body : Node)
      → Is t_if t
      → ReadsBlock f (t_then ∷ []) ts condition (u ∷ us)
      → Is t_then u
      → ReadsBlock f (t_elif ∷ t_else ∷ t_fi ∷ []) us body vs
      → Reads (else_part f) vs else_body (v ∷ rest)
      → Is t_fi v
      → ReadsBody f t ts (if_else condition body else_body) rest
  unfolding parse_list
  if_then-Reads t u v ts us vs rest condition body else_body e p eu q r ev s ready =
      let a = p s ready.1 in
      let b = expect_token-Gives u us t_then eu a.after a.post in
      let c = q b.after b.post.1 in
      let d = r c.after c.post in
      let x = expect_token-Gives v rest t_fi ev d.after d.post in
      record {
        after = x.after;
        returns = rw (e, a.returns, b.returns) (rw (c.returns, d.returns, x.returns) refl);
        post = x.post.1;
      }

  pub while_do-Reads :
      (t u v : Token) (ts us rest : List Token) (condition body : Node)
      → Is t_while t
      → ReadsBlock f (t_do ∷ []) ts condition (u ∷ us)
      → Is t_do u
      → ReadsBlock f (t_done ∷ []) us body (v ∷ rest)
      → Is t_done v
      → ReadsBody f t ts (while condition body) rest
  unfolding parse_list
  while_do-Reads t u v ts us rest condition body e p eu q ev s ready =
      let a = p s ready.1 in
      let b = expect_token-Gives u us t_do eu a.after a.post in
      let c = q b.after b.post.1 in
      let x = expect_token-Gives v rest t_done ev c.after c.post in
      record {
        after = x.after;
        returns = rw (e, a.returns, b.returns) (rw (c.returns, x.returns) refl);
        post = x.post.1;
      }

  pub until_do-Reads :
      (t u v : Token) (ts us rest : List Token) (condition body : Node)
      → Is t_until t
      → ReadsBlock f (t_do ∷ []) ts condition (u ∷ us)
      → Is t_do u
      → ReadsBlock f (t_done ∷ []) us body (v ∷ rest)
      → Is t_done v
      → ReadsBody f t ts (until condition body) rest
  unfolding parse_list
  until_do-Reads t u v ts us rest condition body e p eu q ev s ready =
      let a = p s ready.1 in
      let b = expect_token-Gives u us t_do eu a.after a.post in
      let c = q b.after b.post.1 in
      let x = expect_token-Gives v rest t_done ev c.after c.post in
      record {
        after = x.after;
        returns = rw (e, a.returns, b.returns) (rw (c.returns, x.returns) refl);
        post = x.post.1;
      }

  pub for_do-Reads :
      (t name u v : Token) (ts us rest : List Token) (ws : List Word) (body : Node)
      → Is t_for t
      → token_is_word name ≡ true
      → (d : ForIn ts ws (u ∷ us)) → for_in_cost d < f
      → Is t_do u
      → ReadsBlock f (t_done ∷ []) us body (v ∷ rest)
      → Is t_done v
      → ReadsBody f t (name ∷ ts) (for_in body ws (word_from_token name)) rest
  unfolding parse_list
  for_do-Reads t name u v ts us rest ws body e en d h eu q ev s ready =
      let a = next_word-Gives name ts en s ready.1 in
      let b = parse_for_in-Chain d f h a.after a.post.1 in
      let c = expect_token-Gives u us t_do eu b.last.after b.last.post in
      let y = q c.after c.post.1 in
      let x = expect_token-Gives v rest t_done ev y.after y.post in
      record {
        after = x.after;
        returns =
            rw (e, a.returns, b.first, b.last.returns) (rw (c.returns, y.returns, x.returns) refl);
        post = x.post.1;
      }

  pub case_in-Reads :
      (t word u v : Token) (ts rest : List Token) (cs : Cases)
      → Is t_case t
      → token_is_word word ≡ true
      → Is t_in u
      → Gives (Ready ts) (case_loop f) cs (Ready (v ∷ rest))
      → Is t_esac v
      → ReadsBody f t (word ∷ u ∷ ts) (case (word_from_token word) cs) rest
  unfolding parse_list
  case_in-Reads t word u v ts rest cs e ew eu q ev s ready =
      let a = next_word-Gives word (u ∷ ts) ew s ready.1 in
      let b = expect_token-Gives u ts t_in eu a.after a.post.1 in
      let y = q b.after b.post.1 in
      let x = expect_token-Gives v rest t_esac ev y.after y.post in
      record {
        after = x.after;
        returns = rw (e, a.returns, b.returns) (rw (y.returns, x.returns) refl);
        post = x.post.1;
      }

  pub parentheses-Reads :
      (t u : Token) (ts us rest : List Token) (n : Node)
      → Is t_open_paren t
      → ReadsBlock f (t_close_paren ∷ []) ts n us
      → (d : Newlines us u rest) → newlines_cost d < f
      → Is t_close_paren u
      → ReadsBody f t ts (subshell n) rest
  unfolding parse_list
  parentheses-Reads t u ts us rest n e p d h eu s ready =
      let a = p s ready.1 in
      let b = skip_newlines-Gives d f h a.after a.post in
      let c = unget-Gives u rest b.after b.post in
      let x = expect_token-Gives u rest t_close_paren eu c.after c.post in
      record {
        after = x.after;
        returns = rw (e, a.returns, b.returns) (rw (c.returns, x.returns) refl);
        post = x.post.1;
      }

  pub braces-Reads :
      (t u : Token) (ts rest : List Token) (n : Node)
      → Is t_open_braces t
      → ReadsBlock f (t_close_braces ∷ []) ts n (u ∷ rest)
      → Is t_close_braces u
      → ReadsBody f t ts (group n) rest
  unfolding parse_list
  braces-Reads t u ts rest n e p eu s ready =
      let a = p s ready.1 in
      let x = expect_token-Gives u rest t_close_braces eu a.after a.post in
      record { after = x.after; returns = rw (e, a.returns, x.returns) refl; post = x.post.1 }

  pub no_else-Reads :
      (t : Token) (ts : List Token)
      → Not t_elif t
      → Not t_else t
      → Reads (else_part (suc f)) (t ∷ ts) missing (t ∷ ts)
  unfolding parse_list
  no_else-Reads t ts e e' s ready =
      let a = next-Gives t ts s ready in
      let b = unget-Gives t ts a.after a.post in
      record { after = b.after; returns = rw (a.returns, e, e', b.returns) refl; post = b.post }

  pub else_do-Reads :
      (t : Token) (ts rest : List Token) (n : Node)
      → Is t_else t
      → ReadsBlock f (t_fi ∷ []) ts n rest
      → Reads (else_part (suc f)) (t ∷ ts) n rest
  unfolding parse_list
  else_do-Reads t ts rest n e p s ready =
      let a = next-Gives t ts s ready in
      let b = p a.after a.post.1 in
      record { after = b.after; returns = rw (a.returns, e) b.returns; post = b.post }

  pub elif_then-Reads :
      (t u : Token) (ts us vs rest : List Token) (condition body else_body : Node)
      → Is t_elif t
      → ReadsBlock f (t_then ∷ []) ts condition (u ∷ us)
      → Is t_then u
      → ReadsBlock f (t_elif ∷ t_else ∷ t_fi ∷ []) us body vs
      → Reads (else_part f) vs else_body rest
      → Reads (else_part (suc f)) (t ∷ ts) (new_node (if_else condition body else_body)) rest
  unfolding parse_list
  elif_then-Reads t u ts us vs rest condition body else_body e p eu q r s ready =
      let a = next-Gives t ts s ready in
      let b = p a.after a.post.1 in
      let c = expect_token-Gives u us t_then eu b.after b.post in
      let d = q c.after c.post.1 in
      let x = r d.after d.post in
      record {
        after = x.after;
        returns = rw (a.returns, e, b.returns) (rw (c.returns, d.returns, x.returns) refl);
        post = x.post;
      }
