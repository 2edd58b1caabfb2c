-- ===== src/Parser/Accepts/Commands.antt =====
-- The steps of the parser (src/parser.c) from a command down to the body of a compound command: what
-- a call returns, from what the calls in it return.
use tash.Base.{◌==◌, ==_refl, ℕ, suc, ◌<◌, ◌≡◌, refl, true, false, List, [], ◌∷◌}
use tash.Lexer.Token.{Token, token_is_word, t_word, t_open_paren, t_close_paren}
use tash.Parser.Tree.{Redir, Node, Content, node, func, new_node}
use tash.Parser.Command.{is_redir, is_valid_name}
use tash.Parser.Descent.{
  starts_compound, parse_list, parse_command, parse_compound_command, compound_of,
}
use tash.Parser.Streams.{
  Ready, Fresh, Gives, next-Gives, unget-Gives, set_prompt-Gives, expect_token-Gives, Newlines,
  newlines_cost, skip_newlines-Gives,
}
use tash.Parser.Phrases.{Is, Not, Redirs, Simple}
use tash.Parser.Accepts.Args.{
  redirs_cost, parse_redirs-Gives, simple_cost, parse_simple_command-Gives, Fresh-Behind,
  belongs-Behind, belongs,
}
use tash.Parser.Accepts.Lists.{Reads}

-- The tests that a word, or a token of a type, passes.
pub Is-test : (k : ℕ) (t : Token) → Is k t → (t.type == k) ≡ true
Is-test k t e = rw (e, ==_refl k) refl

word-starts_compound : (t : Token) → Is t_word t → starts_compound t ≡ false
word-starts_compound t e = rw e refl

pub word-belongs : (t : Token) → Is t_word t → belongs t ≡ true
unfolding token_is_word
word-belongs t e = rw e refl

module _ (f : ℕ) where
  pub words-Reads :
      (t u : Token) (ts us rest : List Token) (n : Node) (d : Newlines ts t (u ∷ us))
      → newlines_cost d < f
      → Is t_word t
      → Not t_open_paren u
      → (w : Simple t (u ∷ us) n rest) → simple_cost w < f
      → Reads (parse_command (suc f)) ts n rest
  unfolding parse_list
  words-Reads t u ts us rest n d h e e' w h' s ready =
      let a = skip_newlines-Gives d f h s ready in
      let b = set_prompt-Gives 2 (u ∷ us) a.after a.post in
      let c = next-Gives u us b.after b.post.1 in
      let x = unget-Gives u us c.after c.post in
      let y =
        parse_simple_command-Gives w f h' x.after
          (belongs-Behind t (u ∷ us) _ (word-belongs t e) x.post) in
      record {
        after = y.after;
        returns =
            rw (a.returns, b.returns, word-starts_compound t e, Is-test t_word t e)
              (rw (c.returns, x.returns, e') y.returns);
        post = y.post;
      }

  pub redirected-Reads :
      (t : Token) (ts us rest : List Token) (n : Node) (d : Newlines ts t us)
      → newlines_cost d < f
      → starts_compound t ≡ false
      → Not t_word t
      → is_redir t ≡ true
      → (w : Simple t us n rest) → simple_cost w < f
      → Reads (parse_command (suc f)) ts n rest
  unfolding parse_list
  redirected-Reads t ts us rest n d h e e' e'' w h' s ready =
      let a = skip_newlines-Gives d f h s ready in
      let b = set_prompt-Gives 2 us a.after a.post in
      let y = parse_simple_command-Gives w f h' b.after (Fresh-Behind t us _ b.post) in
      record {
        after = y.after;
        returns = rw (a.returns, b.returns, e, e', e'') y.returns;
        post = y.post;
      }

  pub definition-Reads :
      (t u v : Token) (ts us rest : List Token) (n : Node) (d : Newlines ts t (u ∷ v ∷ us))
      → newlines_cost d < suc f
      → Is t_word t
      → is_valid_name t ≡ true
      → Is t_open_paren u
      → Is t_close_paren v
      → Reads (parse_compound_command f) us n rest
      → Reads (parse_command (suc (suc f))) ts (new_node (func t.value n)) rest
  unfolding parse_list
  definition-Reads t u v ts us rest n d h e e' eu ev p s ready =
      let a = skip_newlines-Gives d (suc f) h s ready in
      let b = set_prompt-Gives 2 (u ∷ v ∷ us) a.after a.post in
      let c = next-Gives u (v ∷ us) b.after b.post.1 in
      let x = unget-Gives u (v ∷ us) c.after c.post in
      let opens = expect_token-Gives u (v ∷ us) t_open_paren eu x.after x.post in
      let close = expect_token-Gives v us t_close_paren ev opens.after opens.post.1 in
      let y = p close.after close.post.1 in
      record {
        after = y.after;
        returns =
            rw (a.returns, b.returns, word-starts_compound t e, Is-test t_word t e)
              (rw (c.returns, x.returns, Is-test t_open_paren u eu)
                (rw (opens.returns, close.returns, y.returns, e') refl));
        post = y.post;
      }

  pub compound-Reads :
      (t : Token) (ts us rest : List Token) (n : Node) (d : Newlines ts t us)
      → newlines_cost d < f
      → starts_compound t ≡ true
      → Reads (parse_compound_command f) (t ∷ us) n rest
      → Reads (parse_command (suc f)) ts n rest
  unfolding parse_list
  compound-Reads t ts us rest n d h e p s ready =
      let a = skip_newlines-Gives d f h s ready in
      let b = set_prompt-Gives 2 us a.after a.post in
      let c = unget-Gives t us b.after b.post in
      let y = p c.after c.post in
      record {
        after = y.after;
        returns = rw (a.returns, b.returns, e, c.returns) y.returns;
        post = y.post;
      }

  pub redirect-Reads :
      (t u v : Token) (ts us vs ws : List Token) (c : Content) (rs : List Redir)
      (d : Newlines ts t us)
      → newlines_cost d < f
      → Gives (Fresh us) (compound_of f t) (new_node c) (Ready (u ∷ vs))
      → (r : Redirs u vs rs v ws) → redirs_cost r < f
      → Reads (parse_compound_command (suc f)) ts (node c rs) (v ∷ ws)
  unfolding parse_list
  redirect-Reads t u v ts us vs ws c rs d h p r h' s ready =
      let a = skip_newlines-Gives d f h s ready in
      let b = set_prompt-Gives 2 us a.after a.post in
      let x = p b.after b.post in
      let next = next-Gives u vs x.after x.post in
      let last = parse_redirs-Gives r f h' [] next.after next.post in
      let y = unget-Gives v ws last.after last.post in
      record {
        after = y.after;
        returns =
            rw (a.returns, b.returns, x.returns) (rw (next.returns, last.returns, y.returns) refl);
        post = y.post;
      }
