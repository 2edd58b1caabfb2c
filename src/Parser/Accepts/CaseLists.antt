-- ===== src/Parser/Accepts/CaseLists.antt =====
-- The steps of the parser (src/parser.c) in a `case`: what a call returns, from what the calls in it
-- return.
use tash.Base.{
  ℕ, suc, ◌<◌, ◌≡◌, refl, ◌⊎◌, inl, inr, Bool, true, false, ◌&&◌, ◌||◌, not, List, [], ◌∷◌, ◌==◌,
}
use tash.Lexer.Token.{Token, token_is_word, t_close_paren, t_open_paren, t_dsemi, t_esac}
use tash.Parser.Tree.{Word, Node, missing, Cases, no_cases, one_case}
use tash.Parser.Descent.{parse_list, case_loop, case_body, ends_cases}
use tash.Parser.Streams.{
  Ready, Gives, next-Gives, unget-Gives, expect_token-Gives, Newlines, newlines_cost,
  skip_newlines-Gives,
}
use tash.Parser.Phrases.{Is, Not, OpenPatterns, bare, opened}
use tash.Parser.Accepts.Words.{open_patterns_cost, parse_patterns-Chain}
use tash.Parser.Accepts.Commands.{Is-test}
use tash.Parser.Accepts.Lists.{Reads}
use tash.Parser.Accepts.Bodies.{ReadsBlock}

or_true : (b : Bool) → (b || true) ≡ true
or_true true = refl
or_true false = refl

-- The tokens that end the cases, and those that start one.
no_case-ends_cases :
    (t : Token) → Not t_open_paren t → (token_is_word t ≡ false) ⊎ Is t_esac t → ends_cases t ≡ true
no_case-ends_cases t e (inl e') = rw (e, e') refl
no_case-ends_cases t e (inr e') = rw (e, Is-test t_esac t e') (or_true (not (token_is_word t)))

patterns-ends_cases :
    (t : Token) (ts rest : List Token) (ws : List Word)
    → OpenPatterns t ts ws rest
    → ends_cases t ≡ false
patterns-ends_cases t ts rest ws (bare e e' e'' _) = rw (e, e', e'') refl
patterns-ends_cases t ts rest ws (opened e _) = rw e refl

no_body-test :
    (t : Token)
    → Is t_dsemi t ⊎ Is t_esac t
    → (not (t.type == t_dsemi) && not (t.type == t_esac)) ≡ false
no_body-test t (inl e) = rw e refl
no_body-test t (inr e) = rw e refl

module _ (f : ℕ) where
  pub empty-Reads :
      (t : Token) (ts us : List Token) (d : Newlines ts t us)
      → newlines_cost d < f
      → Not t_open_paren t
      → (token_is_word t ≡ false) ⊎ Is t_esac t
      → Gives (Ready ts) (case_loop (suc f)) no_cases (Ready (t ∷ us))
  unfolding parse_list
  empty-Reads t ts us d h e e' s ready =
      let a = skip_newlines-Gives d f h s ready in
      let b = unget-Gives t us a.after a.post in
      record {
        after = b.after;
        returns = rw (a.returns, no_case-ends_cases t e e', b.returns) refl;
        post = b.post;
      }

  pub last_case-Reads :
      (t p v : Token) (ts us vs ws : List Token) (patterns : List Word) (n : Node)
      (d : Newlines ts t us)
      → newlines_cost d < f
      → (o : OpenPatterns t us patterns (p ∷ vs)) → open_patterns_cost o < f
      → Is t_close_paren p
      → Reads (case_body f) vs n (v ∷ ws)
      → Not t_dsemi v
      → Gives (Ready ts) (case_loop (suc f)) (one_case patterns n no_cases) (Ready (v ∷ ws))
  unfolding parse_list
  last_case-Reads t p v ts us vs ws patterns n d h o h' ep q ev s ready =
      let a = skip_newlines-Gives d f h s ready in
      let b = parse_patterns-Chain o f h' a.after a.post in
      let c = expect_token-Gives p vs t_close_paren ep b.last.after b.last.post in
      let x = q c.after c.post.1 in
      let next = next-Gives v ws x.after x.post in
      let last = unget-Gives v ws next.after next.post in
      let starts = patterns-ends_cases t us (p ∷ vs) patterns o in
      record {
        after = last.after;
        returns =
            rw (a.returns, starts, b.first, b.last.returns, c.returns)
              (rw (x.returns, next.returns, ev, last.returns) refl);
        post = last.post;
      }

  pub next_case-Reads :
      (t p v : Token) (ts us vs ws rest : List Token) (patterns : List Word) (n : Node) (cs : Cases)
      (d : Newlines ts t us)
      → newlines_cost d < f
      → (o : OpenPatterns t us patterns (p ∷ vs)) → open_patterns_cost o < f
      → Is t_close_paren p
      → Reads (case_body f) vs n (v ∷ ws)
      → Is t_dsemi v
      → Gives (Ready ws) (case_loop f) cs (Ready rest)
      → Gives (Ready ts) (case_loop (suc f)) (one_case patterns n cs) (Ready rest)
  unfolding parse_list
  next_case-Reads t p v ts us vs ws rest patterns n cs d h o h' ep q ev r s ready =
      let a = skip_newlines-Gives d f h s ready in
      let b = parse_patterns-Chain o f h' a.after a.post in
      let c = expect_token-Gives p vs t_close_paren ep b.last.after b.last.post in
      let x = q c.after c.post.1 in
      let next = next-Gives v ws x.after x.post in
      let last = r next.after next.post.1 in
      let starts = patterns-ends_cases t us (p ∷ vs) patterns o in
      record {
        after = last.after;
        returns =
            rw (a.returns, starts, b.first, b.last.returns, c.returns)
              (rw (x.returns, next.returns, Is-test t_dsemi v ev, last.returns) refl);
        post = last.post;
      }

  pub no_body-Reads :
      (t : Token) (ts us : List Token) (d : Newlines ts t us)
      → newlines_cost d < f
      → Is t_dsemi t ⊎ Is t_esac t
      → Reads (case_body (suc f)) ts missing (t ∷ us)
  unfolding parse_list
  no_body-Reads t ts us d h e s ready =
      let a = skip_newlines-Gives d f h s ready in
      let b = unget-Gives t us a.after a.post in
      record {
        after = b.after;
        returns = rw (a.returns, b.returns, no_body-test t e) refl;
        post = b.post;
      }

  pub body-Reads :
      (t : Token) (ts us rest : List Token) (n : Node) (d : Newlines ts t us)
      → newlines_cost d < f
      → Not t_dsemi t
      → Not t_esac t
      → ReadsBlock f (t_esac ∷ t_dsemi ∷ []) (t ∷ us) n rest
      → Reads (case_body (suc f)) ts n rest
  unfolding parse_list
  body-Reads t ts us rest n d h e e' p s ready =
      let a = skip_newlines-Gives d f h s ready in
      let b = unget-Gives t us a.after a.post in
      let x = p b.after b.post in
      record {
        after = x.after;
        returns = rw (a.returns, b.returns, e, e') x.returns;
        post = x.post;
      }
