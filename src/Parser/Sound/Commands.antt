-- ===== src/Parser/Sound/Commands.antt =====
-- What the tokens were that the parser (src/parser.c) has read as a command, where the compound
-- commands in it were compound commands.
use tash.Base.{
  ℕ, suc, ◌≡◌, refl, ap, sym, subst, ◌∙◌, Bool, true, false, ◌||◌, List, [], ◌∷◌, ◌==◌,
  if◌then◌else◌,
}
use tash.Lexer.Token.{Token, t_word, t_open_paren, t_close_paren}
use tash.Parser.Tree.{Word, Redir, Node, node, func, new_node}
use tash.Parser.State.{State, unget, next, on_error, set_prompt, skip_newlines}
use tash.Parser.Command.{is_redir, is_valid_name, parse_simple_command, parse_redirs}
use tash.Parser.Descent.{
  parse_list, starts_compound, parse_command, parse_compound_command, compound_of, parse_func,
}
use tash.Parser.Streams.{Ready}
use tash.Parser.Phrases.{
  Is, Simple, simple, no_assigns, assign_first, Args, no_args, word_first, redir_first,
}
use tash.Parser.Grammar.{Command, words, redirected, definition, compound, Compound, redirect}
use tash.Parser.Accepts.Args.{belongs}
use tash.Parser.Accepts.Commands.{word-belongs}
use tash.Parser.Sound.Calls.{
  Before-map, After, continue-After, at_error-After, After-map, if-After, done-After, failed-After,
  test-Is, Took, next-After, expect_token-After, TookLines, skip_newlines-After, ungot, ungot-Ready,
}
use tash.Parser.Sound.Args.{parse_redirs-After}
use tash.Parser.Sound.Words.{parse_simple_command-After}
use tash.Parser.Sound.Bodies.{Parsed, TookBody, reread}

-- Behind the word that a simple command starts with there is a token.
Args-nonempty :
    {v : Token} {t : Token} {ts vs : List Token} {ws : List Word} {rs : List Redir}
    → Args t ts ws rs v vs
    → belongs t ≡ true
    → (x : Token) × (xs : List Token) × (ts ≡ x ∷ xs)
Args-nonempty (no_args {t = t} e e') h = absurd (both _ _ e e' h)
  where
    both : (a b : Bool) → a ≡ false → b ≡ false → (a || b) ≡ true → ⊥
    both true b e e' h = cc
    both false true e e' h = cc
    both false false e e' h = cc
Args-nonempty (word_first {u = u} {ts = ts} e d) h = (u, ts, refl)
Args-nonempty (redir_first {d = d} {u = u} {ts = ts} e e' e'' a) h = (d, u ∷ ts, refl)

Simple-nonempty :
    {t : Token} {ts rest : List Token} {n : Node}
    → Simple t ts n rest
    → belongs t ≡ true
    → (x : Token) × (xs : List Token) × (ts ≡ x ∷ xs)
Simple-nonempty (simple (no_assigns e) args) h = Args-nonempty args h
Simple-nonempty (simple (assign_first {u = u} {ts = ts} e d) args) h = (u, ts, refl)

or_right : (a b : Bool) → b ≡ true → (a || b) ≡ true
or_right true b e = refl
or_right false b e = e

clash : (b : Bool) → b ≡ true → b ≡ false → ⊥
clash b e e' = cc

-- A definition was read, with its name `t` in hand.
pub record TookFunc (t : Token) (s : State) (n : Node) (s' : State) : Type 0 where
  pub valid : is_valid_name t ≡ true
  pub back :
      (w : Token) (k : List Token)
      → Ready (w ∷ k) s'.src
      → (u : Token) × (v : Token) × (ts : List Token) × (body : Node) × Is t_open_paren u
        × Is t_close_paren v
        × (n ≡ new_node (func t.value body))
        × Ready (u ∷ v ∷ ts) s.src
        × Compound ts body (w ∷ k)

module _ (f : ℕ)
    (compounds : (s : State) → After (parse_compound_command f s) (Parsed Compound s)) where
  pub parse_func-After : (t : Token) (s : State) → After (parse_func (suc f) t s) (TookFunc t s)
  unfolding parse_list
  parse_func-After t s = at_error-After _ _ (
      continue-After _ _ _ (expect_token-After t_open_paren s) (λ _ s1 ho.
        continue-After _ _ _ (expect_token-After t_close_paren s1) (λ _ s2 hc.
          continue-After _ _ (parse_compound_command f s2) (compounds s2) (λ n s3 hn.
            if-After _ (is_valid_name t) _ _ s3
              (λ e. done-After _ _ s3 (record {
                valid = e;
                back = λ w k ready.
                    let b = hn.back w k ready in
                    let (v, ev, r1) = hc.back (b.first ∷ b.tokens) b.ready in
                    let (u, eu, r0) = ho.back (v ∷ b.first ∷ b.tokens) r1 in
                    (u, v, b.first ∷ b.tokens, n, eu, ev, refl, r0, b.derives);
              }))
              (λ e. failed-After _ s3)))))

  module _ (functions : (t : Token) (s : State) → After (parse_func f t s) (TookFunc t s)) where
    -- A word that no `(` follows, or a definition.
    word_command :
        (t u : Token) (s s1 s2 : State)
        → (t.type == t_word) ≡ true
        → TookLines s t s1
        → Took s1 u s2
        → After
            ((if u.type == t_open_paren then parse_func f t else parse_simple_command f t)
              (ungot u s2))
            (Parsed Command s)
    word_command t u s s1 s2 e lines took =
        let word : Is t_word t = test-Is t_word t e in
        if-After _ (u.type == t_open_paren) _ _ (ungot u s2)
          (λ eu. After-map _ (functions t (ungot u s2)) (λ n s3 h. record {
            back = λ w k ready.
                let (p, v, ts, n', ep, ev, en, r2, d) = h.back w k ready in
                let (eq, rest) = ungot-Ready u s2 p (v ∷ ts) took.clean r2 in
                let bl = lines.back (u ∷ v ∷ ts) (took.back (v ∷ ts) rest) in
                Before-map bl
                  (λ ts d1. rw en (definition d1 word h.valid (test-Is t_open_paren u eu) ev d));
          }))
          (λ eu. After-map _ (parse_simple_command-After f t (ungot u s2)) (λ n s3 h. record {
            back = λ w k ready.
                let (ts, r2, d) =
                  h.back (λ c. absurd (clash _ (word-belongs t word) c)) w k ready in
                let (x, xs, ex) = Simple-nonempty d (word-belongs t word) in
                let (eq, rest) =
                  ungot-Ready u s2 x xs took.clean
                    (subst (λ (ys : List Token). Ready ys (ungot u s2).src) ex r2) in
                let ets : ts ≡ u ∷ xs = ex ∙ ap (λ (y : Token). y ∷ xs) (sym eq) in
                let bl = lines.back (u ∷ xs) (took.back xs rest) in
                Before-map bl (λ ts d1.
                  words d1 word eu (subst (λ (ys : List Token). Simple t ys n (w ∷ k)) ets d));
          }))

    pub parse_command-After : (s : State) → After (parse_command (suc f) s) (Parsed Command s)
    unfolding parse_list unget set_prompt
    parse_command-After s =
        continue-After _ _ (on_error (skip_newlines f) s)
          (at_error-After _ _ (skip_newlines-After f s))
          (λ t s1 lines.
            let s1' : State = record s1 { prompt = 2 } in
            let lines' : TookLines s t s1' = record { clean = lines.clean; back = lines.back } in
            if-After _ (starts_compound t) _ _ s1'
              (λ e. After-map _ (compounds (ungot t s1')) (λ n s2 hn. record {
                back = λ w k ready.
                    let (us, rest, d) =
                      reread (λ ts. Compound ts n (w ∷ k)) t s1' lines.clean (hn.back w k ready) in
                    let bl = lines.back us rest in Before-map bl (λ ts d1. compound d1 e d);
              }))
              (λ e.
                if-After _ (t.type == t_word) _ _ s1'
                  (λ ew.
                    continue-After _ _ (on_error next s1') (at_error-After _ _ (next-After s1'))
                      (λ u s2 took. word_command t u s s1' s2 ew lines' took))
                  (λ ew.
                    if-After _ (is_redir t) _ _ s1'
                      (λ er. After-map _ (parse_simple_command-After f t s1') (λ n s2 h. record {
                        back = λ w k ready.
                            let (ts, rest, d) = h.back (λ _. lines.clean) w k ready in
                            let bl = lines.back ts rest in
                            Before-map bl (λ ts d1. redirected d1 e ew er d);
                      }))
                      (λ er. at_error-After _ _ (failed-After _ s1')))))

-- The elimination in `parse_compound_command`: the redirections replace those of a new node.
module _ (f : ℕ) (bodies : (t : Token) (s : State) → After (compound_of f t s) (TookBody t s)) where
  pub parse_compound_command-After :
      (s : State) → After (parse_compound_command (suc f) s) (Parsed Compound s)
  unfolding parse_list unget set_prompt
  parse_compound_command-After s =
      continue-After _ _ (on_error (skip_newlines f) s)
        (at_error-After _ _ (skip_newlines-After f s))
        (λ t s1 lines.
          let s1' : State = record s1 { prompt = 2 } in
          continue-After _ _ (compound_of f t s1') (bodies t s1') (λ n s2 hn. at_error-After _ _ (
            continue-After _ _ (next s2) (next-After s2) (λ u s3 took.
              continue-After _ _ (parse_redirs f u [] s3) (parse_redirs-After f u [] s3) (λ r s4 hr.
                done-After _ _ _ (record {
                  back = λ w k ready.
                      let (ew, rest) = ungot-Ready r.1 s4 w k (hr.clean took.clean) ready in
                      let (rs, us, er, r3, dr) = hr.back k rest in
                      let (c, ts, en, r1, d) = hn.back (u ∷ us) (took.back us r3) in
                      let bl = lines.back ts r1 in
                      record {
                        first = bl.first;
                        tokens = bl.tokens;
                        ready = bl.ready;
                        derives =
                            rw (en, er)
                              (subst
                                (λ (x : Token). Compound (bl.first ∷ bl.tokens) (node c rs) (x ∷ k))
                                ew (redirect bl.derives d dr));
                      };
                }))))))
