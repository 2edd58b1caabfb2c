-- ===== src/Parser/Sound/Bodies.antt =====
-- What the tokens were that the parser (src/parser.c) has read as the body of a compound command,
-- behind its first word, where the lists in it were lists.
use tash.Base.{
  ℕ, suc, ◌≡◌, refl, sym, subst, Bool, true, false, none, some, List, [], ◌∷◌, if◌then◌else◌,
}
use tash.Lexer.Token.{
  Token, t_close_paren, t_open_paren, t_for, t_in, t_do, t_done, t_while, t_until, t_case, t_esac,
  t_open_braces, t_close_braces,
}
use tash.Parser.Tree.{Node, Content, subshell, group, while, until, for_in, case, new_node}
use tash.Parser.State.{State, unget, next, word_from_token}
use tash.Parser.Descent.{
  parse_list, parse_loop, parse_for, parse_for_in, parse_case, case_loop, parse_subshell,
  parse_group,
}
use tash.Parser.Streams.{Ready}
use tash.Parser.Phrases.{Is}
use tash.Parser.Grammar.{
  Block, Body, while_do, until_do, for_do, case_in, parentheses, braces, CaseList,
}
use tash.Parser.Sound.Calls.{
  After, continue-After, at_error-After, done-After, next-After, expect_token-After,
  next_word-After, skip_newlines-After, Before, ungot, ungot-Ready,
}
use tash.Parser.Sound.Words.{parse_for_in-After}

-- Tokens were read that `D` says are this value's, given the first token behind them.
pub record Parsed {ℓ} {A : Type ℓ} (D : List Token → A → List Token → Type 0) (s : State) (a : A)
    (s' : State) : Type 0 where
  pub back : (u : Token) (k : List Token) → Ready (u ∷ k) s'.src → Before s (λ ts. D ts a (u ∷ k))

-- The body of a compound command was read, with its first word `t` in hand.
pub record TookBody (t : Token) (s : State) (n : Node) (s' : State) : Type 0 where
  pub back :
      (k : List Token)
      → Ready k s'.src
      → (c : Content) × (ts : List Token) × (n ≡ new_node c) × Ready ts s.src × Body t ts c k

-- What was put back is read again.
pub reread :
    (P : List Token → Type 0) (t : Token) (s : State)
    → s.src.putback ≡ none
    → Before (ungot t s) P
    → (us : List Token) × Ready us s.src × P (t ∷ us)
reread P t s clean b =
    let (e, ready) = ungot-Ready t s b.first b.tokens clean b.ready in
    (b.tokens, ready, subst (λ (v : Token). P (v ∷ b.tokens)) (sym e) b.derives)

-- From here on the lists that `parse_list` reads with this fuel are lists of the grammar.
abbrev pub Lists : ℕ → Type 0
Lists f =
    (types : List ℕ) (s : State) → After (parse_list f true (some types) s) (Parsed (Block types) s)

module _ (f : ℕ) (lists : Lists f) where
  pub parse_loop-After :
      (is_while : Bool) (t : Token) (s : State)
      → (if is_while then Is t_while t else Is t_until t)
      → After (parse_loop (suc f) is_while s) (TookBody t s)
  unfolding parse_list
  parse_loop-After is_while t s e = at_error-After _ _ (
      continue-After _ _ (parse_list f true (some (t_do ∷ [])) s) (lists (t_do ∷ []) s) (λ c s1 hc.
        continue-After _ _ _ (expect_token-After t_do s1) (λ _ s2 hd.
          continue-After _ _ (parse_list f true (some (t_done ∷ [])) s2) (lists (t_done ∷ []) s2)
            (λ b s3 hb. continue-After _ _ _ (expect_token-After t_done s3) (λ _ s4 he.
              done-After _ _ s4 (record {
                back = λ k ready.
                    let (v, ev, r4) = he.back k ready in
                    let bb = hb.back v k r4 in
                    let (u, eu, r2) = hd.back (bb.first ∷ bb.tokens) bb.ready in
                    let bc = hc.back u (bb.first ∷ bb.tokens) r2 in
                    elim is_while
                        as (λ (w : Bool).
                          (if w then Is t_while t else Is t_until t)
                          → (x : Content) × (ts : List Token) × (new_node
                                (if w then while c b else until c b)
                              ≡ new_node x)
                            × Ready ts s.src
                            × Body t ts x k) [
                              | true ↦ λ (w : Is t_while t). (
                                while c b,
                                bc.first ∷ bc.tokens,
                                refl,
                                bc.ready,
                                while_do w bc.derives eu bb.derives ev,
                              )
                              | false ↦ λ (w : Is t_until t). (
                                until c b,
                                bc.first ∷ bc.tokens,
                                refl,
                                bc.ready,
                                until_do w bc.derives eu bb.derives ev,
                              )
                            ]
                      e;
              }))))))

  pub parse_for-After :
      (t : Token) (s : State) → Is t_for t → After (parse_for (suc f) s) (TookBody t s)
  unfolding parse_list
  parse_for-After t s e = at_error-After _ _ (
      continue-After _ _ _ (next_word-After s) (λ name s1 hn.
        continue-After _ _ (next s1) (next-After s1) (λ x s2 hx.
          continue-After _ _ (parse_for_in f x s2) (parse_for_in-After f x s1 s2 hx) (λ ws s3 hw.
            continue-After _ _ _ (expect_token-After t_do s3) (λ _ s4 hd.
              continue-After _ _ (parse_list f true (some (t_done ∷ [])) s4)
                (lists (t_done ∷ []) s4)
                (λ b s5 hb. continue-After _ _ _ (expect_token-After t_done s5) (λ _ s6 he.
                  done-After _ _ s6 (record {
                    back = λ k ready.
                        let (v, ev, r5) = he.back k ready in
                        let bb = hb.back v k r5 in
                        let (u, eu, r3) = hd.back (bb.first ∷ bb.tokens) bb.ready in
                        let bw = hw.back u (bb.first ∷ bb.tokens) r3 in
                        (
                          for_in b ws (word_from_token name),
                          name ∷ bw.first ∷ bw.tokens,
                          refl,
                          hn.took.back (bw.first ∷ bw.tokens) bw.ready,
                          for_do e hn.is_word bw.derives eu bb.derives ev,
                        );
                  }))))))))

  pub parse_case-After :
      (t : Token) (s : State)
      → Is t_case t
      → ((s' : State) → After (case_loop f s') (Parsed CaseList s'))
      → After (parse_case (suc f) s) (TookBody t s)
  unfolding parse_list
  parse_case-After t s e cases = at_error-After _ _ (
      continue-After _ _ _ (next_word-After s) (λ word s1 hn.
        continue-After _ _ _ (expect_token-After t_in s1) (λ _ s2 hi.
          continue-After _ _ (case_loop f s2) (cases s2) (λ cs s3 hc.
            continue-After _ _ _ (expect_token-After t_esac s3) (λ _ s4 he.
              done-After _ _ s4 (record {
                back = λ k ready.
                    let (v, ev, r3) = he.back k ready in
                    let bc = hc.back v k r3 in
                    let (u, eu, r1) = hi.back (bc.first ∷ bc.tokens) bc.ready in
                    (
                      case (word_from_token word) cs,
                      word ∷ u ∷ bc.first ∷ bc.tokens,
                      refl,
                      hn.took.back (u ∷ bc.first ∷ bc.tokens) r1,
                      case_in e hn.is_word eu bc.derives ev,
                    );
              }))))))

  pub parse_subshell-After :
      (t : Token) (s : State) → Is t_open_paren t → After (parse_subshell (suc f) s) (TookBody t s)
  unfolding parse_list unget
  parse_subshell-After t s e =
      continue-After _ _ (parse_list f true (some (t_close_paren ∷ [])) s)
        (lists (t_close_paren ∷ []) s)
        (λ n s1 hn. at_error-After _ _ (
          continue-After _ _ _ (skip_newlines-After f s1) (λ u s2 hu.
            continue-After _ _ _ (expect_token-After t_close_paren (ungot u s2)) (λ _ s3 he.
              done-After _ _ s3 (record {
                back = λ k ready.
                    let (v, ev, r2) = he.back k ready in
                    let (euv, rest) = ungot-Ready u s2 v k hu.clean r2 in
                    let bl = hu.back k rest in
                    let bn = hn.back bl.first bl.tokens bl.ready in
                    (
                      subshell n,
                      bn.first ∷ bn.tokens,
                      refl,
                      bn.ready,
                      parentheses e bn.derives bl.derives (subst (Is t_close_paren) (sym euv) ev),
                    );
              })))))

  pub parse_group-After :
      (t : Token) (s : State) → Is t_open_braces t → After (parse_group (suc f) s) (TookBody t s)
  unfolding parse_list
  parse_group-After t s e =
      continue-After _ _ (parse_list f true (some (t_close_braces ∷ [])) s)
        (lists (t_close_braces ∷ []) s)
        (λ n s1 hn. at_error-After _ _ (
          continue-After _ _ _ (expect_token-After t_close_braces s1) (λ _ s2 he.
            done-After _ _ s2 (record {
              back = λ k ready.
                  let (v, ev, r1) = he.back k ready in
                  let bn = hn.back v k r1 in
                  (group n, bn.first ∷ bn.tokens, refl, bn.ready, braces e bn.derives ev);
            }))))
