-- ===== src/Parser/Sound/Ifs.antt =====
-- What the tokens were that the parser (src/parser.c) has read as an `if` with its chain of `elif`,
-- where the lists in it were lists.
use tash.Base.{ℕ, suc, refl, true, some, [], ◌∷◌, ◌==◌}
use tash.Lexer.Token.{Token, t_if, t_then, t_else, t_elif, t_fi}
use tash.Parser.Tree.{missing, if_else}
use tash.Parser.State.{State, unget, next}
use tash.Parser.Descent.{parse_list, parse_if, else_part}
use tash.Parser.Phrases.{Is}
use tash.Parser.Grammar.{if_then, Else, no_else, else_do, elif_then}
use tash.Parser.Sound.Calls.{
  Took-Before, After, continue-After, at_error-After, After-map, if-After, done-After, test-Is,
  next-After, expect_token-After, ungot-Before,
}
use tash.Parser.Sound.Bodies.{Parsed, TookBody, Lists}

module _ (f : ℕ) (lists : Lists f) where
  module _ (elses : (s : State) → After (else_part f s) (Parsed Else s)) where
    pub parse_if-After :
        (t : Token) (s : State) → Is t_if t → After (parse_if (suc f) s) (TookBody t s)
    unfolding parse_list
    parse_if-After t s e =
        continue-After _ _ (parse_list f true (some (t_then ∷ [])) s) (lists (t_then ∷ []) s)
          (λ c s1 hc. at_error-After _ _ (
            continue-After _ _ _ (expect_token-After t_then s1) (λ _ s2 ht.
              continue-After _ _ (parse_list f true (some (t_elif ∷ t_else ∷ t_fi ∷ [])) s2)
                (lists (t_elif ∷ t_else ∷ t_fi ∷ []) s2)
                (λ b s3 hb. continue-After _ _ (else_part f s3) (elses s3) (λ o s4 ho.
                  continue-After _ _ _ (expect_token-After t_fi s4) (λ _ s5 he.
                    done-After _ _ s5 (record {
                      back = λ k ready.
                          let (v, ev, r4) = he.back k ready in
                          let bo = ho.back v k r4 in
                          let bb = hb.back bo.first bo.tokens bo.ready in
                          let (u, eu, r1) = ht.back (bb.first ∷ bb.tokens) bb.ready in
                          let bc = hc.back u (bb.first ∷ bb.tokens) r1 in
                          (
                            if_else c b o,
                            bc.first ∷ bc.tokens,
                            refl,
                            bc.ready,
                            if_then e bc.derives eu bb.derives bo.derives ev,
                          );
                    })))))))

    pub else_part-After : (s : State) → After (else_part (suc f) s) (Parsed Else s)
    unfolding parse_list unget
    else_part-After s = continue-After _ _ (next s) (next-After s) (λ t s1 ht.
        if-After _ (t.type == t_elif) _ _ s1
          (λ e.
            continue-After _ _ (parse_list f true (some (t_then ∷ [])) s1) (lists (t_then ∷ []) s1)
              (λ c s2 hc. continue-After _ _ _ (expect_token-After t_then s2) (λ _ s3 hn.
                continue-After _ _ (parse_list f true (some (t_elif ∷ t_else ∷ t_fi ∷ [])) s3)
                  (lists (t_elif ∷ t_else ∷ t_fi ∷ []) s3)
                  (λ b s4 hb. continue-After _ _ (else_part f s4) (elses s4) (λ o s5 ho.
                    done-After _ _ s5 (record {
                      back = λ v k ready.
                          let bo = ho.back v k ready in
                          let bb = hb.back bo.first bo.tokens bo.ready in
                          let (u, eu, r2) = hn.back (bb.first ∷ bb.tokens) bb.ready in
                          let bc = hc.back u (bb.first ∷ bb.tokens) r2 in
                          Took-Before ht bc
                            (λ ts d1. elif_then (test-Is t_elif t e) d1 eu bb.derives bo.derives);
                    }))))))
          (λ e.
            if-After _ (t.type == t_else) _ _ s1
              (λ e'. After-map _ (lists (t_fi ∷ []) s1) (λ n s2 hn. record {
                back = λ v k ready.
                    let bn = hn.back v k ready in
                    Took-Before ht bn (λ ts d1. else_do (test-Is t_else t e') d1);
              }))
              (λ e'. done-After _ _ _ (record {
                back =
                    ungot-Before (λ ts us. Else ts missing us) t s s1 ht.clean
                      (λ k ready. record {
                        first = t;
                        tokens = k;
                        ready = ht.back k ready;
                        derives = no_else e e';
                      });
              }))))
