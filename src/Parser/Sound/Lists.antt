-- ===== src/Parser/Sound/Lists.antt =====
-- What the tokens were that the parser (src/parser.c) has read as a list, where the logic lists in it
-- were logic lists.
use tash.Base.{ℕ, suc, ◌≡◌, true, not, some, List, ◌∷◌}
use tash.Lexer.Token.{Token}
use tash.Parser.Tree.{Node, sep, new_node}
use tash.Parser.State.{State, unget, next}
use tash.Parser.Descent.{mem_type, parse_list, list_loop, list_next, parse_logic_list}
use tash.Parser.Phrases.{separates, ended}
use tash.Parser.Grammar.{Block, block, Items, unseparated, terminated, item, Logic}
use tash.Parser.Sound.Calls.{
  Before-map, Took-Before, After, continue-After, at_error-After, After-map, if-After, done-After,
  not-true, not-false, Took, next-After, skip_newlines-After, ungot, ungot-Before,
}
use tash.Parser.Sound.Bodies.{Parsed, reread}

module _ (f : ℕ) where
  module _ (logics : (s : State) → After (parse_logic_list f s) (Parsed Logic s))
      (loops : (types : List ℕ) (n : Node) (s : State)
        → After (list_loop f true (some types) n s) (Parsed (Items types n) s)) where
    pub parse_list-After :
        (types : List ℕ) (s : State)
        → After (parse_list (suc f) true (some types) s) (Parsed (Block types) s)
    unfolding parse_list
    parse_list-After types s = continue-After _ _ (parse_logic_list f s) (logics s) (λ n s1 hn.
        After-map _ (loops types n s1) (λ m s2 hm. record {
          back = λ w k ready.
              let bm = hm.back w k ready in
              let bn = hn.back bm.first bm.tokens bm.ready in
              Before-map bn (λ ts d1. block d1 bm.derives);
        }))

    pub list_next-After :
        (types : List ℕ) (t : Token) (n : Node) (s s1 : State)
        → Took s t s1
        → separates t ≡ true
        → After (list_next (suc f) (some types) (ended t n) s1) (Parsed (Items types n) s)
    unfolding parse_list unget
    list_next-After types t n s s1 took e =
        continue-After _ _ _ (skip_newlines-After f s1) (λ u s2 lines.
          if-After _ (mem_type u.type types) _ _ (ungot u s2)
            (λ em. done-After _ _ _ (record {
              back =
                  ungot-Before (λ ts us. Items types n ts (ended t n) us) u s s2 lines.clean
                    (λ k ready.
                      let bl = lines.back k ready in
                      Took-Before took bl (λ ts d1. terminated e d1 em));
            }))
            (λ em.
              continue-After _ _ (parse_logic_list f (ungot u s2)) (logics (ungot u s2)) (λ c s3 hc.
                After-map _ (loops types (new_node (sep (ended t n) c)) s3) (λ m s4 hm. record {
                  back = λ w k ready.
                      let bm = hm.back w k ready in
                      let (us, rest, d) =
                        reread (λ ts. Logic ts c (bm.first ∷ bm.tokens)) u s2 lines.clean
                          (hc.back bm.first bm.tokens bm.ready) in
                      let bl = lines.back us rest in
                      Took-Before took bl (λ ts d1. item e d1 em d bm.derives);
                }))))

  pub list_loop-After :
      ((types : List ℕ) (t : Token) (n : Node) (s s1 : State)
        → Took s t s1
        → separates t ≡ true
        → After (list_next f (some types) (ended t n) s1) (Parsed (Items types n) s))
      → (types : List ℕ) (n : Node) (s : State)
      → After (list_loop (suc f) true (some types) n s) (Parsed (Items types n) s)
  unfolding parse_list unget
  list_loop-After nexts types n s = at_error-After _ _ (
      continue-After _ _ (next s) (next-After s) (λ t s1 took.
        if-After _ (not (separates t)) _ _ s1
          (λ e. done-After _ _ _ (record {
            back =
                ungot-Before (λ ts us. Items types n ts n us) t s s1 took.clean
                  (λ k ready. record {
                    first = t;
                    tokens = k;
                    ready = took.back k ready;
                    derives = unseparated (not-true _ e);
                  });
          }))
          (λ e. nexts types t n s s1 took (not-false _ e))))
