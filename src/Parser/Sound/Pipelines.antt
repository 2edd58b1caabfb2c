-- ===== src/Parser/Sound/Pipelines.antt =====
-- What the tokens were that the parser (src/parser.c) has read as a pipeline or as a list of them
-- with `&&` and `||`, where the commands in it were commands.
use tash.Base.{
  ℕ, suc, ◌≡◌, refl, subst, Bool, true, false, not, ◌&&◌, List, ◌∷◌, ◌==◌, if◌then◌else◌,
}
use tash.Lexer.Token.{Token, t_and, t_or, t_bang, t_pipe}
use tash.Parser.Tree.{Node, Content, and_then, or_else, new_node}
use tash.Parser.State.{State, unget, next}
use tash.Parser.Descent.{
  parse_list, parse_logic_list, logic_loop, parse_pipeline, parse_simple_pipeline, parse_command,
}
use tash.Parser.Grammar.{
  Logic, logic, LogicRest, no_logic, both, either, Pipeline, negated, plain, Piped, unpiped, piped,
  Command,
}
use tash.Parser.Sound.Calls.{
  Before-map, Took-Before, After, continue-After, at_error-After, After-map, if-After, done-After,
  test-Is, Took, next-After, ungot, ungot-Before,
}
use tash.Parser.Sound.Bodies.{Parsed, reread}

module _ (f : ℕ) where
  module _ (commands : (s : State) → After (parse_command f s) (Parsed Command s))
      (pipes : (s : State) → After (parse_simple_pipeline f s) (Parsed Piped s)) where
    pub parse_simple_pipeline-After :
        (s : State) → After (parse_simple_pipeline (suc f) s) (Parsed Piped s)
    unfolding parse_list unget
    parse_simple_pipeline-After s = at_error-After _ _ (
        continue-After _ _ (parse_command f s) (commands s) (λ n s1 hn.
          continue-After _ _ (next s1) (next-After s1) (λ t s2 took.
            if-After _ (t.type == t_pipe) _ _ s2
              (λ e. continue-After _ _ (parse_simple_pipeline f s2) (pipes s2) (λ m s3 hm.
                done-After _ _ s3 (record {
                  back = λ w k ready.
                      let bm = hm.back w k ready in
                      let bn =
                        hn.back t (bm.first ∷ bm.tokens)
                          (took.back (bm.first ∷ bm.tokens) bm.ready) in
                      Before-map bn (λ ts d1. piped d1 (test-Is t_pipe t e) bm.derives);
                })))
              (λ e. done-After _ _ _ (record {
                back =
                    ungot-Before (λ ts us. Piped ts n us) t s s2 took.clean
                      (λ k ready.
                        let bn = hn.back t k (took.back k ready) in
                        Before-map bn (λ ts d1. unpiped d1 e));
              })))))

    pub parse_pipeline-After : (s : State) → After (parse_pipeline (suc f) s) (Parsed Pipeline s)
    unfolding parse_list unget
    parse_pipeline-After s = at_error-After _ _ (
        continue-After _ _ (next s) (next-After s) (λ t s1 took.
          if-After _ (t.type == t_bang) _ _ s1
            (λ e. continue-After _ _ (parse_simple_pipeline f s1) (pipes s1) (λ n s2 hn.
              done-After _ _ s2 (record {
                back = λ w k ready.
                    let b = hn.back w k ready in
                    Took-Before took b (λ ts d1. negated (test-Is t_bang t e) d1);
              })))
            (λ e. After-map _ (pipes (ungot t s1)) (λ n s2 hn. record {
              back = λ w k ready.
                  let (us, rest, d) =
                    reread (λ ts. Piped ts n (w ∷ k)) t s1 took.clean (hn.back w k ready) in
                  record { first = t; tokens = us; ready = took.back us rest; derives = plain e d };
            }))))

  module _ (pipelines : (s : State) → After (parse_pipeline f s) (Parsed Pipeline s))
      (rests : (n : Node) (s : State) → After (logic_loop f n s) (Parsed (LogicRest n) s)) where
    pub parse_logic_list-After : (s : State) → After (parse_logic_list (suc f) s) (Parsed Logic s)
    unfolding parse_list
    parse_logic_list-After s = continue-After _ _ (parse_pipeline f s) (pipelines s) (λ n s1 hn.
        After-map _ (rests n s1) (λ m s2 hm. record {
          back = λ w k ready.
              let bm = hm.back w k ready in
              let bn = hn.back bm.first bm.tokens bm.ready in
              Before-map bn (λ ts d1. logic d1 bm.derives);
        }))

    -- One more pipeline of a logic list, behind its operator.
    more_logic :
        (content : Node → Node → Content) (t : Token) (n : Node) (s s1 : State)
        → Took s t s1
        → ((c m : Node) (ts us rest : List Token)
            → Pipeline ts c us
            → LogicRest (new_node (content n c)) us m rest
            → LogicRest n (t ∷ ts) m rest)
        → (c : Node) (s2 : State) → Parsed Pipeline s1 c s2
        → After (logic_loop f (new_node (content n c)) s2) (Parsed (LogicRest n) s)
    more_logic content t n s s1 took rule c s2 hc =
        After-map _ (rests (new_node (content n c)) s2) (λ m s3 hm. record {
          back = λ w k ready.
              let bm = hm.back w k ready in
              let bc = hc.back bm.first bm.tokens bm.ready in
              record {
                first = t;
                tokens = bc.first ∷ bc.tokens;
                ready = took.back (bc.first ∷ bc.tokens) bc.ready;
                derives =
                    rule c m (bc.first ∷ bc.tokens) (bm.first ∷ bm.tokens) (w ∷ k) bc.derives
                      bm.derives;
              };
        })

    pub logic_loop-After :
        (n : Node) (s : State) → After (logic_loop (suc f) n s) (Parsed (LogicRest n) s)
    unfolding parse_list unget
    logic_loop-After n s = at_error-After _ _ (
        continue-After _ _ (next s) (next-After s) (λ t s1 took.
          if-After _ (not (t.type == t_and) && not (t.type == t_or)) _ _ s1
            (λ e. done-After _ _ _ (record {
              back =
                  ungot-Before (λ ts us. LogicRest n ts n us) t s s1 took.clean
                    (λ k ready.
                      let (ea, eo) = neither (t.type == t_and) (t.type == t_or) e in
                      record {
                        first = t;
                        tokens = k;
                        ready = took.back k ready;
                        derives = no_logic ea eo;
                      });
            }))
            (λ e.
              continue-After _ _ (parse_pipeline f s1) (pipelines s1)
                (λ c s2 hc. operator t s s1 s2 c took hc (t.type == t_and) refl e))))
      where
        neither : (a o : Bool) → (not a && not o) ≡ true → (a ≡ false) × (o ≡ false)
        neither false false h = (refl, refl)
        neither false true h = cc
        neither true o h = cc

        one : (o : Bool) → (not false && not o) ≡ false → o ≡ true
        one true h = refl
        one false h = cc

        operator :
            (t : Token) (s s1 s2 : State) (c : Node)
            → Took s t s1
            → Parsed Pipeline s1 c s2
            → (a : Bool) → (t.type == t_and) ≡ a
            → (not (t.type == t_and) && not (t.type == t_or)) ≡ false
            → After
                (logic_loop f (new_node (if a then and_then n c else or_else n c)) s2)
                (Parsed (LogicRest n) s)
        operator t s s1 s2 c took hc true e h =
            more_logic and_then t n s s1 took (λ c m ts us rest p q. both (test-Is t_and t e) p q) c
              s2 hc
        operator t s s1 s2 c took hc false e h =
            let eo =
              one (t.type == t_or)
                (subst (λ (b : Bool). (not b && not (t.type == t_or)) ≡ false) e h) in
            more_logic or_else t n s s1 took (λ c m ts us rest p q. either (test-Is t_or t eo) p q)
              c s2 hc
