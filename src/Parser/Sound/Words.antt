-- ===== src/Parser/Sound/Words.antt =====
-- What the tokens were that the parser (src/parser.c) has read as a simple command, as the words of a
-- `for` or as the patterns of a `case`.
use tash.Base.{
  ℕ, zero, suc, ◌≡◌, refl, sym, subst, ◌∙◌, ◌||◌, List, [], ◌∷◌, ◌++◌, ◌==◌, append_assoc,
  append-nil, if_intro,
}
use tash.Lexer.Token.{Token, token_is_word, t_in, t_pipe, t_semi_colon, t_newline}
use tash.Parser.Tree.{Word, Redir, Assign, Node, node, cmd}
use tash.Parser.State.{State, Outcome, next, unget, word_from_token}
use tash.Parser.Command.{parse_simple_command, parse_assigns, parse_args}
use tash.Parser.Descent.{all_args, parse_for_words, parse_for_in, parse_patterns}
use tash.Parser.Streams.{Ready}
use tash.Parser.Phrases.{
  Simple, simple, Assigns, Args, ForWords, no_words, for_word, ForIn, in_words, separator, nothing,
  Patterns, last_pattern, one_pattern,
}
use tash.Parser.Sound.Calls.{
  After, continue-After, at_error-After, After-map, if-After, done-After, failed-After, stuck-After,
  test-Is, Took, next-After, Before, ungot-Ready, ungot-Before,
}
use tash.Parser.Sound.Args.{CleanAt, parse_assigns-After, ArgsRead, parse_args-After}

-- A simple command was read, with its first token `t` in hand.
pub record TookSimple (t : Token) (s : State) (n : Node) (s' : State) : Type 0 where
  pub back :
      CleanAt t s
      → (u : Token) (k : List Token) → Ready (u ∷ k) s'.src
      → (ts : List Token) × Ready ts s.src × Simple t ts n (u ∷ k)

Simple-node :
    (t u : Token) (ts us : List Token) (a set : List Assign) (r : ArgsRead) (ws : List Word)
    (rs : List Redir) (k : List Token)
    → a ≡ set
    → r.0 ≡ ws
    → r.1 ≡ rs
    → Assigns t ts set u us
    → Args u us ws rs r.2 k
    → Simple t ts (node (cmd r.0 a) r.1) (r.2 ∷ k)
Simple-node t u ts us a set (ws', rs', v) ws rs k e e' e'' d d' = rw (e, e', e'') (simple d d')

pub parse_simple_command-After :
    (f : ℕ) (t : Token) (s : State) → After (parse_simple_command f t s) (TookSimple t s)
unfolding parse_simple_command unget
parse_simple_command-After f t s = at_error-After _ _ (
    continue-After _ _ (parse_assigns f t [] s) (parse_assigns-After f t [] s) (λ a s1 set.
      continue-After _ _ (parse_args f a.1 [] [] s1) (parse_args-After f a.1 [] [] s1) (λ r s2 args.
        done-After _ _ _ (record {
          back = λ clean v k ready.
              let (ev, rest) = ungot-Ready r.2 s2 v k (args.clean (set.clean clean)) ready in
              let (ws, rs, us, e, e', ready', d') = args.back k rest in
              let (found, ts, ea, ready'', d) = set.back us ready' in
              (
                ts,
                ready'',
                subst (λ (w : Token). Simple t ts (node (cmd r.0 a.0) r.1) (w ∷ k)) ev
                    (Simple-node t a.1 ts us a.0 found r ws rs k ea e e' d d'),
              );
        }))))

-- Words were read, with the token `t` in hand, as `P` says.
pub record TookWords (P : List Token → List Word → List Token → Type 0) (found : List Word)
    (s : State) (r : List Word) (s' : State) : Type 0 where
  pub back :
      (k : List Token)
      → Ready k s'.src
      → (ws : List Word) × (ts : List Token) × (r ≡ found ++ ws) × Ready ts s.src × P ts ws k

parse_for_words-After :
    (f : ℕ) (t : Token) (found : List Word) (s : State)
    → After (parse_for_words f t found s) (TookWords (ForWords t) found s)
unfolding parse_for_words
parse_for_words-After zero t found s = stuck-After _
parse_for_words-After (suc f) t found s =
    let w = word_from_token t in
    if_intro (λ (o : Outcome (List Word)). After o (TookWords (ForWords t) found s))
      (token_is_word t) _ _
      (λ e. continue-After _ _ (next s) (next-After s) (λ u s1 took.
        After-map _ (parse_for_words-After f u (found ++ (w ∷ [])) s1) (λ r s2 rest. record {
          back = λ k ready.
              let (ws, ts, e1, ready', d) = rest.back k ready in
              (
                w ∷ ws,
                u ∷ ts,
                e1 ∙ append_assoc found (w ∷ []) ws,
                took.back ts ready',
                for_word e d,
              );
        })))
      (λ e.
        if_intro (λ (o : Outcome (List Word)). After o (TookWords (ForWords t) found s))
          (t.type == t_semi_colon || t.type == t_newline) _ _
          (λ e'.
            done-After _ _ s
              (record { back = λ k ready. ([], k, sym (append-nil found), ready, no_words e e') }))
          (λ e'. failed-After _ s))

-- The words of a `for` were read, with the token in front of them.
pub record TookFor (s : State) (ws : List Word) (s' : State) : Type 0 where
  pub back :
      (u : Token) (k : List Token) → Ready (u ∷ k) s'.src → Before s (λ ts. ForIn ts ws (u ∷ k))

pub parse_for_in-After :
    (f : ℕ) (t : Token) (s s1 : State) → Took s t s1 → After (parse_for_in f t s1) (TookFor s)
unfolding parse_for_in unget
parse_for_in-After f t s s1 took =
    if-After _ (t.type == t_in) _ _ s1
      (λ e. continue-After _ _ (next s1) (next-After s1) (λ u s2 took'.
        After-map _ (parse_for_words-After f u [] s2) (λ r s3 rest. record {
          back = λ v k ready.
              let (ws, ts, e1, ready', d) = rest.back (v ∷ k) ready in
              record {
                first = t;
                tokens = u ∷ ts;
                ready = took.back (u ∷ ts) (took'.back ts ready');
                derives = rw e1 (in_words (test-Is t_in t e) d);
              };
        })))
      (λ e.
        if-After _ (t.type == t_semi_colon || t.type == t_newline) _ _ s1
          (λ e'. done-After _ _ s1 (record {
            back = λ v k ready. record {
              first = t;
              tokens = v ∷ k;
              ready = took.back (v ∷ k) ready;
              derives = separator e e';
            };
          }))
          (λ e'. done-After _ _ _ (record {
            back =
                ungot-Before (λ ts us. ForIn ts (all_args ∷ []) us) t s s1 took.clean
                  (λ k ready. record {
                    first = t;
                    tokens = k;
                    ready = took.back k ready;
                    derives = nothing e e';
                  });
          })))

-- Patterns were read, with the token `t` in hand.
pub record TookPatterns (t : Token) (found : List Word) (s : State) (r : List Word) (s' : State)
    : Type 0 where
  pub back :
      (v : Token) (k : List Token)
      → Ready (v ∷ k) s'.src
      → (ws : List Word) × (ts : List Token) × (r ≡ found ++ ws)
        × Ready ts s.src
        × Patterns t ts ws (v ∷ k)

pub parse_patterns-After :
    (f : ℕ) (t : Token) (found : List Word) (s : State)
    → After (parse_patterns f t found s) (TookPatterns t found s)
unfolding parse_patterns unget
parse_patterns-After zero t found s = stuck-After _
parse_patterns-After (suc f) t found s =
    let w = word_from_token t in
    if_intro (λ (o : Outcome (List Word)). After o (TookPatterns t found s)) (token_is_word t) _ _
      (λ e. continue-After _ _ (next s) (next-After s) (λ u s1 took.
        if-After _ (u.type == t_pipe) _ _ s1
          (λ e'. continue-After _ _ (next s1) (next-After s1) (λ x s2 took'.
            After-map _ (parse_patterns-After f x (found ++ (w ∷ [])) s2) (λ r s3 rest. record {
              back = λ v k ready.
                  let (ws, ts, e1, ready', d) = rest.back v k ready in
                  (
                    w ∷ ws,
                    u ∷ x ∷ ts,
                    e1 ∙ append_assoc found (w ∷ []) ws,
                    took.back (x ∷ ts) (took'.back ts ready'),
                    one_pattern e (test-Is t_pipe u e') d,
                  );
            })))
          (λ e'. done-After _ _ _ (record {
            back = λ v k ready.
                let (ev, rest) = ungot-Ready u s1 v k took.clean ready in
                (
                  w ∷ [],
                  u ∷ k,
                  refl,
                  took.back k rest,
                  subst (λ (x : Token). Patterns t (u ∷ k) (w ∷ []) (x ∷ k)) ev (last_pattern e e'),
                );
          }))))
      (λ e. failed-After _ s)
