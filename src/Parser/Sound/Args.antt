-- ===== src/Parser/Sound/Args.antt =====
-- What the tokens were that the parser (src/parser.c) has read as a simple command or as
-- redirections.
use tash.Base.{
  ℕ, zero, suc, ◌≡◌, refl, ap, sym, ◌∙◌, Bool, true, false, ◌||◌, Option, none, some, List, [], ◌∷◌,
  ◌++◌, append_assoc, append-nil, if_intro,
}
use tash.Lexer.Token.{Token, token_is_word}
use tash.Parser.Tree.{Word, Redir, Assign}
use tash.Parser.State.{State, Outcome, ◌>>=◌, run, pure, next, word_from_token}
use tash.Parser.Command.{
  is_redir, redir_of, parse_redir, parse_assignement, parse_assigns, parse_args, parse_redirs,
}
use tash.Parser.Streams.{Ready}
use tash.Parser.Phrases.{
  Assigns, no_assigns, assign_first, Args, no_args, word_first, redir_first, Redirs, no_redirs,
  redir_more,
}
use tash.Parser.Accepts.Args.{belongs}
use tash.Parser.Sound.Calls.{
  After, continue-After, at_error-After, After-map, done-After, stuck-After, next-After,
  next_word-After,
}

-- Nothing is put back behind `t`, unless it belongs to a simple command.
abbrev pub CleanAt : Token → State → Type 0
CleanAt t s = belongs t ≡ false → s.src.putback ≡ none

pub record TookAssigns (t : Token) (found : List Assign) (s : State) (r : List Assign × Token)
    (s' : State) : Type 0 where
  pub clean : CleanAt t s → CleanAt r.1 s'
  pub back :
      (k : List Token)
      → Ready k s'.src
      → (set : List Assign) × (ts : List Token) × (r.0 ≡ found ++ set)
        × Ready ts s.src
        × Assigns t ts set r.1 k

pub parse_assigns-After :
    (f : ℕ) (t : Token) (found : List Assign) (s : State)
    → After (parse_assigns f t found s) (TookAssigns t found s)
unfolding parse_assigns
parse_assigns-After zero t found s = stuck-After _
parse_assigns-After (suc f) t found s =
    split (parse_assignement t) refl (λ u a s1. parse_assigns-After f u (found ++ (a ∷ [])) s1)
  where
    split :
        (o : Option Assign)
        → parse_assignement t ≡ o
        → ((u : Token) (a : Assign) (s1 : State)
            → After
                (parse_assigns f u (found ++ (a ∷ [])) s1)
                (TookAssigns u (found ++ (a ∷ [])) s1))
        → After
            (elim o [
              | none ↦ run s (pure (found, t))
              | some a ↦ run s do t' ← next; parse_assigns f t' (found ++ (a ∷ []))
            ])
            (TookAssigns t found s)
    split none e ih = done-After _ _ s (record {
      clean = λ h. h;
      back = λ k ready. ([], k, sym (append-nil found), ready, no_assigns e);
    })
    split (some a) e ih = continue-After _ _ (next s) (next-After s) (λ u s1 took.
        After-map _ (ih u a s1) (λ r s2 rest. record {
          clean = λ _. rest.clean (λ _. took.clean);
          back = λ k ready.
              let (set, ts, e', ready', d) = rest.back k ready in
              (
                a ∷ set,
                u ∷ ts,
                e' ∙ append_assoc found (a ∷ []) set,
                took.back ts ready',
                assign_first e d,
              );
        }))

-- A redirection was read, with the operator `t` in hand.
pub record TookRedir (t : Token) (s : State) (r : Redir) (s' : State) : Type 0 where
  pub clean : s'.src.putback ≡ none
  pub back :
      (k : List Token)
      → Ready k s'.src
      → (d : Token) × (r ≡ redir_of t (word_from_token d))
        × (token_is_word d ≡ true)
        × Ready (d ∷ k) s.src

parse_redir-After : (t : Token) (s : State) → After (parse_redir t s) (TookRedir t s)
unfolding parse_redir
parse_redir-After t s = at_error-After _ _ (
    continue-After _ _ _ (next_word-After s) (λ d s1 h. done-After _ _ s1 (record {
      clean = h.took.clean;
      back = λ k ready. (d, refl, h.is_word, h.took.back k ready);
    })))

abbrev pub ArgsRead : Type 0
ArgsRead = List Word × List Redir × Token

pub record TookArgs (t : Token) (args : List Word) (redirs : List Redir) (s : State) (r : ArgsRead)
    (s' : State) : Type 0 where
  pub clean : CleanAt t s → s'.src.putback ≡ none
  pub back :
      (k : List Token)
      → Ready k s'.src
      → (ws : List Word) × (rs : List Redir) × (ts : List Token) × (r.0 ≡ args ++ ws)
        × (r.1 ≡ redirs ++ rs)
        × Ready ts s.src
        × Args t ts ws rs r.2 k

neither : (a b : Bool) → a ≡ false → b ≡ false → (a || b) ≡ false
neither a b e e' = rw (e, e') refl

pub parse_args-After :
    (f : ℕ) (t : Token) (args : List Word) (redirs : List Redir) (s : State)
    → After (parse_args f t args redirs s) (TookArgs t args redirs s)
unfolding parse_args
parse_args-After zero t args redirs s = stuck-After _
parse_args-After (suc f) t args redirs s =
    let w = word_from_token t in
    if_intro (λ (o : Outcome ArgsRead). After o (TookArgs t args redirs s)) (token_is_word t) _ _
      (λ e. continue-After _ _ (next s) (next-After s) (λ u s1 took.
        After-map _ (parse_args-After f u (args ++ (w ∷ [])) redirs s1) (λ r s2 rest. record {
          clean = λ _. rest.clean (λ _. took.clean);
          back = λ k ready.
              let (ws, rs, ts, e1, e2, ready', d) = rest.back k ready in
              (
                w ∷ ws,
                rs,
                u ∷ ts,
                e1 ∙ append_assoc args (w ∷ []) ws,
                e2,
                took.back ts ready',
                word_first e d,
              );
        })))
      (λ e.
        if_intro (λ (o : Outcome ArgsRead). After o (TookArgs t args redirs s)) (is_redir t) _ _
          (λ e'. continue-After _ _ (parse_redir t s) (parse_redir-After t s) (λ x s1 first.
            continue-After _ _ (next s1) (next-After s1) (λ u s2 took.
              After-map _ (parse_args-After f u args (redirs ++ (x ∷ [])) s2) (λ r s3 rest. record {
                clean = λ _. rest.clean (λ _. took.clean);
                back = λ k ready.
                    let (ws, rs, ts, e1, e2, ready', a) = rest.back k ready in
                    let (d, ex, ed, ready'') = first.back (u ∷ ts) (took.back ts ready') in
                    (
                      ws,
                      redir_of t (word_from_token d) ∷ rs,
                      d ∷ u ∷ ts,
                      e1,
                      e2
                          ∙ append_assoc redirs (x ∷ []) rs
                          ∙ ap (λ (y : Redir). redirs ++ (y ∷ rs)) ex,
                      ready'',
                      redir_first e e' ed a,
                    );
              }))))
          (λ e'. done-After _ _ s (record {
            clean = λ h. h (neither _ _ e e');
            back = λ k ready.
                ([], [], k, sym (append-nil args), sym (append-nil redirs), ready, no_args e e');
          })))

pub record TookRedirs (t : Token) (redirs : List Redir) (s : State) (r : List Redir × Token)
    (s' : State) : Type 0 where
  pub clean : s.src.putback ≡ none → s'.src.putback ≡ none
  pub back :
      (k : List Token)
      → Ready k s'.src
      → (rs : List Redir) × (ts : List Token) × (r.0 ≡ redirs ++ rs)
        × Ready ts s.src
        × Redirs t ts rs r.1 k

pub parse_redirs-After :
    (f : ℕ) (t : Token) (redirs : List Redir) (s : State)
    → After (parse_redirs f t redirs s) (TookRedirs t redirs s)
unfolding parse_redirs
parse_redirs-After zero t redirs s = stuck-After _
parse_redirs-After (suc f) t redirs s =
    if_intro (λ (o : Outcome (List Redir × Token)). After o (TookRedirs t redirs s)) (is_redir t) _
      _
      (λ e. continue-After _ _ (parse_redir t s) (parse_redir-After t s) (λ x s1 first.
        continue-After _ _ (next s1) (next-After s1) (λ u s2 took.
          After-map _ (parse_redirs-After f u (redirs ++ (x ∷ [])) s2) (λ r s3 rest. record {
            clean = λ _. rest.clean took.clean;
            back = λ k ready.
                let (rs, ts, e2, ready', a) = rest.back k ready in
                let (d, ex, ed, ready'') = first.back (u ∷ ts) (took.back ts ready') in
                (
                  redir_of t (word_from_token d) ∷ rs,
                  d ∷ u ∷ ts,
                  e2 ∙ append_assoc redirs (x ∷ []) rs ∙ ap (λ (y : Redir). redirs ++ (y ∷ rs)) ex,
                  ready'',
                  redir_more e ed a,
                );
          }))))
      (λ e. done-After _ _ s (record {
        clean = λ h. h;
        back = λ k ready. ([], k, sym (append-nil redirs), ready, no_redirs e);
      }))
