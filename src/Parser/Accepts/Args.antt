-- ===== src/Parser/Accepts/Args.antt =====
-- How the loops of the parser (src/parser.c) read a simple command and redirections: with fuel
-- above a phrase's cost, each of them ends with what the phrase stands for.
use tash.Base.{
  ℕ, zero, suc, ◌+◌, ◌<◌, ◌≡◌, refl, Bool, true, false, ◌||◌, none, List, [], ◌∷◌, ◌++◌,
  append_assoc, append-nil, arith,
}
use tash.Lexer.Source.{Source}
use tash.Lexer.Token.{Token, token_is_word}
use tash.Parser.Tree.{Word, Redir, Assign, Node}
use tash.Parser.State.{word_from_token}
use tash.Parser.Command.{
  is_redir, parse_simple_command, redir_of, parse_redir, parse_assigns, parse_args, parse_redirs,
}
use tash.Parser.Streams.{Ready, Fresh, Gives, next-Gives, next_word-Gives, unget-Gives}
use tash.Parser.Phrases.{
  Assigns, no_assigns, assign_first, Args, no_args, word_first, redir_first, Redirs, no_redirs,
  redir_more, Simple, simple,
}

-- Does the token belong to a simple command?
abbrev pub belongs : Token → Bool
belongs t = token_is_word t || is_redir t

-- The tokens behind one that was read. A token may be put back behind it if it belongs to a simple
-- command, since the command then reads on.
abbrev pub Behind : Token → List Token → Source → Type 0
Behind t ts src = Ready ts src × (belongs t ≡ false → src.putback ≡ none)

pub Fresh-Behind : (t : Token) (ts : List Token) (src : Source) → Fresh ts src → Behind t ts src
Fresh-Behind t ts src h = (h.1, λ _. h.0)

pub belongs-Behind :
    (t : Token) (ts : List Token) (src : Source) → belongs t ≡ true → Ready ts src → Behind t ts src
belongs-Behind t ts src e h = (h, λ e'. absurd (true_false _ e e'))
  where
    true_false : (b : Bool) → b ≡ true → b ≡ false → ⊥
    true_false b e e' = cc

abbrev pub assigns_cost :
    {t u : Token} {ts us : List Token} {set : List Assign} → Assigns t ts set u us → ℕ
assigns_cost (no_assigns _) = 0
assigns_cost (assign_first _ d) = suc (assigns_cost d)

pub parse_assigns-Gives :
    {t u : Token} {ts us : List Token} {set : List Assign} (d : Assigns t ts set u us) (f : ℕ)
    → assigns_cost d < f
    → (found : List Assign)
    → Gives (Behind t ts) (parse_assigns f t found) (found ++ set, u) (Behind u us)
unfolding parse_assigns
parse_assigns-Gives (no_assigns e) (suc f) h found s ready = record {
  after = s;
  returns = rw (e, parse_assigns) (rw (append-nil found) refl);
  post = ready;
}
parse_assigns-Gives (assign_first {u = u} {ts = ts} {a = a} {set = set} e d) (suc f) h found s
      ready =
    let next = next-Gives u ts s ready.0 in
    let rest =
      parse_assigns-Gives d f (omega arith) (found ++ (a ∷ [])) next.after
        (Fresh-Behind u ts _ next.post) in
    record {
      after = rest.after;
      returns =
          rw (e, parse_assigns)
            (rw (next.returns, rest.returns, append_assoc found (a ∷ []) set) refl);
      post = rest.post;
    }
parse_assigns-Gives _ zero h found s ready = absurd (omega arith)

parse_redir-Gives :
    (t d : Token) (ts : List Token)
    → token_is_word d ≡ true
    → Gives (Ready (d ∷ ts)) (parse_redir t) (redir_of t (word_from_token d)) (Fresh ts)
unfolding parse_redir
parse_redir-Gives t d ts e s ready =
    let last = next_word-Gives d ts e s ready in
    record { after = last.after; returns = rw last.returns refl; post = last.post }

abbrev pub args_cost :
    {t u : Token} {ts us : List Token} {ws : List Word} {rs : List Redir} → Args t ts ws rs u us → ℕ
args_cost (no_args _ _) = 0
args_cost (word_first _ d) = suc (args_cost d)
args_cost (redir_first _ _ _ d) = suc (args_cost d)

pub parse_args-Gives :
    {u : Token} {us : List Token} {t : Token} {ts : List Token} {ws : List Word} {rs : List Redir}
    (d : Args t ts ws rs u us) (f : ℕ)
    → args_cost d < f
    → (args : List Word) (redirs : List Redir)
    → Gives (Behind t ts) (parse_args f t args redirs) (args ++ ws, redirs ++ rs, u) (Fresh us)
unfolding parse_args
parse_args-Gives (no_args {t = t} e e') (suc f) h args redirs s ready = record {
  after = s;
  returns = rw (e, e', append-nil args, append-nil redirs) refl;
  post = (ready.1 (rw (e, e') refl), ready.0);
}
parse_args-Gives (word_first {t = t} {u = u} {ts = ts} {ws = ws} e d) (suc f) h args redirs s
      ready =
    let w = word_from_token t in
    let next = next-Gives u ts s ready.0 in
    let rest =
      parse_args-Gives {t = u} d f (omega arith) (args ++ (w ∷ [])) redirs next.after
        (Fresh-Behind u ts _ next.post) in
    record {
      after = rest.after;
      returns = rw (e, next.returns, rest.returns, append_assoc args (w ∷ []) ws) refl;
      post = rest.post;
    }
parse_args-Gives (redir_first {t = t} {d = d} {u = u} {ts = ts} {rs = rs} e e' e'' d') (suc f) h
      args redirs s ready =
    let r = redir_of t (word_from_token d) in
    let first = parse_redir-Gives t d (u ∷ ts) e'' s ready.0 in
    let next = next-Gives u ts first.after first.post.1 in
    let rest =
      parse_args-Gives {t = u} d' f (omega arith) args (redirs ++ (r ∷ [])) next.after
        (Fresh-Behind u ts _ next.post) in
    record {
      after = rest.after;
      returns =
          rw (e, e', first.returns, next.returns, rest.returns, append_assoc redirs (r ∷ []) rs)
            refl;
      post = rest.post;
    }
parse_args-Gives _ zero h args redirs s ready = absurd (omega arith)

abbrev pub redirs_cost :
    {t u : Token} {ts us : List Token} {rs : List Redir} → Redirs t ts rs u us → ℕ
redirs_cost (no_redirs _) = 0
redirs_cost (redir_more _ _ d) = suc (redirs_cost d)

pub parse_redirs-Gives :
    {u : Token} {us : List Token} {t : Token} {ts : List Token} {rs : List Redir}
    (d : Redirs t ts rs u us) (f : ℕ)
    → redirs_cost d < f
    → (redirs : List Redir)
    → Gives (Fresh ts) (parse_redirs f t redirs) (redirs ++ rs, u) (Fresh us)
unfolding parse_redirs
parse_redirs-Gives (no_redirs e) (suc f) h redirs s ready = record {
  after = s;
  returns = rw (e, append-nil redirs) refl;
  post = ready;
}
parse_redirs-Gives (redir_more {t = t} {d = d} {u = u} {ts = ts} {rs = rs} e e' d') (suc f) h redirs
      s ready =
    let r = redir_of t (word_from_token d) in
    let first = parse_redir-Gives t d (u ∷ ts) e' s ready.1 in
    let next = next-Gives u ts first.after first.post.1 in
    let rest =
      parse_redirs-Gives {t = u} d' f (omega arith) (redirs ++ (r ∷ [])) next.after next.post in
    record {
      after = rest.after;
      returns =
          rw (e, first.returns, next.returns, rest.returns, append_assoc redirs (r ∷ []) rs) refl;
      post = rest.post;
    }
parse_redirs-Gives _ zero h redirs s ready = absurd (omega arith)

abbrev pub simple_cost : {t : Token} {ts rest : List Token} {n : Node} → Simple t ts n rest → ℕ
simple_cost (simple set args) = assigns_cost set + args_cost args

pub parse_simple_command-Gives :
    {t : Token} {ts rest : List Token} {n : Node} (d : Simple t ts n rest) (f : ℕ)
    → simple_cost d < f
    → Gives (Behind t ts) (parse_simple_command f t) n (Ready rest)
unfolding parse_simple_command
parse_simple_command-Gives (simple {v = v} {vs = vs} set args) f h s ready =
    let first = parse_assigns-Gives set f (omega arith) [] s ready in
    let second = parse_args-Gives args f (omega arith) [] [] first.after first.post in
    let third = unget-Gives v vs second.after second.post in
    record {
      after = third.after;
      returns = rw (first.returns, second.returns, third.returns) refl;
      post = third.post;
    }
