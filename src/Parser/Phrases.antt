-- ===== src/Parser/Phrases.antt =====
-- The smaller phrases of the grammar of the shell (src/parser.c), over lists of tokens: without fuel,
-- a token put back, or errors.
use tash.Base.{ℕ, ◌≡◌, Bool, true, false, ◌||◌, none, some, List, [], ◌∷◌, ◌==◌, if◌then◌else◌}
use tash.Lexer.Token.{
  Token, token_is_word, t_pipe, t_bg, t_open_paren, t_semi_colon, t_newline, t_in, t_esac,
}
use tash.Parser.Tree.{Word, Redir, Assign, Node, node, cmd}
use tash.Parser.State.{word_from_token}
use tash.Parser.Command.{is_redir, redir_of, parse_assignement}
use tash.Parser.Descent.{in_background, all_args}

-- Is the token of this type?
abbrev pub Is : ℕ → Token → Type 0
Is type t = t.type ≡ type

abbrev pub Not : ℕ → Token → Type 0
Not type t = (t.type == type) ≡ false

-- What may stand between two commands of a list.
abbrev pub separates : Token → Bool
separates t = t.type == t_newline || t.type == t_semi_colon || t.type == t_bg

-- The tree of the list read so far, ended by this separator.
abbrev pub ended : Token → Node → Node
ended t n = if t.type == t_bg then in_background n else n

-- `name=value` words, from a token on, the token behind them and the tokens behind that.
pub data Assigns : Token → List Token → List Assign → Token → List Token → Type 0 where
  no_assigns : {t : Token} {ts : List Token} → parse_assignement t ≡ none → Assigns t ts [] t ts
  assign_first :
      {t u v : Token} {ts vs : List Token} {a : Assign} {set : List Assign}
      → parse_assignement t ≡ some a
      → Assigns u ts set v vs
      → Assigns t (u ∷ ts) (a ∷ set) v vs

-- Words and redirections, in any order.
pub data Args : Token → List Token → List Word → List Redir → Token → List Token → Type 0 where
  no_args :
      {t : Token} {ts : List Token}
      → token_is_word t ≡ false
      → is_redir t ≡ false
      → Args t ts [] [] t ts
  word_first :
      {t u v : Token} {ts vs : List Token} {ws : List Word} {rs : List Redir}
      → token_is_word t ≡ true
      → Args u ts ws rs v vs
      → Args t (u ∷ ts) (word_from_token t ∷ ws) rs v vs
  redir_first :
      {t d u v : Token} {ts vs : List Token} {ws : List Word} {rs : List Redir}
      → token_is_word t ≡ false
      → is_redir t ≡ true
      → token_is_word d ≡ true
      → Args u ts ws rs v vs
      → Args t (d ∷ u ∷ ts) ws (redir_of t (word_from_token d) ∷ rs) v vs

pub data Redirs : Token → List Token → List Redir → Token → List Token → Type 0 where
  no_redirs : {t : Token} {ts : List Token} → is_redir t ≡ false → Redirs t ts [] t ts
  redir_more :
      {t d u v : Token} {ts vs : List Token} {rs : List Redir}
      → is_redir t ≡ true
      → token_is_word d ≡ true
      → Redirs u ts rs v vs
      → Redirs t (d ∷ u ∷ ts) (redir_of t (word_from_token d) ∷ rs) v vs

-- A simple command, from its first token on.
pub data Simple (t : Token) (ts : List Token) : Node → List Token → Type 0 where
  simple :
      {u v : Token} {us vs : List Token} {set : List Assign} {ws : List Word} {rs : List Redir}
      → Assigns t ts set u us
      → Args u us ws rs v vs
      → Simple t ts (node (cmd ws set) rs) (v ∷ vs)

-- The words of a `for`, up to the separator.
pub data ForWords : Token → List Token → List Word → List Token → Type 0 where
  no_words :
      {t : Token} {ts : List Token}
      → token_is_word t ≡ false
      → (t.type == t_semi_colon || t.type == t_newline) ≡ true
      → ForWords t ts [] ts
  for_word :
      {t u : Token} {ts rest : List Token} {ws : List Word}
      → token_is_word t ≡ true
      → ForWords u ts ws rest
      → ForWords t (u ∷ ts) (word_from_token t ∷ ws) rest

-- What stands between the name of a `for` and `do`.
pub data ForIn : List Token → List Word → List Token → Type 0 where
  in_words :
      {t u : Token} {ts rest : List Token} {ws : List Word}
      → Is t_in t
      → ForWords u ts ws rest
      → ForIn (t ∷ u ∷ ts) ws rest
  separator :
      {t : Token} {ts : List Token}
      → Not t_in t
      → (t.type == t_semi_colon || t.type == t_newline) ≡ true
      → ForIn (t ∷ ts) (all_args ∷ []) ts
  nothing :
      {t : Token} {ts : List Token}
      → Not t_in t
      → (t.type == t_semi_colon || t.type == t_newline) ≡ false
      → ForIn (t ∷ ts) (all_args ∷ []) (t ∷ ts)

-- The patterns of a case, and the `(` that may stand before them.
pub data Patterns : Token → List Token → List Word → List Token → Type 0 where
  last_pattern :
      {t u : Token} {ts : List Token}
      → token_is_word t ≡ true
      → Not t_pipe u
      → Patterns t (u ∷ ts) (word_from_token t ∷ []) (u ∷ ts)
  one_pattern :
      {t u v : Token} {ts rest : List Token} {ws : List Word}
      → token_is_word t ≡ true
      → Is t_pipe u
      → Patterns v ts ws rest
      → Patterns t (u ∷ v ∷ ts) (word_from_token t ∷ ws) rest

pub data OpenPatterns : Token → List Token → List Word → List Token → Type 0 where
  bare :
      {t : Token} {ts rest : List Token} {ws : List Word}
      → Not t_open_paren t
      → token_is_word t ≡ true
      → Not t_esac t
      → Patterns t ts ws rest
      → OpenPatterns t ts ws rest
  opened :
      {t u : Token} {ts rest : List Token} {ws : List Word}
      → Is t_open_paren t
      → Patterns u ts ws rest
      → OpenPatterns t (u ∷ ts) ws rest
