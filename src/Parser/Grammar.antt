-- ===== src/Parser/Grammar.antt =====
-- A grammar of the commands of the shell, with the trees that the parser (src/parser.c) makes of
-- them. `Command ts n rest` says that `ts` is a command, with the tree `n`, in front of `rest`; so do
-- the other families of what they are named for. Where the parser looks at a token behind a phrase,
-- so does its rule.
use tash.Base.{ℕ, ◌≡◌, true, false, List, [], ◌∷◌, ◌⊎◌}
use tash.Lexer.Token.{
  Token, token_is_word, t_word, t_and, t_or, t_eof, t_dsemi, t_pipe, t_open_paren, t_close_paren,
  t_if, t_then, t_else, t_elif, t_fi, t_for, t_in, t_do, t_done, t_while, t_until, t_case, t_esac,
  t_open_braces, t_close_braces, t_bang,
}
use tash.Parser.Tree.{
  Word, Redir, Node, missing, node, Content, pipe, or_else, and_then, sep, negate, subshell, group,
  if_else, while, until, for_in, case, func, Cases, no_cases, one_case, new_node,
}
use tash.Parser.State.{word_from_token}
use tash.Parser.Command.{is_redir, is_valid_name}
use tash.Parser.Descent.{mem_type, starts_compound}
use tash.Parser.Streams.{Newlines}
use tash.Parser.Phrases.{Is, Not, separates, ended, Redirs, Simple, ForIn, OpenPatterns}

mutual
  -- A list that ends in front of one of these tokens.
  pub data Block : List ℕ → List Token → Node → List Token → Type 0 where
    block :
        {types : List ℕ} {ts us rest : List Token} {n m : Node}
        → Logic ts n us
        → Items types n us m rest
        → Block types ts m rest

  -- The rest of a list, behind the tree of what was read.
  pub data Items : List ℕ → Node → List Token → Node → List Token → Type 0 where
    unseparated :
        {types : List ℕ} {n : Node} {t : Token} {ts : List Token}
        → separates t ≡ false
        → Items types n (t ∷ ts) n (t ∷ ts)
    terminated :
        {types : List ℕ} {n : Node} {t u : Token} {ts us : List Token}
        → separates t ≡ true
        → Newlines ts u us
        → mem_type u.type types ≡ true
        → Items types n (t ∷ ts) (ended t n) (u ∷ us)
    item :
        {types : List ℕ} {n m c : Node} {t u : Token} {ts us vs rest : List Token}
        → separates t ≡ true
        → Newlines ts u us
        → mem_type u.type types ≡ false
        → Logic (u ∷ us) c vs
        → Items types (new_node (sep (ended t n) c)) vs m rest
        → Items types n (t ∷ ts) m rest

  pub data Logic : List Token → Node → List Token → Type 0 where
    logic :
        {ts us rest : List Token} {n m : Node}
        → Pipeline ts n us
        → LogicRest n us m rest
        → Logic ts m rest

  pub data LogicRest : Node → List Token → Node → List Token → Type 0 where
    no_logic :
        {n : Node} {t : Token} {ts : List Token}
        → Not t_and t
        → Not t_or t
        → LogicRest n (t ∷ ts) n (t ∷ ts)
    both :
        {n m c : Node} {t : Token} {ts us rest : List Token}
        → Is t_and t
        → Pipeline ts c us
        → LogicRest (new_node (and_then n c)) us m rest
        → LogicRest n (t ∷ ts) m rest
    either :
        {n m c : Node} {t : Token} {ts us rest : List Token}
        → Is t_or t
        → Pipeline ts c us
        → LogicRest (new_node (or_else n c)) us m rest
        → LogicRest n (t ∷ ts) m rest

  pub data Pipeline : List Token → Node → List Token → Type 0 where
    negated :
        {t : Token} {ts rest : List Token} {n : Node}
        → Is t_bang t
        → Piped ts n rest
        → Pipeline (t ∷ ts) (new_node (negate n)) rest
    plain :
        {t : Token} {ts rest : List Token} {n : Node}
        → Not t_bang t
        → Piped (t ∷ ts) n rest
        → Pipeline (t ∷ ts) n rest

  pub data Piped : List Token → Node → List Token → Type 0 where
    unpiped :
        {t : Token} {ts us : List Token} {n : Node}
        → Command ts n (t ∷ us)
        → Not t_pipe t
        → Piped ts n (t ∷ us)
    piped :
        {t : Token} {ts us rest : List Token} {n m : Node}
        → Command ts n (t ∷ us)
        → Is t_pipe t
        → Piped us m rest
        → Piped ts (new_node (pipe n m)) rest

  pub data Command : List Token → Node → List Token → Type 0 where
    words :
        {t u : Token} {ts us rest : List Token} {n : Node}
        → Newlines ts t (u ∷ us)
        → Is t_word t
        → Not t_open_paren u
        → Simple t (u ∷ us) n rest
        → Command ts n rest
    redirected :
        {t : Token} {ts us rest : List Token} {n : Node}
        → Newlines ts t us
        → starts_compound t ≡ false
        → Not t_word t
        → is_redir t ≡ true
        → Simple t us n rest
        → Command ts n rest
    definition :
        {t u v : Token} {ts us rest : List Token} {n : Node}
        → Newlines ts t (u ∷ v ∷ us)
        → Is t_word t
        → is_valid_name t ≡ true
        → Is t_open_paren u
        → Is t_close_paren v
        → Compound us n rest
        → Command ts (new_node (func t.value n)) rest
    compound :
        {t : Token} {ts us rest : List Token} {n : Node}
        → Newlines ts t us
        → starts_compound t ≡ true
        → Compound (t ∷ us) n rest
        → Command ts n rest

  pub data Compound : List Token → Node → List Token → Type 0 where
    redirect :
        {t u v : Token} {ts us vs ws : List Token} {c : Content} {rs : List Redir}
        → Newlines ts t us
        → Body t us c (u ∷ vs)
        → Redirs u vs rs v ws
        → Compound ts (node c rs) (v ∷ ws)

  -- What follows the first word of a compound command, up to its last.
  pub data Body : Token → List Token → Content → List Token → Type 0 where
    if_then :
        {t u v : Token} {ts us vs rest : List Token} {condition body else_body : Node}
        → Is t_if t
        → Block (t_then ∷ []) ts condition (u ∷ us)
        → Is t_then u
        → Block (t_elif ∷ t_else ∷ t_fi ∷ []) us body vs
        → Else vs else_body (v ∷ rest)
        → Is t_fi v
        → Body t ts (if_else condition body else_body) rest
    while_do :
        {t u v : Token} {ts us rest : List Token} {condition body : Node}
        → Is t_while t
        → Block (t_do ∷ []) ts condition (u ∷ us)
        → Is t_do u
        → Block (t_done ∷ []) us body (v ∷ rest)
        → Is t_done v
        → Body t ts (while condition body) rest
    until_do :
        {t u v : Token} {ts us rest : List Token} {condition body : Node}
        → Is t_until t
        → Block (t_do ∷ []) ts condition (u ∷ us)
        → Is t_do u
        → Block (t_done ∷ []) us body (v ∷ rest)
        → Is t_done v
        → Body t ts (until condition body) rest
    for_do :
        {t name u v : Token} {ts us rest : List Token} {ws : List Word} {body : Node}
        → Is t_for t
        → token_is_word name ≡ true
        → ForIn ts ws (u ∷ us)
        → Is t_do u
        → Block (t_done ∷ []) us body (v ∷ rest)
        → Is t_done v
        → Body t (name ∷ ts) (for_in body ws (word_from_token name)) rest
    case_in :
        {t word u v : Token} {ts rest : List Token} {cs : Cases}
        → Is t_case t
        → token_is_word word ≡ true
        → Is t_in u
        → CaseList ts cs (v ∷ rest)
        → Is t_esac v
        → Body t (word ∷ u ∷ ts) (case (word_from_token word) cs) rest
    parentheses :
        {t u : Token} {ts us rest : List Token} {n : Node}
        → Is t_open_paren t
        → Block (t_close_paren ∷ []) ts n us
        → Newlines us u rest
        → Is t_close_paren u
        → Body t ts (subshell n) rest
    braces :
        {t u : Token} {ts rest : List Token} {n : Node}
        → Is t_open_braces t
        → Block (t_close_braces ∷ []) ts n (u ∷ rest)
        → Is t_close_braces u
        → Body t ts (group n) rest

  pub data Else : List Token → Node → List Token → Type 0 where
    no_else :
        {t : Token} {ts : List Token} → Not t_elif t → Not t_else t → Else (t ∷ ts) missing (t ∷ ts)
    else_do :
        {t : Token} {ts rest : List Token} {n : Node}
        → Is t_else t
        → Block (t_fi ∷ []) ts n rest
        → Else (t ∷ ts) n rest
    elif_then :
        {t u : Token} {ts us vs rest : List Token} {condition body else_body : Node}
        → Is t_elif t
        → Block (t_then ∷ []) ts condition (u ∷ us)
        → Is t_then u
        → Block (t_elif ∷ t_else ∷ t_fi ∷ []) us body vs
        → Else vs else_body rest
        → Else (t ∷ ts) (new_node (if_else condition body else_body)) rest

  -- The cases of a `case`; only the last may be without its `;;`.
  pub data CaseList : List Token → Cases → List Token → Type 0 where
    empty :
        {t : Token} {ts us : List Token}
        → Newlines ts t us
        → Not t_open_paren t
        → (token_is_word t ≡ false) ⊎ Is t_esac t
        → CaseList ts no_cases (t ∷ us)
    last_case :
        {t p v : Token} {ts us vs ws : List Token} {patterns : List Word} {n : Node}
        → Newlines ts t us
        → OpenPatterns t us patterns (p ∷ vs)
        → Is t_close_paren p
        → CaseBody vs n (v ∷ ws)
        → Not t_dsemi v
        → CaseList ts (one_case patterns n no_cases) (v ∷ ws)
    next_case :
        {t p v : Token} {ts us vs ws rest : List Token} {patterns : List Word} {n : Node}
        {cs : Cases}
        → Newlines ts t us
        → OpenPatterns t us patterns (p ∷ vs)
        → Is t_close_paren p
        → CaseBody vs n (v ∷ ws)
        → Is t_dsemi v
        → CaseList ws cs rest
        → CaseList ts (one_case patterns n cs) rest

  pub data CaseBody : List Token → Node → List Token → Type 0 where
    no_body :
        {t : Token} {ts us : List Token}
        → Newlines ts t us
        → Is t_dsemi t ⊎ Is t_esac t
        → CaseBody ts missing (t ∷ us)
    body :
        {t : Token} {ts us rest : List Token} {n : Node}
        → Newlines ts t us
        → Not t_dsemi t
        → Not t_esac t
        → Block (t_esac ∷ t_dsemi ∷ []) (t ∷ us) n rest
        → CaseBody ts n rest

-- What `parse_line` reads: the end of the input, or one line of commands.
pub data Line : List Token → Node → List Token → Type 0 where
  at_end : {t : Token} {ts us : List Token} → Newlines ts t us → Is t_eof t → Line ts missing us
  unended :
      {t u : Token} {ts us vs : List Token} {n : Node}
      → Newlines ts t us
      → Not t_eof t
      → Logic (t ∷ us) n (u ∷ vs)
      → separates u ≡ false
      → Line ts n (u ∷ vs)
  a_line :
      {t u : Token} {ts us vs : List Token} {n : Node}
      → Newlines ts t us
      → Not t_eof t
      → Logic (t ∷ us) n (u ∷ vs)
      → separates u ≡ true
      → Line ts (ended u n) vs
