-- ===== src/Parser/Tree.antt =====
-- The syntax tree of include/tash.h.
use tash.Base.{ℕ, Bool, List, Text}

-- struct word; `quoted` is WORD_HAS_QUOTE.
pub record Word : Type 0 where
  pub text : Text
  pub quoted : Bool

-- struct redir; the three bits of its type are REDIR_IN, REDIR_APPEND and REDIR_DUP.
pub record Redir : Type 0 where
  pub fd : ℕ
  pub input : Bool
  pub append : Bool
  pub dup : Bool
  pub dest : Word

-- struct assign
pub record Assign : Type 0 where
  pub value : Word
  pub var : Text

-- struct node: `missing` is the NULL pointer, `node` what the type and the union say with the
-- redirections. The cases of a `case` are an array of case_t.
mutual
  pub data Node : Type 0 where
    missing : Node
    node : Content → List Redir → Node

  pub data Content : Type 0 where
    cmd : List Word → List Assign → Content
    pipe or_else and_then sep : Node → Node → Content
    negate bg subshell group : Node → Content
    if_else : Node → Node → Node → Content
    while until : Node → Node → Content
    for_in : Node → List Word → Word → Content
    case : Word → Cases → Content
    func : Text → Node → Content

  pub data Cases : Type 0 where
    no_cases : Cases
    one_case : List Word → Node → Cases → Cases

-- new_node(type), filled in; the redirections are none.
abbrev pub new_node : Content → Node
new_node c = node c List.[]
