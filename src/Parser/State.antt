-- ===== src/Parser/State.antt =====
-- The state of the parser (src/parser.c) and its smallest operations.
use tash.Base.{ℕ, zero, suc, Bool, true, ◌==◌, if◌then◌else◌}
use tash.Lexer.Source.{Source}
use tash.Lexer.Token.{Token, t_newline, token_is_word}
use tash.Lexer.Next.{Lexed, token, null, endless, next_token, unget_token}
use tash.Parser.Tree.{Word}

-- The source, and the globals `parser_error` and `prompt`.
pub record State : Type 0 where
  pub src : Source
  pub parser_error : Bool
  pub prompt : ℕ

-- A call returns a value, or NULL (or -1). `crashed` is a read through NULL; `stuck` is a call that
-- has not returned, within the fuel or at all.
pub data Outcome {ℓ} (A : Type ℓ) : Type ℓ where
  done : A → State → Outcome A
  failed : State → Outcome A
  crashed stuck : Outcome A

abbrev pub Parser {ℓ} : Type ℓ → Type ℓ
Parser A = State → Outcome A

abbrev pub pure {ℓ} : {A : Type ℓ} → A → Parser A
pure a s = done a s

abbrev pub fail {ℓ} : {A : Type ℓ} → Parser A
fail s = failed s

module _ {ℓ κ} {A : Type ℓ} {B : Type κ} where
  abbrev pub continue : (A → Parser B) → Outcome A → Outcome B
  continue k (done a s) = k a s
  continue k (failed s) = failed s
  continue k crashed = crashed
  continue k stuck = stuck

  infixl 1 ◌>>=◌ ◌>>◌
  abbrev pub ◌>>=◌ : Parser A → (A → Parser B) → Parser B
  (p >>= k) s = continue k (p s)

  abbrev pub ◌>>◌ : Parser A → Parser B → Parser B
  (p >> q) s = continue (λ _. q) (p s)

abbrev pub run {ℓ} : {A : Type ℓ} → State → Parser A → Outcome A
run s p = p s

abbrev raise : State → State
raise s = record s { parser_error = true }

-- The label `error:`: every way there sets `parser_error` and returns NULL.
abbrev pub at_error {ℓ} : {A : Type ℓ} → Outcome A → Outcome A
at_error (done a s) = done a s
at_error (failed s) = failed (raise s)
at_error crashed = crashed
at_error stuck = stuck

abbrev pub on_error {ℓ} : {A : Type ℓ} → Parser A → Parser A
on_error p s = at_error (p s)

of_lexed : State → Lexed → Outcome Token
of_lexed s (token t src) = done t (record s { src = src })
of_lexed s (null src) = failed (record s { src = src })
of_lexed s endless = stuck

-- `token = next_token(src)`, failing at NULL.
unfoldable pub next : Parser Token
unfolding of_lexed
next s = of_lexed s (next_token s.src)

unfoldable pub unget : Token → Parser (Unit {0})
unget t s = done tt (record s { src = unget_token s.src t })

unfoldable pub set_prompt : ℕ → Parser (Unit {0})
set_prompt n s = done tt (record s { prompt = n })

-- `expect_token`
unfoldable pub expect_token : ℕ → Parser (Unit {0})
expect_token type = on_error do t ← next; if t.type == type then pure tt else fail

-- `skip_newlines`, on fuel.
unfoldable pub skip_newlines : ℕ → Parser Token
skip_newlines zero s = stuck
skip_newlines (suc f) s = run s do t ← next; if t.type == t_newline then skip_newlines f else pure t

-- A word token, or a syntax error: the guard `if (!token_is_word(token)) goto error`.
unfoldable pub next_word : Parser Token
next_word = do t ← next; if token_is_word t then pure t else fail

unfoldable pub word_from_token : Token → Word
word_from_token t = record { text = t.value; quoted = t.quoted }
