-- ===== src/Parser/Buffer.antt =====
-- `parse_list_buf` of src/parser.c: a list parsed from a string, and where its text ends.
use tash.Base.{
  ℕ, ◌-◌, true, false, Option, none, some, List, ltb, if◌then◌else◌, Text, length, drop,
}
use tash.Lexer.Source.{Source, source_of}
use tash.Lexer.Token.{token_len}
use tash.Parser.Tree.{Node}
use tash.Parser.State.{Outcome, done, failed, crashed, stuck}
use tash.Parser.Descent.{parse_list}

-- `buf.ptr`, once the token put back was ungotten by hand.
unfoldable pub buffer_position : Text → Source → ℕ
unfolding token_len
buffer_position text src =
    let ptr = length text - length src.input in
    elim src.putback [
      | none ↦ ptr
      | some t ↦ if ltb ptr (token_len t) then 0 else ptr - token_len t
    ]

-- The list and the rest of the text behind it. `parser_error` is left as it is; it and `prompt`
-- are globals, which the callers here do not read.
unfoldable pub parse_list_buf : ℕ → Text → Option (List ℕ) → Outcome (Node × Text)
unfolding parse_list buffer_position
parse_list_buf f text terminators =
    elim (parse_list f true terminators
      (record { src = source_of text; parser_error = false; prompt = 1 })) [
        | done n s ↦ done (n, drop (buffer_position text s.src) text) s
        | failed s ↦ failed s
        | crashed ↦ crashed
        | stuck ↦ stuck
      ]
