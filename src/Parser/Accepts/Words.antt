-- ===== src/Parser/Accepts/Words.antt =====
-- How the parser (src/parser.c) reads the words of a `for` and the patterns of a `case`.
use tash.Base.{ℕ, zero, suc, ◌<◌, refl, List, [], ◌∷◌, ◌++◌, append_assoc, append-nil, arith}
use tash.Lexer.Token.{Token}
use tash.Parser.Tree.{Word}
use tash.Parser.State.{State, next, word_from_token}
use tash.Parser.Descent.{parse_for_words, parse_for_in, parse_patterns, after_open_paren}
use tash.Parser.Streams.{Chain, Ready, Fresh, Gives, next-Gives, unget-Gives}
use tash.Parser.Phrases.{
  ForWords, no_words, for_word, ForIn, in_words, separator, nothing, Patterns, last_pattern,
  one_pattern, OpenPatterns, bare, opened,
}

abbrev pub for_words_cost :
    {t : Token} {ts rest : List Token} {ws : List Word} → ForWords t ts ws rest → ℕ
for_words_cost (no_words _ _) = 0
for_words_cost (for_word _ d) = suc (for_words_cost d)

parse_for_words-Gives :
    {rest : List Token} {t : Token} {ts : List Token} {ws : List Word} (d : ForWords t ts ws rest)
    (f : ℕ)
    → for_words_cost d < f
    → (found : List Word) → Gives (Fresh ts) (parse_for_words f t found) (found ++ ws) (Fresh rest)
unfolding parse_for_words
parse_for_words-Gives (no_words e e') (suc f) h found s ready = record {
  after = s;
  returns = rw (e, e', append-nil found) refl;
  post = ready;
}
parse_for_words-Gives (for_word {t = t} {u = u} {ts = ts} {ws = ws} e d) (suc f) h found s ready =
    let w = word_from_token t in
    let next = next-Gives u ts s ready.1 in
    let rest =
      parse_for_words-Gives {t = u} d f (omega arith) (found ++ (w ∷ [])) next.after next.post in
    record {
      after = rest.after;
      returns = rw (e, next.returns, rest.returns, append_assoc found (w ∷ []) ws) refl;
      post = rest.post;
    }
parse_for_words-Gives _ zero h found s ready = absurd (omega arith)

abbrev pub for_in_cost : {ts rest : List Token} {ws : List Word} → ForIn ts ws rest → ℕ
for_in_cost (in_words _ d) = for_words_cost d
for_in_cost (separator _ _) = 0
for_in_cost (nothing _ _) = 0

-- The words of a `for`, with the token in front of them.
pub parse_for_in-Chain :
    {ts rest : List Token} {ws : List Word} (d : ForIn ts ws rest) (f : ℕ)
    → for_in_cost d < f
    → (s : State) → Ready ts s.src
    → Chain next (parse_for_in f) s ws (Ready rest)
unfolding parse_for_in
parse_for_in-Chain (in_words {t = t} {u = u} {ts = ts} e d) f h s ready =
    let a = next-Gives t (u ∷ ts) s ready in
    let b = next-Gives u ts a.after a.post.1 in
    let words = parse_for_words-Gives d f h [] b.after b.post in
    record {
      value = t;
      mid = a.after;
      first = a.returns;
      last = record {
        after = words.after;
        returns = rw (e, b.returns) words.returns;
        post = words.post.1;
      };
    }
parse_for_in-Chain (separator {t = t} {ts = ts} e e') f h s ready =
    let a = next-Gives t ts s ready in
    record {
      value = t;
      mid = a.after;
      first = a.returns;
      last = record { after = a.after; returns = rw (e, e') refl; post = a.post.1 };
    }
parse_for_in-Chain (nothing {t = t} {ts = ts} e e') f h s ready =
    let a = next-Gives t ts s ready in
    let b = unget-Gives t ts a.after a.post in
    record {
      value = t;
      mid = a.after;
      first = a.returns;
      last = record { after = b.after; returns = rw (e, e', b.returns) refl; post = b.post };
    }

abbrev pub patterns_cost :
    {t : Token} {ts rest : List Token} {ws : List Word} → Patterns t ts ws rest → ℕ
patterns_cost (last_pattern _ _) = 0
patterns_cost (one_pattern _ _ d) = suc (patterns_cost d)

parse_patterns-Gives :
    {rest : List Token} {t : Token} {ts : List Token} {ws : List Word} (d : Patterns t ts ws rest)
    (f : ℕ)
    → patterns_cost d < f
    → (found : List Word) → Gives (Fresh ts) (parse_patterns f t found) (found ++ ws) (Ready rest)
unfolding parse_patterns
parse_patterns-Gives (last_pattern {t = t} {u = u} {ts = ts} e e') (suc f) h found s ready =
    let next = next-Gives u ts s ready.1 in
    let last = unget-Gives u ts next.after next.post in
    record {
      after = last.after;
      returns = rw (e, next.returns, e', last.returns) refl;
      post = last.post;
    }
parse_patterns-Gives (one_pattern {t = t} {u = u} {v = v} {ts = ts} {ws = ws} e e' d) (suc f) h
      found s ready =
    let w = word_from_token t in
    let first = next-Gives u (v ∷ ts) s ready.1 in
    let second = next-Gives v ts first.after first.post.1 in
    let rest =
      parse_patterns-Gives {t = v} d f (omega arith) (found ++ (w ∷ [])) second.after second.post in
    record {
      after = rest.after;
      returns =
          rw (e, first.returns, e', second.returns, rest.returns, append_assoc found (w ∷ []) ws)
            refl;
      post = rest.post;
    }
parse_patterns-Gives _ zero h found s ready = absurd (omega arith)

abbrev pub open_patterns_cost :
    {t : Token} {ts rest : List Token} {ws : List Word} → OpenPatterns t ts ws rest → ℕ
open_patterns_cost (bare _ _ _ d) = patterns_cost d
open_patterns_cost (opened _ d) = patterns_cost d

-- The patterns of a case, from its first token on.
pub parse_patterns-Chain :
    {t : Token} {ts rest : List Token} {ws : List Word} (d : OpenPatterns t ts ws rest) (f : ℕ)
    → open_patterns_cost d < f
    → (s : State) → Fresh ts s.src
    → Chain (after_open_paren t) (λ t'. parse_patterns f t' []) s ws (Ready rest)
unfolding after_open_paren
parse_patterns-Chain (bare {t = t} e e' e'' d) f h s ready = record {
  value = t;
  mid = s;
  first = rw e refl;
  last = parse_patterns-Gives d f h [] s ready;
}
parse_patterns-Chain (opened {u = u} e d) f h s ready =
    let a = next-Gives u _ s ready.1 in
    record {
      value = u;
      mid = a.after;
      first = rw e a.returns;
      last = parse_patterns-Gives d f h [] a.after a.post;
    }
