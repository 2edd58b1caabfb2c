-- ===== src/Parser/SoundLines.antt =====
-- What `parse_line` (src/parser.c) has read when it returns.
use tash.Base.{
  ℕ, zero, suc, ◌≡◌, refl, ap, sym, subst, ◌⊎◌, inl, inr, false, not, none, List, [], ◌∷◌, ◌==◌,
  if◌then◌else◌, if_intro,
}
use tash.Lexer.Token.{Token, t_eof}
use tash.Lexer.Next.{next_token, unget_token}
use tash.Parser.Tree.{Node}
use tash.Parser.State.{
  State, Outcome, done, failed, crashed, stuck, continue, next, unget, skip_newlines,
}
use tash.Parser.Descent.{parse_list, list_loop, parse_logic_list, parse_line}
use tash.Parser.Streams.{Ready, Newlines}
use tash.Parser.Phrases.{separates}
use tash.Parser.Grammar.{Logic, Line, at_end, unended, a_line}
use tash.Parser.Sound.Calls.{
  After, continue-After, at_error-After, if-After, done-After, stuck-After, crashed-After,
  After-done, test-Is, not-true, not-false, Took, next-After, TookLines, skip_newlines-After,
  Before, ungot, ungot-Ready,
}
use tash.Parser.Sound.Bodies.{Parsed, reread}
use tash.Parser.Sound.{Logic-parse_logic_list}

-- A line was read. Of what is left `k` are the first tokens, or `k` is empty.
record TookLine (s : State) (n : Node) (s' : State) : Type 0 where
  back :
      (k : List Token)
      → Ready k s'.src
      → (ts : List Token) × (rest : List Token) × Ready ts s.src
        × Line ts n rest
        × Ready rest s'.src
        × ((k ≡ []) ⊎ (k ≡ rest))

ungot-Ready_one : (t : Token) (s : State) → Ready (t ∷ []) (ungot t s).src
unfolding next_token unget_token
ungot-Ready_one t s = (record s.src { putback = none }, refl, refl, tt)

-- Behind a logic list `n`: the token behind it ends the line, or is put back.
module _ (t : Token) (s s1 : State) (lines : TookLines s t s1) (e : (t.type == t_eof) ≡ false)
    (n : Node) (s2 : State) (hn : Parsed Logic (ungot t s1) n s2) where
  from_Logic :
      (u : Token) (k : List Token)
      → Ready (u ∷ k) s2.src
      → (us : List Token) × Before s (λ ts. Newlines ts t us) × Logic (t ∷ us) n (u ∷ k)
  from_Logic u k ready =
      let (us, rest, d) = reread (λ ts. Logic ts n (u ∷ k)) t s1 lines.clean (hn.back u k ready) in
      (us, lines.back us rest, d)

  ending-After : (f : ℕ) → After (list_loop f false none n s2) (TookLine s)
  unfolding parse_list unget
  ending-After zero = stuck-After _
  ending-After (suc f) = at_error-After _ _ (
      continue-After _ _ (next s2) (next-After s2) (λ u s3 took.
        if-After _ (not (separates u)) _ _ s3
          (λ eu. done-After _ _ _ (record { back = put_back u s3 took (not-true _ eu) }))
          (λ eu. done-After _ _ s3 (record {
            back = λ k ready.
                let (us, b, d) = from_Logic u k (took.back k ready) in
                (
                  b.first ∷ b.tokens,
                  k,
                  b.ready,
                  a_line b.derives e d (not-false _ eu),
                  ready,
                  inr refl,
                );
          }))))
    where
      put_back :
          (u : Token) (s3 : State)
          → Took s2 u s3
          → separates u ≡ false
          → (k : List Token) → Ready k (ungot u s3).src
          → (ts : List Token) × (rest : List Token) × Ready ts s.src
            × Line ts n rest
            × Ready rest (ungot u s3).src
            × ((k ≡ []) ⊎ (k ≡ rest))
      put_back u s3 took eu [] ready =
          let (us, b, d) = from_Logic u [] (took.back [] tt) in
          (
            b.first ∷ b.tokens,
            u ∷ [],
            b.ready,
            unended b.derives e d eu,
            ungot-Ready_one u s3,
            inl refl,
          )
      put_back u s3 took eu (v ∷ k) ready =
          let (ev, rest) = ungot-Ready u s3 v k took.clean ready in
          let (us, b, d) = from_Logic u k (took.back k rest) in
          (
            b.first ∷ b.tokens,
            u ∷ k,
            b.ready,
            unended b.derives e d eu,
            subst (λ (w : Token). Ready (w ∷ k) (ungot u s3).src) (sym ev) ready,
            inr (ap (λ (w : Token). w ∷ k) (sym ev)),
          )

line-After :
    (f : ℕ) (t : Token) (s s1 : State)
    → TookLines s t s1
    → (t.type == t_eof) ≡ false
    → After (parse_list f false none (ungot t s1)) (TookLine s)
unfolding parse_list
line-After zero t s s1 lines e = stuck-After _
line-After (suc f) t s s1 lines e =
    continue-After _ _ (parse_logic_list f (ungot t s1)) (Logic-parse_logic_list f (ungot t s1))
      (λ n s2 hn. ending-After t s s1 lines e n s2 hn f)

parse_line-After : (f : ℕ) (s : State) → After (parse_line f s) (TookLine s)
unfolding parse_line unget
parse_line-After f s = split (skip_newlines f s) (skip_newlines-After f s)
  where
    split :
        (r : Outcome Token)
        → After r (TookLines s)
        → After
            (elim r [
              | done t s' ↦
                  if t.type == t_eof
                  then done Node.missing s'
                  else continue (λ _. parse_list f false none) (unget t s')
              | failed s' ↦ crashed
              | crashed ↦ crashed
              | stuck ↦ stuck
            ])
            (TookLine s)
    split (failed s') h = crashed-After _
    split crashed h = crashed-After _
    split stuck h = stuck-After _
    split (done t s1) h =
        let lines = After-done _ (done t s1) t s1 h refl in
        if_intro (λ (o : Outcome Node). After o (TookLine s)) (t.type == t_eof) _ _
          (λ e. done-After _ _ s1 (record {
            back = λ k ready.
                let b = lines.back k ready in
                (
                  b.first ∷ b.tokens,
                  k,
                  b.ready,
                  at_end b.derives (test-Is t_eof t e),
                  ready,
                  inr refl,
                );
          }))
          (λ e. line-After f t s s1 lines e)

-- Where `parse_line` returns a tree, with whatever fuel and from whatever state, the source gave it
-- the tokens of a line of the grammar that has this tree, in front of some that it gives then; and
-- where `k` are tokens that it gives then, at least one, the line stands in front of `k`.
pub Line-parse_line :
    (f : ℕ) (s after : State) (n : Node) (k : List Token)
    → parse_line f s ≡ done n after
    → Ready k after.src
    → (ts : List Token) × (rest : List Token) × Ready ts s.src
      × Line ts n rest
      × Ready rest after.src
      × ((k ≡ []) ⊎ (k ≡ rest))
Line-parse_line f s after n k e ready =
    let h = After-done _ (parse_line f s) n after (parse_line-After f s) e in h.back k ready
