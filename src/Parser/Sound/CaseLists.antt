-- ===== src/Parser/Sound/CaseLists.antt =====
-- What the tokens were that the parser (src/parser.c) has read as the cases of a `case`, where the
-- lists in them were lists.
use tash.Base.{
  ℕ, suc, ◌≡◌, refl, subst, ◌⊎◌, inl, inr, Bool, true, false, not, ◌&&◌, ◌||◌, List, [], ◌∷◌, ◌==◌,
}
use tash.Lexer.Token.{Token, token_is_word, t_close_paren, t_open_paren, t_dsemi, t_esac}
use tash.Parser.Tree.{Word, Node, missing, no_cases, one_case}
use tash.Parser.State.{State, unget, next}
use tash.Parser.Descent.{parse_list, case_loop, case_body, ends_cases, after_open_paren}
use tash.Parser.Streams.{Ready, Newlines}
use tash.Parser.Phrases.{Is, OpenPatterns, bare, opened, Patterns}
use tash.Parser.Grammar.{Block, CaseList, empty, last_case, next_case, CaseBody, no_body, body}
use tash.Parser.Sound.Calls.{
  TookLines, TookType, Before, Before-map, After, continue-After, After-map, if-After, done-After,
  test-Is, not-true, not-false, next-After, expect_token-After, skip_newlines-After, ungot,
  ungot-Before,
}
use tash.Parser.Sound.Words.{TookPatterns, parse_patterns-After}
use tash.Parser.Sound.Bodies.{Parsed, reread, Lists}

-- What the tests of the first token of a case say.
ends_cases-ends :
    (p w e : Bool) → (not p && (not w || e)) ≡ true → (p ≡ false) × ((w ≡ false) ⊎ (e ≡ true))
ends_cases-ends false false e h = (refl, inl refl)
ends_cases-ends false true true h = (refl, inr refl)
ends_cases-ends false true false h = cc
ends_cases-ends true w e h = cc

starts_case : (w e : Bool) → (not w || e) ≡ false → (w ≡ true) × (e ≡ false)
starts_case true false h = (refl, refl)
starts_case true true h = cc
starts_case false e h = cc

no_body-tests : (d e : Bool) → (not d && not e) ≡ false → (d ≡ true) ⊎ (e ≡ true)
no_body-tests true e h = inl refl
no_body-tests false true h = inr refl
no_body-tests false false h = cc

body-tests : (d e : Bool) → (not d && not e) ≡ true → (d ≡ false) × (e ≡ false)
body-tests false false h = (refl, refl)
body-tests false true h = cc
body-tests true e h = cc

-- The `(` in front of the patterns was read, if there is one, with the first token `t` in hand.
record Starts (t : Token) (s : State) (t' : Token) (s' : State) : Type 0 where
  back :
      (ws : List Word) (ts rest : List Token)
      → Ready ts s'.src
      → Patterns t' ts ws rest
      → (us : List Token) × Ready us s.src × OpenPatterns t us ws rest

after_open_paren-After :
    (t : Token) (s : State) → ends_cases t ≡ false → After (after_open_paren t s) (Starts t s)
unfolding after_open_paren
after_open_paren-After t s e =
    if-After _ (t.type == t_open_paren) _ _ s
      (λ ep. After-map _ (next-After s) (λ t' s' took. record {
        back = λ ws ts rest ready d.
            (t' ∷ ts, took.back ts ready, opened (test-Is t_open_paren t ep) d);
      }))
      (λ ep.
        let no_end =
          subst (λ (b : Bool). (not b && (not (token_is_word t) || t.type == t_esac)) ≡ false) ep
            e in
        let (ew, ee) = starts_case (token_is_word t) (t.type == t_esac) no_end in
        done-After _ t s (record { back = λ ws ts rest ready d. (ts, ready, bare ep ew ee d) }))

module _ (f : ℕ) (lists : Lists f) where
  pub case_body-After : (s : State) → After (case_body (suc f) s) (Parsed CaseBody s)
  unfolding parse_list unget
  case_body-After s = continue-After _ _ _ (skip_newlines-After f s) (λ t s1 lines.
      if-After _ (not (t.type == t_dsemi) && not (t.type == t_esac)) _ _ (ungot t s1)
        (λ e. After-map _ (lists (t_esac ∷ t_dsemi ∷ []) (ungot t s1)) (λ n s2 hn. record {
          back = λ v k ready.
              let (ed, ee) = body-tests _ _ e in
              let b = hn.back v k ready in
              let (us, ready', d) =
                reread (λ ts. Block (t_esac ∷ t_dsemi ∷ []) ts n (v ∷ k)) t s1 lines.clean b in
              let bl = lines.back us ready' in Before-map bl (λ ts d1. body d1 ed ee d);
        }))
        (λ e. done-After _ _ _ (record {
          back =
              ungot-Before (λ ts us. CaseBody ts missing us) t s s1 lines.clean
                (λ k ready.
                  let bl = lines.back k ready in
                  let tests : Is t_dsemi t ⊎ Is t_esac t =
                    elim (no_body-tests (t.type == t_dsemi) (t.type == t_esac) e) [
                      | inl d ↦ inl (test-Is t_dsemi t d)
                      | inr d ↦ inr (test-Is t_esac t d)
                    ] in
                  Before-map bl (λ ts d1. no_body d1 tests));
        })))

-- One case, up to what follows its body.
record OneCase (ts : List Token) (ws : List Word) (n : Node) (rest : List Token) : Type 0 where
  token : Token
  close : Token
  behind : List Token
  inside : List Token
  newlines : Newlines ts token behind
  patterns : OpenPatterns token behind ws (close ∷ inside)
  is_close : Is t_close_paren close
  content : CaseBody inside n rest

-- No case was read: the first token ends them.
no_case-Parsed :
    (t : Token) (s s1 : State)
    → TookLines s t s1
    → ends_cases t ≡ true
    → Parsed CaseList s no_cases (ungot t s1)
no_case-Parsed t s s1 lines e = record {
  back =
      ungot-Before (λ ts us. CaseList ts no_cases us) t s s1 lines.clean
        (λ k ready.
          let (ep, ew) =
            ends_cases-ends (t.type == t_open_paren) (token_is_word t) (t.type == t_esac) e in
          let tests : (token_is_word t ≡ false) ⊎ Is t_esac t = elim ew [
            | inl d ↦ inl d
            | inr d ↦ inr (test-Is t_esac t d)
          ] in
          Before-map (lines.back k ready) (λ ts d. empty d ep tests));
}

-- The parts of a case were read one behind the other.
OneCase-Before :
    (t t' : Token) (ws : List Word) (n : Node) (s s1 s2 s3 s4 s5 : State)
    → TookLines s t s1
    → Starts t s1 t' s2
    → TookPatterns t' [] s2 ws s3
    → TookType s3 t_close_paren s4
    → Parsed CaseBody s4 n s5
    → (v : Token) (k : List Token) → Ready (v ∷ k) s5.src
    → Before s (λ ts. OneCase ts ws n (v ∷ k))
OneCase-Before t t' ws n s s1 s2 s3 s4 s5 lines starts hw hc hn v k ready =
    let bn = hn.back v k ready in
    let (p, ep, r3) = hc.back (bn.first ∷ bn.tokens) bn.ready in
    let (found, ts, ew, r2, dw) = hw.back p (bn.first ∷ bn.tokens) r3 in
    let (us, r1, d) = starts.back found ts (p ∷ bn.first ∷ bn.tokens) r2 dw in
    Before-map (lines.back us r1) (λ ts newlines. record {
      token = t;
      close = p;
      behind = us;
      inside = bn.first ∷ bn.tokens;
      newlines = newlines;
      patterns = rw ew d;
      is_close = ep;
      content = bn.derives;
    })

-- Behind the patterns of a case: `)`, the body, and more cases where `;;` follows.
module _ (f : ℕ) (bodies : (s : State) → After (case_body f s) (Parsed CaseBody s))
    (cases : (s : State) → After (case_loop f s) (Parsed CaseList s)) where
  pub case_loop-After : (s : State) → After (case_loop (suc f) s) (Parsed CaseList s)
  unfolding parse_list unget
  case_loop-After s = continue-After _ _ _ (skip_newlines-After f s) (λ t s1 lines.
      if-After _ (ends_cases t) _ _ s1 (λ e. done-After _ _ _ (no_case-Parsed t s s1 lines e))
        (λ e. continue-After _ _ _ (after_open_paren-After t s1 e) (λ t' s2 starts.
          continue-After _ _ _ (parse_patterns-After f t' [] s2) (λ ws s3 hw.
            continue-After _ _ _ (expect_token-After t_close_paren s3) (λ _ s4 hc.
              continue-After _ _ (case_body f s4) (bodies s4) (λ n s5 hn.
                continue-After _ _ (next s5) (next-After s5) (λ v s6 hv.
                  let one = OneCase-Before t t' ws n s s1 s2 s3 s4 s5 lines starts hw hc hn v in
                  if-After _ (not (v.type == t_dsemi)) _ _ s6
                    (λ ev. done-After _ _ _ (record {
                      back =
                          ungot-Before (λ ts us. CaseList ts (one_case ws n no_cases) us) v s s6
                            hv.clean
                            (λ k ready. Before-map (one k (hv.back k ready)) (λ ts c.
                              last_case c.newlines c.patterns c.is_close c.content
                                (not-true _ ev)));
                    }))
                    (λ ev. continue-After _ _ (case_loop f s6) (cases s6) (λ cs s7 hs.
                      done-After _ _ s7 (record {
                        back = λ w k ready.
                            let bs = hs.back w k ready in
                            let us = bs.first ∷ bs.tokens in
                            Before-map (one us (hv.back us bs.ready)) (λ ts c.
                              next_case c.newlines c.patterns c.is_close c.content
                                (test-Is t_dsemi v (not-false _ ev)) bs.derives);
                      }))))))))))
