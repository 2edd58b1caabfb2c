-- ===== src/Parser/Sound/Calls.antt =====
-- What the tokens were that a call of the parser (src/parser.c) has read: the converse of its rules
-- for sources whose tokens are known.
use tash.Base.{
  ℕ, zero, suc, ◌≡◌, refl, ap, sym, subst, Bool, true, false, not, Option, none, List, ◌∷◌, ◌==◌,
  if◌then◌else◌, ==→eq,
}
use tash.Lexer.Source.{Source}
use tash.Lexer.Token.{Token, token_is_word, t_newline}
use tash.Lexer.Next.{Lexed, token, null, endless, next_token, unget_token}
use tash.Lexer.Putback.{next_token-putback}
use tash.Parser.State.{
  State, Outcome, done, failed, crashed, stuck, Parser, continue, at_error, next, expect_token,
  skip_newlines, next_word,
}
use tash.Parser.Streams.{Ready, Newlines, at, over}
use tash.Parser.Phrases.{Is}

-- What holds of the value and the state of a call that returns.
unfoldable pub After {ℓ} : {A : Type ℓ} → Outcome A → (A → State → Type 0) → Type 0
After (done a s) Q = Q a s
After (failed s) Q = Unit
After crashed Q = Unit
After stuck Q = Unit

pub continue-After {ℓ κ} :
    {A : Type ℓ} {B : Type κ} {Q : A → State → Type 0} (R : B → State → Type 0) (k : A → Parser B)
    (r : Outcome A)
    → After r Q
    → ((a : A) (s : State) → Q a s → After (k a s) R)
    → After (continue k r) R
unfolding After
continue-After R k (done a s) h g = g a s h
continue-After R k (failed s) h g = tt
continue-After R k crashed h g = tt
continue-After R k stuck h g = tt

pub at_error-After {ℓ} :
    {A : Type ℓ} (Q : A → State → Type 0) (r : Outcome A) → After r Q → After (at_error r) Q
unfolding After
at_error-After Q (done a s) h = h
at_error-After Q (failed s) h = tt
at_error-After Q crashed h = tt
at_error-After Q stuck h = tt

pub After-map {ℓ} :
    {A : Type ℓ} {Q R : A → State → Type 0} (r : Outcome A)
    → After r Q
    → ((a : A) (s : State) → Q a s → R a s)
    → After r R
unfolding After
After-map (done a s) h g = g a s h
After-map (failed s) h g = tt
After-map crashed h g = tt
After-map stuck h g = tt

pub if-After {ℓ} :
    {A : Type ℓ} (Q : A → State → Type 0) (b : Bool) (p q : Parser A) (s : State)
    → (b ≡ true → After (p s) Q)
    → (b ≡ false → After (q s) Q)
    → After ((if b then p else q) s) Q
if-After Q true p q s f g = f refl
if-After Q false p q s f g = g refl

pub done-After {ℓ} :
    {A : Type ℓ} (Q : A → State → Type 0) (a : A) (s : State) → Q a s → After (done a s) Q
unfolding After
done-After Q a s h = h

pub failed-After {ℓ} :
    {A : Type ℓ} (Q : A → State → Type 0) (s : State) → let r : Outcome A = failed s in After r Q
unfolding After
failed-After Q s = tt

pub stuck-After {ℓ} : {A : Type ℓ} (Q : A → State → Type 0) → let r : Outcome A = stuck in After r Q
unfolding After
stuck-After Q = tt

pub crashed-After {ℓ} :
    {A : Type ℓ} (Q : A → State → Type 0) → let r : Outcome A = crashed in After r Q
unfolding After
crashed-After Q = tt

-- What it says of a value that is returned.
pub After-done {ℓ} :
    {A : Type ℓ} (Q : A → State → Type 0) (r : Outcome A) (a : A) (s : State)
    → After r Q
    → r ≡ done a s
    → Q a s
unfolding After
After-done Q r a s h e = subst (λ (o : Outcome _). After o Q) e h

pub not-true : (b : Bool) → not b ≡ true → b ≡ false
not-true true e = cc
not-true false e = refl

pub not-false : (b : Bool) → not b ≡ false → b ≡ true
not-false true e = refl
not-false false e = cc

pub test-Is : (k : ℕ) (t : Token) → (t.type == k) ≡ true → Is k t
test-Is k t e = ==→eq t.type k e

-- Tokens that the source of a state was about to give, at least one, with this property.
pub record Before (s : State) (P : List Token → Type 0) : Type 0 where
  pub first : Token
  pub tokens : List Token
  pub ready : Ready (first ∷ tokens) s.src
  pub derives : P (first ∷ tokens)

-- A token was read: it stood in front of all that the source now gives.
pub record Took (s : State) (t : Token) (s' : State) : Type 0 where
  pub clean : s'.src.putback ≡ none
  pub back : (k : List Token) → Ready k s'.src → Ready (t ∷ k) s.src

pub Before-map :
    {s : State} {P Q : List Token → Type 0}
    → Before s P
    → ((ts : List Token) → P ts → Q ts)
    → Before s Q
Before-map b f = record {
  first = b.first;
  tokens = b.tokens;
  ready = b.ready;
  derives = f _ b.derives;
}

pub Took-Before :
    {s s' : State} {t : Token} {P Q : List Token → Type 0}
    → Took s t s'
    → Before s' P
    → ((ts : List Token) → P ts → Q (t ∷ ts))
    → Before s Q
Took-Before {t = t} took b f = record {
  first = t;
  tokens = b.first ∷ b.tokens;
  ready = took.back (b.first ∷ b.tokens) b.ready;
  derives = f _ b.derives;
}

pub next-After : (s : State) → After (next s) (Took s)
unfolding next After
next-After s = split (next_token s.src) refl
  where
    split :
        (r : Lexed)
        → next_token s.src ≡ r
        → After
            (elim r [
              | token t src ↦ done t (record s { src = src })
              | null src ↦ failed (record s { src = src })
              | endless ↦ stuck
            ])
            (Took s)
    split (token t src) e = record {
      clean = next_token-putback s.src src t e;
      back = λ k ready. (src, e, next_token-putback s.src src t e, ready);
    }
    split (null src) e = tt
    split endless e = tt

-- The state behind `unget`.
abbrev pub ungot : Token → State → State
ungot t s = record s { src = unget_token s.src t }

abbrev head_of : Lexed → Token → Token
head_of (token t src) u = t
head_of _ u = u

-- Where `t` is put back, it is the next token, and the others follow.
pub ungot-Ready :
    (t : Token) (s : State) (u : Token) (k : List Token)
    → s.src.putback ≡ none
    → Ready (u ∷ k) (ungot t s).src
    → (t ≡ u) × Ready k s.src
unfolding next_token unget_token
ungot-Ready t s u k clean (src, e, _, rest) = (
  ap (λ (r : Lexed). head_of r t) e,
  subst (λ (o : Option Token). Ready k (record s.src { putback = o })) (sym clean)
      (subst (Ready k) (sym (ap (λ (r : Lexed). source_in r src) e)) rest),
)
  where
    source_in : Lexed → Source → Source
    source_in (token t src) v = src
    source_in _ v = v

-- What is put back was the next token of what was read before it.
pub ungot-Before :
    (P : List Token → List Token → Type 0) (t : Token) (s s' : State)
    → s'.src.putback ≡ none
    → ((k : List Token) → Ready k s'.src → Before s (λ ts. P ts (t ∷ k)))
    → (u : Token) (k : List Token) → Ready (u ∷ k) (ungot t s').src
    → Before s (λ ts. P ts (u ∷ k))
ungot-Before P t s s' clean h u k ready =
    let (e, rest) = ungot-Ready t s' u k clean ready in
    subst (λ (v : Token). Before s (λ ts. P ts (v ∷ k))) e (h k rest)

-- A token of this type was read.
pub record TookType (s : State) (type : ℕ) (s' : State) : Type 0 where
  pub clean : s'.src.putback ≡ none
  pub back : (k : List Token) → Ready k s'.src → (t : Token) × Is type t × Ready (t ∷ k) s.src

pub expect_token-After :
    (type : ℕ) (s : State) → After (expect_token type s) (λ _ s'. TookType s type s')
unfolding expect_token
expect_token-After type s = at_error-After _ _ (
    continue-After _ _ (next s) (next-After s) (λ t s1 took.
      if-After _ (t.type == type) _ _ s1
        (λ e. done-After _ _ s1 (record {
          clean = took.clean;
          back = λ k ready. (t, test-Is type t e, took.back k ready);
        }))
        (λ _. failed-After _ s1)))

-- A word was read.
pub record TookWord (s : State) (t : Token) (s' : State) : Type 0 where
  pub took : Took s t s'
  pub is_word : token_is_word t ≡ true

pub next_word-After : (s : State) → After (next_word s) (TookWord s)
unfolding next_word
next_word-After s = continue-After _ _ (next s) (next-After s) (λ t s1 took.
    if-After _ (token_is_word t) _ _ s1
      (λ e. done-After _ t s1 (record { took = took; is_word = e })) (λ _. failed-After _ s1))

-- Newlines and a token behind them were read.
pub record TookLines (s : State) (t : Token) (s' : State) : Type 0 where
  pub clean : s'.src.putback ≡ none
  pub back : (k : List Token) → Ready k s'.src → Before s (λ ts. Newlines ts t k)

pub skip_newlines-After : (f : ℕ) (s : State) → After (skip_newlines f s) (TookLines s)
unfolding skip_newlines
skip_newlines-After zero s = stuck-After _
skip_newlines-After (suc f) s = continue-After _ _ (next s) (next-After s) (λ t s1 took.
    if-After _ (t.type == t_newline) _ _ s1
      (λ e. After-map _ (skip_newlines-After f s1) (λ u s2 lines. record {
        clean = lines.clean;
        back = λ k ready.
            let b = lines.back k ready in
            record {
              first = t;
              tokens = b.first ∷ b.tokens;
              ready = took.back (b.first ∷ b.tokens) b.ready;
              derives = over (test-Is t_newline t e) b.derives;
            };
      }))
      (λ e. done-After _ t s1 (record {
        clean = took.clean;
        back =
            λ k ready. record { first = t; tokens = k; ready = took.back k ready; derives = at e };
      })))
