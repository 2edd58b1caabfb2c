-- ===== src/Parser/Streams.antt =====
-- Sources by the tokens that they are about to give, and the calls of the parser (src/parser.c) on
-- them.
use tash.Base.{
  ℕ, zero, suc, ◌<◌, ◌≡◌, refl, subst, true, false, Option, none, some, List, [], ◌∷◌, ◌==◌,
  ==_refl, arith,
}
use tash.Lexer.Source.{Source}
use tash.Lexer.Token.{Token, t_newline, token_is_word}
use tash.Lexer.Next.{token, next_token, unget_token}
use tash.Parser.State.{
  State, Outcome, done, Parser, next, unget, set_prompt, expect_token, skip_newlines, next_word,
}

-- The next calls of `next_token` give these tokens, and none is put back behind the first.
abbrev pub Ready : List Token → Source → Type 0
Ready [] src = Unit
Ready (t ∷ ts) src =
    (src' : Source) × (next_token src ≡ token t src') × (src'.putback ≡ none) × Ready ts src'

-- No token is put back either.
abbrev pub Fresh : List Token → Source → Type 0
Fresh ts src = (src.putback ≡ none) × Ready ts src

-- How a call ends that returns this value.
pub record Ends {ℓ} {A : Type ℓ} (r : Outcome A) (a : A) (Post : Source → Type 0) : Type ℓ where
  pub after : State
  pub returns : r ≡ done a after
  pub post : Post after.src

-- From every source with `Pre`, the parser returns this value and leaves a source with `Post`.
abbrev pub Gives {ℓ} : {A : Type ℓ} → (Source → Type 0) → Parser A → A → (Source → Type 0) → Type ℓ
Gives Pre p a Post = (s : State) → Pre s.src → Ends (p s) a Post

-- How two calls in a row end, the second one of which returns this value.
pub record Chain {ℓ κ} {A : Type ℓ} {B : Type κ} (p : Parser A) (k : A → Parser B) (s : State)
    (b : B) (Post : Source → Type 0) : Type (ℓ ⊔ κ) where
  pub value : A
  pub mid : State
  pub first : p s ≡ done value mid
  pub last : Ends (k value mid) b Post

pub next-Gives : (t : Token) (ts : List Token) → Gives (Ready (t ∷ ts)) next t (Fresh ts)
unfolding next
next-Gives t ts s (src', e, clean, rest) = record {
  after = record s { src = src' };
  returns = rw e refl;
  post = (clean, rest);
}

pub unget-Gives : (t : Token) (ts : List Token) → Gives (Fresh ts) (unget t) tt (Ready (t ∷ ts))
unfolding unget unget_token next_token
unget-Gives t ts s (clean, rest) = record {
  after = record s { src = record s.src { putback = some t } };
  returns = refl;
  post = (
    record s.src { putback = none },
    refl,
    refl,
    subst (λ (o : Option Token). Ready ts (record s.src { putback = o })) clean rest,
  );
}

pub set_prompt-Gives : (n : ℕ) (ts : List Token) → Gives (Fresh ts) (set_prompt n) tt (Fresh ts)
unfolding set_prompt
set_prompt-Gives n ts s h = record { after = record s { prompt = n }; returns = refl; post = h }

pub expect_token-Gives :
    (t : Token) (ts : List Token) (type : ℕ)
    → t.type ≡ type
    → Gives (Ready (t ∷ ts)) (expect_token type) tt (Fresh ts)
unfolding expect_token
expect_token-Gives t ts type e s h =
    let a = next-Gives t ts s h in
    record { after = a.after; returns = rw (a.returns, e, ==_refl type) refl; post = a.post }

pub next_word-Gives :
    (t : Token) (ts : List Token)
    → token_is_word t ≡ true
    → Gives (Ready (t ∷ ts)) next_word t (Fresh ts)
unfolding next_word
next_word-Gives t ts e s h =
    let a = next-Gives t ts s h in
    record { after = a.after; returns = rw (a.returns, e) refl; post = a.post }

-- Newline tokens, a token that is none, and the tokens behind it.
pub data Newlines : List Token → Token → List Token → Type 0 where
  at : {t : Token} {ts : List Token} → (t.type == t_newline) ≡ false → Newlines (t ∷ ts) t ts
  over :
      {t u : Token} {ts us : List Token}
      → t.type ≡ t_newline
      → Newlines ts u us
      → Newlines (t ∷ ts) u us

abbrev pub newlines_cost : {ts us : List Token} {u : Token} → Newlines ts u us → ℕ
newlines_cost (at _) = 0
newlines_cost (over _ d) = suc (newlines_cost d)

pub skip_newlines-Gives :
    {ts us : List Token} {u : Token} (d : Newlines ts u us) (f : ℕ)
    → newlines_cost d < f
    → Gives (Ready ts) (skip_newlines f) u (Fresh us)
unfolding skip_newlines
skip_newlines-Gives (at {t = t} {ts = ts} e) (suc f) h s ready =
    let a = next-Gives t ts s ready in
    record { after = a.after; returns = rw (a.returns, e) refl; post = a.post }
skip_newlines-Gives (over {t = t} {ts = ts} e d) (suc f) h s ready =
    let a = next-Gives t ts s ready in
    let b = skip_newlines-Gives d f (omega arith) a.after a.post.1 in
    record { after = b.after; returns = rw (a.returns, e) b.returns; post = b.post }
skip_newlines-Gives _ zero h s ready = absurd (omega arith)
