-- ===== src/Glob/Decides.antt =====
-- `glob_match` (src/globing.c) goes back to the last star only; it answers all the same as the
-- meaning of the pattern says.
use tash.Base.{
  ℕ, zero, suc, ◌+◌, ◌*◌, ◌≤◌, ◌<◌, ◌≡◌, refl, sym, ap, ◌∙◌, Bool, true, false, ◌||◌, none, some,
  false≢true, List, [], ◌∷◌, Text, length, arith,
}
use tash.Glob.Pattern.{Item, star, item_of, items, matches, accepts, well_escaped}
use tash.Glob.Match.{
  verdict, Turn, mismatch, overrun, onward, anchor, switch, Back, Round, retry, take_turn, loop,
  glob_match,
}
use tash.Glob.Switch.{
  IsSingle, Explains, switch-Explains, leave, take_one, drop_single, two_stars, single-cons,
}

-- What is left to try once the bytes at hand do not match.
later : Back → Bool
later none = false
later (some (g, [])) = false
later (some (g, c ∷ s)) = matches (star ∷ items g) s

-- The loop's state: `m` bounds the text left to try, `k` the pattern.
record Inv (f m k : ℕ) (g s : Text) (back : Back) : Type 0 where
  text_bound : length s ≤ m
  pattern_bound : length g ≤ k
  fuel : m * (k + 1) + length g < f
  escaped : well_escaped (items g) ≡ true
  shorter : later back ≡ true → matches (star ∷ items g) s ≡ true

-- The recorded star, in the same state.
abbrev Saved : ℕ → ℕ → Text → Back → Type 0
Saved m k s none = Unit
Saved m k s (some (g, bs)) =
    (length s ≤ length bs) × (length bs ≤ m) × (length g < k) × (well_escaped (items g) ≡ true)

items-star : (g : Text) → items (b'*' ∷ g) ≡ star ∷ items g
unfolding items item_of
items-star g = refl

-- The answer of the next round is right.
abbrev Ready : ℕ → Round → Type 0
Ready f next =
    (m k : ℕ) (g s : Text) (back : Back)
    → Inv f m k g s back
    → Saved m k s back
    → next g s back ≡ verdict (matches (items g) s || later back)

well_escaped-star : (p : List Item) → well_escaped (star ∷ p) ≡ well_escaped p
unfolding well_escaped
well_escaped-star p = refl

-- The star of the last line may take one byte more.
later-star : (g s : Text) → later (some (g, s)) ≡ true → matches (star ∷ items g) s ≡ true
unfolding later
later-star g [] h = cc
later-star g (c ∷ s) h = take_one (items g) c s h

star-split :
    (g s : Text) → (matches (items g) s || later (some (g, s))) ≡ matches (star ∷ items g) s
unfolding later matches
star-split g [] = ground arith
star-split g (c ∷ s) = refl

or_absorb : (a b : Bool) → (b ≡ true → a ≡ true) → (a || b) ≡ a
or_absorb a b h = ground arith

Inv-retry :
    (f m k : ℕ) (p bs : Text)
    → suc m * (k + 1) < suc f
    → length bs ≤ m
    → length p < k
    → well_escaped (items p) ≡ true
    → Inv f m k (b'*' ∷ p) bs (some (p, bs))
Inv-retry f m k p bs h bound short esc = record {
  text_bound = bound;
  pattern_bound = omega arith;
  fuel = omega arith;
  escaped = rw (items-star p, well_escaped-star) esc;
  shorter = λ l. rw (items-star p) (leave (star ∷ items p) bs (later-star p bs l));
}

retry_lem :
    (f m k : ℕ) (s : Text) (back : Back) (next : Round)
    → Ready f next
    → m * (k + 1) < suc f
    → Saved m k s back
    → retry back next ≡ verdict (later back)
unfolding retry later
retry_lem f m k s none next ready h saved = refl
retry_lem f m k s (some (p, [])) next ready h saved = refl
retry_lem f zero k s (some (p, c ∷ bs)) next ready h saved = absurd (omega arith)
retry_lem f (suc m) k s (some (p, c ∷ bs)) next ready h (_, bound, short, esc) =
    ready m k (b'*' ∷ p) bs (some (p, bs)) (Inv-retry f m k p bs h (omega arith) short esc)
      (omega arith, omega arith, short, esc)
    ∙ ap verdict (
        or_absorb (matches (items (b'*' ∷ p)) bs) (later (some (p, bs)))
          (λ l. rw (items-star p) (later-star p bs l))
        ∙ ap (λ q. matches q bs) (items-star p))

Saved-shorter :
    (m k : ℕ) (s s' : Text) (back : Back)
    → length s' ≤ length s
    → Saved m k s back
    → Saved m k s' back
Saved-shorter m k s s' none h saved = tt
Saved-shorter m k s s' (some (g, bs)) h (a, b, c, d) = (omega arith, b, c, d)

module _ (f m k d : ℕ) (g : Text) (back : Back) (next : Round) (ready : Ready f next) where
  onward_lem :
      (t : Item) (c : ℕ) (g' s' : Text)
      → Inv (suc f) m k (d ∷ g) (c ∷ s') back
      → Saved m k (c ∷ s') back
      → IsSingle t
      → items (d ∷ g) ≡ t ∷ items g'
      → accepts t c ≡ true
      → length g' ≤ length g
      → (well_escaped (items (d ∷ g)) ≡ true → well_escaped (items g') ≡ true)
      → next g' s' back ≡ verdict (matches (items (d ∷ g)) (c ∷ s') || later back)
  onward_lem t c g' s' inv saved single e acc short esc =
      ready m k g' s' back
        (record {
          text_bound = omega arith;
          pattern_bound = omega arith;
          fuel = omega arith;
          escaped = esc inv.escaped;
          shorter = λ l. drop_single t (items g') c s' single (rw e at (inv.shorter l));
        })
        (Saved-shorter m k (c ∷ s') s' back (omega arith) saved)
      ∙ rw (e, single-cons t (items g') c s' single, acc)

  anchor_lem :
      (s : Text)
      → Inv (suc f) m k (d ∷ g) s back
      → Saved m k s back
      → items (d ∷ g) ≡ star ∷ items g
      → next g s (some (g, s)) ≡ verdict (matches (items (d ∷ g)) s || later back)
  anchor_lem s inv saved e =
      let esc : well_escaped (items g) ≡ true =
        sym (well_escaped-star (items g)) ∙ (rw e at inv.escaped) in
      ready m k g s (some (g, s))
        (record {
          text_bound = inv.text_bound;
          pattern_bound = omega arith;
          fuel = omega arith;
          escaped = esc;
          shorter = later-star g s;
        })
        (omega arith, inv.text_bound, omega arith, esc)
      ∙ ap verdict (
          star-split g s
          ∙ sym (
              or_absorb (matches (star ∷ items g) s) (later back)
                (λ l. two_stars (items g) s (rw e at (inv.shorter l))))
          ∙ ap (λ q. matches q s || later back) (sym e))

  take_turn_lem :
      (s : Text) (turn : Turn)
      → Inv (suc f) m k (d ∷ g) s back
      → Saved m k s back
      → Explains (items (d ∷ g)) g s turn
      → take_turn turn s back next ≡ verdict (matches (items (d ∷ g)) s || later back)
  unfolding take_turn
  take_turn_lem s mismatch inv saved e =
      retry_lem f m k s back next ready (omega arith) saved ∙ rw e
  take_turn_lem s overrun inv saved e = absurd (false≢true (sym e ∙ inv.escaped))
  take_turn_lem s (onward g' s') inv saved (t, c, single, e, es, acc, short, esc) =
      rw es (onward_lem t c g' s' (rw es at inv) (rw es at saved) single e acc short esc)
  take_turn_lem s (anchor g') inv saved (e, eg) = rw eg (anchor_lem s inv saved (rw eg at e))

loop_lem : (f : ℕ) → Ready f (loop f)
unfolding loop items matches
loop_lem zero m k g s back inv saved = absurd (omega arith)
loop_lem (suc f) m k [] [] back inv saved = refl
loop_lem (suc f) m k [] (c ∷ s) back inv saved =
    retry_lem f m k (c ∷ s) back (loop f) (loop_lem f) (omega arith) saved
loop_lem (suc f) m k (d ∷ g) s back inv saved =
    take_turn_lem f m k d g back (loop f) (loop_lem f) s (switch d g s) inv saved
      (switch-Explains d g s)

-- On every text and every pattern with no CTLESC at its end, `glob_match` ends, reads no byte past
-- the end of either, and answers whether the text matches the pattern's items.
pub glob_match-matches :
    (g s : Text) → well_escaped (items g) ≡ true → glob_match g s ≡ verdict (matches (items g) s)
unfolding glob_match later
glob_match-matches g s h =
    loop_lem (suc ((length s + 1) * (length g + 2))) (length s) (length g) g s none
      (record {
        text_bound = omega arith;
        pattern_bound = omega arith;
        fuel = omega arith;
        escaped = h;
        shorter = λ l. cc;
      })
      tt
    ∙ ap verdict (or_absorb (matches (items g) s) false (λ l. cc))
