-- ===== src/Glob/Pattern.antt =====
-- What a pattern of `glob_match` (src/globing.c) means, with no search order in it: a list of
-- items, and the texts that it matches.
use tash.Base.{ℕ, Bool, true, false, ◌&&◌, ◌||◌, List, [], ◌∷◌, Text, ◌==◌, if◌then◌else◌}

-- CTLESC and CTLQUOT of include/tash.h: the byte that quotes the next one, and the place of a
-- quotation mark.
abbrev pub ctlesc : ℕ
ctlesc = 1

abbrev pub ctlquot : ℕ
ctlquot = 2

-- `quotation` is a CTLQUOT, which no byte matches; `cut` is a CTLESC with nothing after it.
pub data Item : Type 0 where
  star any quotation cut : Item
  literal : ℕ → Item

unfoldable pub item_of : ℕ → Item
item_of c =
    if c == b'*'
    then star
    else if c == b'?'
    then any
    else if c == ctlquot
    then quotation
    else literal c

-- The items that a pattern's bytes stand for.
unfoldable mutual
  pub items : Text → List Item
  items [] = []
  items (c ∷ g) =
      let escaped = items_escaped g in
      let plain = item_of c ∷ items g in if c == ctlesc then escaped else plain

  pub items_escaped : Text → List Item
  items_escaped [] = cut ∷ []
  items_escaped (c ∷ g) = literal c ∷ items g

-- Does a single item other than a star match this byte?
unfoldable pub accepts : Item → ℕ → Bool
accepts any c = true
accepts (literal d) c = c == d
accepts _ c = false

-- Does the text match? A star takes any run of bytes, every other item one.
unfoldable pub matches : List Item → Text → Bool
unfolding accepts
matches [] [] = true
matches [] (c ∷ s) = false
matches (star ∷ p) [] = matches p []
matches (star ∷ p) (c ∷ s) = matches p (c ∷ s) || matches (star ∷ p) s
matches (t ∷ p) [] = false
matches (t ∷ p) (c ∷ s) = accepts t c && matches p s

-- Every CTLESC has a byte after it.
unfoldable pub well_escaped : List Item → Bool
well_escaped [] = true
well_escaped (cut ∷ p) = false
well_escaped (_ ∷ p) = well_escaped p
