-- ===== src/Glob/Match.antt =====
-- The loop of `glob_match` (src/globing.c). A pointer into a string is the rest of the string.
use tash.Base.{
  ℕ, zero, suc, ◌+◌, ◌*◌, Bool, true, false, Option, none, some, [], ◌∷◌, Text, ◌==◌, if◌then◌else◌,
  length,
}
use tash.Glob.Pattern.{ctlesc, ctlquot}

-- `out_of_bounds` is a read past the end of the pattern, which a CTLESC at its end gives;
-- `out_of_fuel` belongs to the model only.
pub data Verdict : Type 0 where
  verdict : Bool → Verdict
  out_of_bounds out_of_fuel : Verdict

-- What the switch does: leave the loop's round by `break`, go on at the next bytes, record a star,
-- or run off the end.
pub data Turn : Type 0 where
  mismatch overrun : Turn
  onward : Text → Text → Turn
  anchor : Text → Turn

-- `*str == *glob`, at the byte that `glob` points to.
same_byte : ℕ → Text → Text → Turn
same_byte d g [] = mismatch
same_byte d g (c ∷ s) = if c == d then onward g s else mismatch

-- The case CTLESC: the byte after it is taken as it is.
after_escape : Text → Text → Turn
unfolding same_byte
after_escape [] [] = overrun
after_escape [] (c ∷ s) = mismatch
after_escape (d ∷ g) s = same_byte d g s

any_byte : Text → Text → Turn
any_byte g [] = mismatch
any_byte g (c ∷ s) = onward g s

unfoldable pub switch : ℕ → Text → Text → Turn
unfolding same_byte after_escape any_byte
switch d g s =
    if d == b'?'
    then any_byte g s
    else if d == b'*'
    then anchor g
    else if d == ctlquot
    then mismatch
    else if d == ctlesc
    then after_escape g s
    else same_byte d g s

-- `glob_start` behind its star, and `str_start`, once a star was met.
abbrev pub Back : Type 0
Back = Option (Text × Text)

abbrev pub Round : Type 0
Round = Text → Text → Back → Verdict

-- The end of the loop's body: one byte later at the last star, or no match.
unfoldable pub retry : Back → Round → Verdict
retry none next = verdict false
retry (some (g, [])) next = verdict false
retry (some (g, c ∷ s)) next = next (b'*' ∷ g) s (some (g, s))

unfoldable pub take_turn : Turn → Text → Back → Round → Verdict
unfolding retry
take_turn mismatch s back next = retry back next
take_turn overrun s back next = out_of_bounds
take_turn (onward g s') s back next = next g s' back
take_turn (anchor g) s back next = next g s (some (g, s))

-- `while (*glob || *str)`
unfoldable pub loop : ℕ → Round
unfolding switch take_turn
loop zero g s back = out_of_fuel
loop (suc f) [] [] back = verdict true
loop (suc f) [] (c ∷ s) back = retry back (loop f)
loop (suc f) (d ∷ g) s back = take_turn (switch d g s) s back (loop f)

unfoldable pub glob_match : Text → Text → Verdict
unfolding loop
glob_match g s = loop (suc ((length s + 1) * (length g + 2))) g s none
