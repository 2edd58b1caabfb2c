-- ===== src/Expand/Trim.antt =====
-- `remove_prefix_suffix` of src/expand.c: the loops over the places where a value can be cut.
use tash.Base.{ℕ, zero, suc, Bool, false, [], ◌∷◌, ◌==◌, if◌then◌else◌, Text, take, drop, length}
use tash.Glob.Match.{Verdict, verdict, glob_match}
use tash.Expand.Quoting.{append_safe}

-- `if (glob_match(…))`, for a pattern that `glob_match` reads within its bounds.
abbrev pub is_match : Verdict → Bool
is_match (verdict b) = b
is_match _ = false

-- `for (cur = value; *cur; cur++)`: the first suffix that matches is cut off.
unfoldable pub cut_largest_suffix : Text → Text → Text
cut_largest_suffix pattern [] = []
cut_largest_suffix pattern (c ∷ cs) =
    let rest = cut_largest_suffix pattern cs in
    if is_match (glob_match pattern (c ∷ cs)) then [] else c ∷ rest

-- `for (cur = end; cur >= start; cur--)`, at the place `n`.
unfoldable pub cut_smallest_suffix : ℕ → Text → Text → Text
cut_smallest_suffix zero pattern value = if is_match (glob_match pattern value) then [] else value
cut_smallest_suffix (suc n) pattern value =
    let rest = cut_smallest_suffix n pattern value in
    if is_match (glob_match pattern (drop (suc n) value)) then take (suc n) value else rest

-- `for (cur = len; cur > 0; cur--)`: the first prefix that matches is cut off.
unfoldable pub cut_largest_prefix : ℕ → Text → Text → Text
cut_largest_prefix zero pattern value = value
cut_largest_prefix (suc n) pattern value =
    let rest = cut_largest_prefix n pattern value in
    if is_match (glob_match pattern (take (suc n) value)) then drop (suc n) value else rest

-- `for (cur = len;; cur--)`: the last prefix that matched, `best`, is cut off.
unfoldable pub smallest_prefix : ℕ → Text → Text → ℕ → ℕ
smallest_prefix zero pattern value best = if is_match (glob_match pattern []) then 0 else best
smallest_prefix (suc n) pattern value best =
    smallest_prefix n pattern value
      (if is_match (glob_match pattern (take (suc n) value)) then suc n else best)

-- What is left of the value, by the operator `op` and `remove_largest`.
unfoldable pub trimmed : Text → Text → ℕ → Bool → Text
unfolding cut_largest_suffix cut_smallest_suffix cut_largest_prefix smallest_prefix
trimmed value pattern op remove_largest =
    if op == b'%'
    then (if remove_largest
        then cut_largest_suffix pattern value
        else cut_smallest_suffix (length value) pattern value)
    else if remove_largest
    then cut_largest_prefix (length value) pattern value
    else drop (smallest_prefix (length value) pattern value 0) value

unfoldable pub remove_prefix_suffix : Text → Bool → Text → Text → ℕ → Bool → Text
unfolding trimmed append_safe
remove_prefix_suffix dest in_quote value pattern op remove_largest =
    append_safe dest (trimmed value pattern op remove_largest) in_quote
