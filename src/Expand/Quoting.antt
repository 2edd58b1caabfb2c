-- ===== src/Expand/Quoting.antt =====
-- The CTLESC marks of src/expand.c: adding them to a text, and taking them off.
use tash.Base.{ℕ, Bool, ◌&&◌, ◌||◌, [], ◌∷◌, ◌++◌, ◌==◌, if◌then◌else◌, Text}
use tash.Glob.Pattern.{ctlesc, ctlquot}

abbrev pub is_dangerous : ℕ → Bool
is_dangerous c = c == ctlesc || c == ctlquot

abbrev pub is_special : ℕ → Bool
is_special c =
    c == b' ' || c == b'\t' || c == b'\n' || c == b'*' || c == b'?' || c == b'~' || is_dangerous c

unfoldable pub remove_ctlesc : Text → Text
remove_ctlesc [] = []
remove_ctlesc (c ∷ cs) = let rest = remove_ctlesc cs in if c == ctlesc then rest else c ∷ rest

-- Is a CTLESC put before the byte?
abbrev pub is_marked : Bool → ℕ → Bool
is_marked in_quote c = (in_quote && is_special c) || is_dangerous c

-- `append_safe`, and `append_safe_len` of a text of that length.
unfoldable pub append_safe : Text → Text → Bool → Text
append_safe dest [] in_quote = dest
append_safe dest (c ∷ cs) in_quote =
    append_safe (dest ++ (if is_marked in_quote c then ctlesc ∷ c ∷ [] else c ∷ [])) cs in_quote

-- The loop that takes over the home directory in a tilde expansion.
unfoldable pub append_home : Text → Text → Text
append_home dest [] = dest
append_home dest (c ∷ cs) =
    append_home (dest ++ (if is_special c then ctlesc ∷ c ∷ [] else c ∷ [])) cs
