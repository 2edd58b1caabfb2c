-- ===== src/Expand/Files.antt =====
-- File name generation (`glob_file_recur` and `glob_files` of src/globing.c). What `stat` and
-- `readdir` answer is a parameter.
use tash.Base.{
  ℕ, zero, suc, Bool, true, false, not, ◌&&◌, ◌||◌, Option, none, some, List, [], ◌∷◌, ◌++◌, ◌==◌,
  if◌then◌else◌, Text, codes, same_text, length, take, drop,
}
use tash.Glob.Pattern.{ctlesc, ctlquot}
use tash.Glob.Match.{glob_match}
use tash.Expand.Trim.{is_match}

-- What the scan over the pattern finds: where the component with the first wildcard starts, where
-- it ends if another follows, and whether there is a wildcard at all. Places are offsets.
pub record Component : Type 0 where
  pub start : ℕ
  pub end : Option ℕ
  pub wildcard : Bool

slash_at : ℕ → Component → Component
slash_at i c = elim c.wildcard [
  | false ↦ record c { start = suc i }
  | true ↦ elim c.end [ none ↦ record c { end = some i } | some _ ↦ c ]
]

is_wildcard : ℕ → Bool
is_wildcard c = c == b'*' || c == b'?'

found_at : Bool → ℕ → ℕ → Component → Component
unfolding slash_at is_wildcard
found_at passed c i found =
    if passed && is_wildcard c
    then found
    else if c == b'/'
    then slash_at i found
    else if not (c == ctlesc) && is_wildcard c
    then record found { wildcard = true }
    else found

-- The scan, at the offset `i`; `passed` says that a CTLESC stands before, behind which a wildcard is
-- passed over.
unfoldable pub scan : Bool → ℕ → Text → Component → Component
unfolding found_at
scan passed i [] found = found
scan passed i (c ∷ cs) found = scan (c == ctlesc) (suc i) cs (found_at passed c i found)

-- The plain part before the component, its marks taken off. A CTLESC copies the byte behind it.
unfoldable mutual
  pub plain_prefix : Text → Text
  plain_prefix [] = []
  plain_prefix (c ∷ cs) =
      let escaped = plain_escaped cs in
      let rest = plain_prefix cs in
      if c == ctlquot then rest else if c == ctlesc then escaped else c ∷ rest

  pub plain_escaped : Text → Text
  plain_escaped [] = []
  plain_escaped (c ∷ cs) = c ∷ plain_prefix cs

abbrev is_hidden : Text → Bool
is_hidden [] = false
is_hidden (c ∷ _) = c == b'.'

-- The entries that the loop over the directory leaves out.
unfoldable pub is_ignored : Text → Text → Bool
is_ignored globing name =
    is_hidden name && not (is_hidden globing)
    || same_text name (codes ".")
    || same_text name (codes "..")
    || not (is_match (glob_match globing name))

abbrev or_here : Text → Text
or_here [] = codes "."
or_here (c ∷ cs) = c ∷ cs

-- `exists` is `stat(path) >= 0`; `entries` is what `opendir` and `readdir` give, in their order.
module _ (exists : Text → Bool) (entries : Text → Option (List Text)) where
  abbrev listing : Option (List Text) → List Text
  listing none = []
  listing (some names) = names

  -- The loop over the entries, with the recursive call for one path.
  for_entries : (Text → List Text) → Text → Text → List Text → List Text
  unfolding is_ignored
  for_entries recur prefix globing [] = []
  for_entries recur prefix globing (name ∷ names) =
      let rest = for_entries recur prefix globing names in
      if is_ignored globing name then rest else recur (prefix ++ name) ++ rest

  -- The paths found, in order; each call is for one more component of the pattern.
  unfoldable pub glob_file_recur : ℕ → Text → Text → List Text
  unfolding scan plain_prefix for_entries
  glob_file_recur zero prefix glob = []
  glob_file_recur (suc f) prefix glob =
      let found = scan false 0 glob (record { start = 0; end = none; wildcard = false }) in
      let start = if found.wildcard then found.start else length glob in
      let path = prefix ++ plain_prefix (take start glob) in
      let end : ℕ = elim found.end [ none ↦ length glob | some e ↦ e ] in
      let globing = drop start (take end glob) in
      let deeper =
        for_entries (λ p. glob_file_recur f p (drop end glob)) path globing
          (listing (entries (or_here path))) in
      if not found.wildcard then (if exists path then path ∷ [] else []) else deeper

  unfoldable pub glob_files : Text → List Text
  unfolding glob_file_recur
  glob_files glob = glob_file_recur (suc (length glob)) [] glob
