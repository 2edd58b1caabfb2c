-- ===== src/Expand/TrimLaws.antt =====
-- `${x%p}`, `${x%%p}`, `${x#p}` and `${x##p}`: what `remove_prefix_suffix` (src/expand.c) cuts off.
use tash.Base.{
  ℕ, zero, suc, ◌≤◌, ◌<◌, ◌≡◌, refl, sym, ap, ◌∙◌, Bool, true, false, Option, none, some, [], ◌∷◌,
  if◌then◌else◌, leb, Text, arith, Bool-cases, inl, inr, length, take, drop,
}
use tash.Glob.Pattern.{items, matches, well_escaped}
use tash.Glob.Match.{glob_match}
use tash.Glob.Decides.{glob_match-matches}
use tash.Expand.Trim.{
  is_match, cut_largest_suffix, cut_smallest_suffix, cut_largest_prefix, smallest_prefix, trimmed,
}

-- The smallest place up to `n` at which `p` holds, or none.
abbrev pub IsFirst : (ℕ → Bool) → ℕ → Option ℕ → Type 0
IsFirst p n none = (j : ℕ) → j ≤ n → p j ≡ false
IsFirst p n (some k) = (k ≤ n) × (p k ≡ true) × ((j : ℕ) → j < k → p j ≡ false)

-- The largest one.
abbrev pub IsLast : (ℕ → Bool) → ℕ → Option ℕ → Type 0
IsLast p n none = (j : ℕ) → j ≤ n → p j ≡ false
IsLast p n (some k) = (k ≤ n) × (p k ≡ true) × ((j : ℕ) → k < j → j ≤ n → p j ≡ false)

-- What is left when the suffix from there on, or the prefix up to there, is cut off.
abbrev pub without_suffix : Text → Option ℕ → Text
without_suffix v none = v
without_suffix v (some k) = take k v

abbrev pub without_prefix : Text → Option ℕ → Text
without_prefix v none = v
without_prefix v (some k) = drop k v

-- Does the pattern match the suffix, or the prefix, at that place?
abbrev pub suffix_matches : Text → Text → ℕ → Bool
suffix_matches pattern v k = matches (items pattern) (drop k v)

abbrev pub prefix_matches : Text → Text → ℕ → Bool
prefix_matches pattern v k = matches (items pattern) (take k v)

-- A search from `n` downwards.
last_hit : (ℕ → Bool) → ℕ → Option ℕ
last_hit p zero = if p 0 then some 0 else none
last_hit p (suc n) = if p (suc n) then some (suc n) else last_hit p n

last_place :
    (p : ℕ → Bool) (n j : ℕ) → p (suc n) ≡ false → (j ≤ n → p j ≡ false) → j ≤ suc n → p j ≡ false
last_place p n j e f h = elim (Bool-cases (leb j n)) [
  | inl b ↦ f (ground arith)
  | inr b ↦ let z : j ≡ suc n = ground arith in rw z e
]

IsLast-suc :
    (p : ℕ → Bool) (n : ℕ) (o : Option ℕ) → p (suc n) ≡ false → IsLast p n o → IsLast p (suc n) o
IsLast-suc p n none e l = λ j h. last_place p n j e (l j) h
IsLast-suc p n (some k) e (a, b, l) = (omega arith, b, λ j h h'. last_place p n j e (l j h) h')

last_hit-IsLast : (p : ℕ → Bool) (n : ℕ) → IsLast p n (last_hit p n)
unfolding last_hit
last_hit-IsLast p zero = elim (Bool-cases (p 0)) [
  | inl e ↦ rw (e, last_hit) (omega arith, e, λ j h k. absurd (omega arith))
  | inr e ↦ rw (e, last_hit) (λ j h. let z : j ≡ 0 = omega arith in rw z e)
]
last_hit-IsLast p (suc n) = elim (Bool-cases (p (suc n))) [
  | inl e ↦ rw (e, last_hit) (omega arith, e, λ j h k. absurd (omega arith))
  | inr e ↦ rw (e, last_hit) (IsLast-suc p n (last_hit p n) e (last_hit-IsLast p n))
]

-- A search from `n` downwards that goes on at a hit, with the last hit so far.
lowest : (ℕ → Bool) → ℕ → Option ℕ → Option ℕ
lowest p zero best = if p 0 then some 0 else best
lowest p (suc n) best = lowest p n (if p (suc n) then some (suc n) else best)

-- The best of the places from `n` on, up to `m`.
abbrev IsBest : (ℕ → Bool) → ℕ → ℕ → Option ℕ → Type 0
IsBest p n m none = (j : ℕ) → n ≤ j → j ≤ m → p j ≡ false
IsBest p n m (some k) = (n ≤ k) × (k ≤ m) × (p k ≡ true) × ((j : ℕ) → n ≤ j → j < k → p j ≡ false)

IsBest-down :
    (p : ℕ → Bool) (n m : ℕ) (best : Option ℕ)
    → n ≤ m
    → IsBest p (suc n) m best
    → IsBest p n m (if p n then some n else best)
IsBest-down p n m best h b = elim (Bool-cases (p n)) [
  | inl e ↦ rw e (omega arith, h, e, λ j l k. absurd (omega arith))
  | inr e ↦ rw e (other best b e)
]
  where
    place : (j : ℕ) → p n ≡ false → (suc n ≤ j → p j ≡ false) → n ≤ j → p j ≡ false
    place j e f l = elim (Bool-cases (leb (suc n) j)) [
      | inl b ↦ f (ground arith)
      | inr b ↦ let z : j ≡ n = ground arith in rw z e
    ]

    other : (o : Option ℕ) → IsBest p (suc n) m o → p n ≡ false → IsBest p n m o
    other none f e = λ j l k. place j e (λ l'. f j l' k) l
    other (some k) (a, b, c, f) e = (omega arith, b, c, λ j l l'. place j e (λ q. f j q l') l)

IsBest-zero : (p : ℕ → Bool) (m : ℕ) (o : Option ℕ) → IsBest p 0 m o → IsFirst p m o
IsBest-zero p m none f = λ j h. f j (omega arith) h
IsBest-zero p m (some k) (a, b, c, f) = (b, c, λ j h. f j (omega arith) h)

lowest-IsFirst :
    (p : ℕ → Bool) (n m : ℕ) (best : Option ℕ)
    → n ≤ m
    → IsBest p (suc n) m best
    → IsFirst p m (lowest p n best)
unfolding lowest
lowest-IsFirst p zero m best h b =
    IsBest-zero p m (if p 0 then some 0 else best) (IsBest-down p 0 m best h b)
lowest-IsFirst p (suc n) m best h b =
    lowest-IsFirst p n m (if p (suc n) then some (suc n) else best) (omega arith)
      (IsBest-down p (suc n) m best h b)

abbrev place_or_zero : Option ℕ → ℕ
place_or_zero none = 0
place_or_zero (some k) = k

drop-place_or_zero : (v : Text) (o : Option ℕ) → drop (place_or_zero o) v ≡ without_prefix v o
drop-place_or_zero v none = refl
drop-place_or_zero v (some k) = refl

module _ (pattern : Text) (esc : well_escaped (items pattern) ≡ true) where
  is_match-matches : (s : Text) → is_match (glob_match pattern s) ≡ matches (items pattern) s
  is_match-matches s = rw (glob_match-matches pattern s esc) refl

  cut_smallest_suffix_lem :
      (v : Text) (n : ℕ)
      → cut_smallest_suffix n pattern v ≡ without_suffix v (last_hit (suffix_matches pattern v) n)
  unfolding cut_smallest_suffix last_hit
  cut_smallest_suffix_lem v zero = ground (arith, is_match-matches v)
  cut_smallest_suffix_lem v (suc n) =
      ground (arith, is_match-matches (drop (suc n) v), cut_smallest_suffix_lem v n)

  cut_largest_prefix_lem :
      (v : Text) (n : ℕ)
      → cut_largest_prefix n pattern v ≡ without_prefix v (last_hit (prefix_matches pattern v) n)
  unfolding cut_largest_prefix last_hit
  cut_largest_prefix_lem v zero = ground arith
  cut_largest_prefix_lem v (suc n) =
      ground (arith, is_match-matches (take (suc n) v), cut_largest_prefix_lem v n)

  smallest_prefix_lem :
      (v : Text) (n : ℕ) (best : Option ℕ)
      → smallest_prefix n pattern v (place_or_zero best)
        ≡ place_or_zero (lowest (prefix_matches pattern v) n best)
  unfolding smallest_prefix lowest
  smallest_prefix_lem v zero best = ground (arith, is_match-matches [])
  smallest_prefix_lem v (suc n) best = elim (Bool-cases (prefix_matches pattern v (suc n))) [
    | inl e ↦ rw (is_match-matches (take (suc n) v)) (rw e (smallest_prefix_lem v n (some (suc n))))
    | inr e ↦ rw (is_match-matches (take (suc n) v)) (rw e (smallest_prefix_lem v n best))
  ]

  shifted : Option ℕ → Option ℕ
  shifted none = none
  shifted (some k) = some (suc k)

  IsFirst-shifted :
      (c : ℕ) (cs : Text) (o : Option ℕ)
      → suffix_matches pattern (c ∷ cs) 0 ≡ false
      → IsFirst (suffix_matches pattern cs) (length cs) o
      → IsFirst (suffix_matches pattern (c ∷ cs)) (length (c ∷ cs)) (shifted o)
  unfolding shifted
  IsFirst-shifted c cs none e f = below
    where
      below : (j : ℕ) → j ≤ suc (length cs) → suffix_matches pattern (c ∷ cs) j ≡ false
      below zero h = e
      below (suc j) h = f j (omega arith)
  IsFirst-shifted c cs (some k) e (a, b, f) = (omega arith, b, below)
    where
      below : (j : ℕ) → j < suc k → suffix_matches pattern (c ∷ cs) j ≡ false
      below zero h = e
      below (suc j) h = f j (omega arith)

  without_suffix-shifted :
      (c : ℕ) (cs : Text) (o : Option ℕ)
      → without_suffix (c ∷ cs) (shifted o) ≡ c ∷ without_suffix cs o
  unfolding shifted
  without_suffix-shifted c cs none = refl
  without_suffix-shifted c cs (some k) = refl

  cut_largest_suffix_lem :
      (v : Text)
      → (o : Option ℕ) × IsFirst (suffix_matches pattern v) (length v) o
        × (cut_largest_suffix pattern v ≡ without_suffix v o)
  unfolding cut_largest_suffix
  cut_largest_suffix_lem [] = elim (Bool-cases (suffix_matches pattern [] 0)) [
    | inl e ↦ (some 0, (omega arith, e, λ j h. absurd (omega arith)), refl)
    | inr e ↦ (none, (λ j h. let z : j ≡ 0 = omega arith in rw z e), refl)
  ]
  cut_largest_suffix_lem (c ∷ cs) = elim (Bool-cases (suffix_matches pattern (c ∷ cs) 0)) [
    | inl e ↦ (
      some 0,
      (omega arith, e, λ j h. absurd (omega arith)),
      rw (is_match-matches (c ∷ cs)) (rw e refl),
    )
    | inr e ↦
        let (o, f, q) = cut_largest_suffix_lem cs in
        (
          shifted o,
          IsFirst-shifted c cs o e f,
          rw (is_match-matches (c ∷ cs))
              (rw e (ap (λ t. c ∷ t) q ∙ sym (without_suffix-shifted c cs o))),
        )
  ]

  -- `${v%p}` cuts off the shortest suffix of the value that the pattern matches and `${v%%p}` the
  -- longest, `${v#p}` the shortest prefix and `${v##p}` the longest; where none matches, the value
  -- stays. The pattern has no CTLESC at its end.
  pub trimmed_lem :
      (v : Text)
      → ((o : Option ℕ) × IsLast (suffix_matches pattern v) (length v) o
          × (trimmed v pattern b'%' false ≡ without_suffix v o))
        × ((o : Option ℕ) × IsFirst (suffix_matches pattern v) (length v) o
            × (trimmed v pattern b'%' true ≡ without_suffix v o))
        × ((o : Option ℕ) × IsFirst (prefix_matches pattern v) (length v) o
            × (trimmed v pattern b'#' false ≡ without_prefix v o))
        × ((o : Option ℕ) × IsLast (prefix_matches pattern v) (length v) o
            × (trimmed v pattern b'#' true ≡ without_prefix v o))
  unfolding trimmed
  trimmed_lem v =
      let suffixes = suffix_matches pattern v in
      let prefixes = prefix_matches pattern v in
      let n = length v in
      (
        (last_hit suffixes n, last_hit-IsLast suffixes n, cut_smallest_suffix_lem v n),
        cut_largest_suffix_lem v,
        (
          lowest prefixes n none,
          lowest-IsFirst prefixes n n none (omega arith) (λ j h k. absurd (omega arith)),
          ap (λ k. drop k v) (smallest_prefix_lem v n none)
              ∙ drop-place_or_zero v (lowest prefixes n none),
        ),
        (last_hit prefixes n, last_hit-IsLast prefixes n, cut_largest_prefix_lem v n),
      )
