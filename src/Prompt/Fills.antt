-- ===== src/Prompt/Fills.antt =====
-- What the possibilities of a completion have in common (src/prompt.c).
use tash.Base.{
  ℕ, zero, suc, ◌≤◌, ◌≡◌, refl, ap, subst, sym, ◌∙◌, List, [], ◌∷◌, ◌++◌, ◌==◌, ==_refl, ==→eq,
  Text, length, Bool-cases, inl, inr, arith,
}
use tash.Prompt.Completion.{common_length, smaller, narrow, first_bytes}

abbrev pub Begins : Text → Text → Type 0
Begins p text = (rest : Text) × (text ≡ p ++ rest)

-- All of the texts begin so.
abbrev pub AllBegin : Text → List Text → Type 0
AllBegin p [] = Unit
AllBegin p (text ∷ texts) = Begins p text × AllBegin p texts

-- All begin so, and with nothing longer.
pub record LongestCommon (texts : List Text) (p : Text) : Type 0 where
  pub shared : AllBegin p texts
  pub longest : (q : Text) → AllBegin q texts → length q ≤ length p

common_length-shared : (p a b : Text) → length p ≤ common_length (p ++ a) (p ++ b)
unfolding common_length
common_length-shared [] a b = omega arith
common_length-shared (c ∷ p) a b = rw (==_refl c) (omega (arith, common_length-shared p a b))

first_bytes-shared : (m : ℕ) (a b : Text) → m ≤ common_length a b → Begins (first_bytes m a) b
unfolding common_length
first_bytes-shared zero a b h = (b, refl)
first_bytes-shared (suc m) [] b h = (b, refl)
first_bytes-shared (suc m) (c ∷ cs) [] h = absurd (omega arith)
first_bytes-shared (suc m) (c ∷ cs) (d ∷ ds) h = elim (Bool-cases (c == d)) [
  | inl same ↦
      let (rest, e) = first_bytes-shared m cs ds (ground arith) in
      (rest, ap (λ x. x ∷ ds) (sym (==→eq c d same)) ∙ ap (λ t. c ∷ t) e)
  | inr other ↦ absurd (ground arith)
]

narrow_le : (first : Text) (fills : List Text) (common : ℕ) → narrow first fills common ≤ common
unfolding narrow
narrow_le first [] common = omega arith
narrow_le first (name ∷ names) common =
    ground (arith, narrow_le first names (smaller (common_length first name) common))

narrow-AllBegin :
    (first : Text) (fills : List Text) (common m : ℕ)
    → m ≤ narrow first fills common
    → AllBegin (first_bytes m first) fills
unfolding narrow
narrow-AllBegin first [] common m h = tt
narrow-AllBegin first (name ∷ names) common m h =
    let next = smaller (common_length first name) common in
    let below = narrow_le first names next in
    (first_bytes-shared m first name (ground (arith, below)), narrow-AllBegin first names next m h)

narrow_ge :
    (p rest : Text) (fills : List Text) (common : ℕ)
    → AllBegin p fills
    → length p ≤ common
    → length p ≤ narrow (p ++ rest) fills common
unfolding narrow
narrow_ge p rest [] common shared h = h
narrow_ge p rest (name ∷ names) common ((r, e), shared) h =
    let long = common_length-shared p rest r in
    let long' : length p ≤ common_length (p ++ rest) name = rw e long in
    narrow_ge p rest names (smaller (common_length (p ++ rest) name) common) shared (ground arith)

length-first_bytes : (n : ℕ) (text : Text) → n ≤ length text → length (first_bytes n text) ≡ n
length-first_bytes zero text h = refl
length-first_bytes (suc n) [] h = absurd (omega (arith, h))
length-first_bytes (suc n) (c ∷ cs) h = ap suc (length-first_bytes n cs (omega arith))

first_bytes-append : (p rest : Text) → first_bytes (length p) (p ++ rest) ≡ p
first_bytes-append [] rest = refl
first_bytes-append (c ∷ p) rest = ap (λ t. c ∷ t) (first_bytes-append p rest)

length-Begins : (p text : Text) → Begins p text → length p ≤ length text
length-Begins p text (rest, e) = rw e (le p rest)
  where
    le : (p rest : Text) → length p ≤ length (p ++ rest)
    le [] rest = omega arith
    le (c ∷ p) rest = omega (arith, le p rest)

-- The loop finds it.
pub narrow-LongestCommon :
    (first : Text) (more : List Text) (p : Text)
    → LongestCommon (first ∷ more) p
    → (narrow first (first ∷ more) (length first) ≡ length p) × (first_bytes (length p) first ≡ p)
narrow-LongestCommon first more p c =
    let fills = first ∷ more in
    let n = narrow first fills (length first) in
    let (rest, e) = c.shared.0 in
    let short = narrow_le first fills (length first) in
    let high =
      c.longest (first_bytes n first)
        (narrow-AllBegin first fills (length first) n (omega arith)) in
    let size = length-first_bytes n first short in
    let low' = narrow_ge p rest fills (length first) c.shared (length-Begins p first c.shared.0) in
    let low = subst (λ x. length p ≤ narrow x fills (length first)) (sym e) low' in
    (omega (arith, high, size, low), ap (first_bytes (length p)) e ∙ first_bytes-append p rest)
