-- ===== src/Glob/Switch.antt =====
-- What a turn of the switch in `glob_match` (src/globing.c) says about the meaning of the pattern.
use tash.Base.{
  ℕ, ◌≤◌, ◌≡◌, refl, true, false, ◌&&◌, ◌||◌, List, [], ◌∷◌, Text, ◌==◌, length, arith, Bool-cases,
  inl, inr, ◌⊎◌, ==→eq,
}
use tash.Glob.Pattern.{
  Item, star, any, literal, item_of, items, matches, accepts, well_escaped, ctlesc, ctlquot,
}
use tash.Glob.Match.{Turn, mismatch, overrun, onward, anchor, switch}

abbrev pub IsSingle : Item → Type 0
IsSingle star = ⊥
IsSingle _ = Unit

pub leave : (p : List Item) (s : Text) → matches p s ≡ true → matches (star ∷ p) s ≡ true
unfolding matches
leave p [] h = h
leave p (c ∷ s) h = rw h

pub take_one :
    (p : List Item) (c : ℕ) (s : Text)
    → matches (star ∷ p) s ≡ true
    → matches (star ∷ p) (c ∷ s) ≡ true
unfolding matches
take_one p c s h = ground arith

single-nil : (t : Item) (p : List Item) → IsSingle t → matches (t ∷ p) [] ≡ false
unfolding matches
single-nil star p h = absurd h
single-nil _ p h = refl

pub single-cons :
    (t : Item) (p : List Item) (c : ℕ) (s : Text)
    → IsSingle t
    → matches (t ∷ p) (c ∷ s) ≡ (accepts t c && matches p s)
unfolding matches
single-cons star p c s h = absurd h
single-cons _ p c s h = refl

pub star-cons :
    (p : List Item) (c : ℕ) (s : Text)
    → matches (star ∷ p) (c ∷ s) ≡ (matches p (c ∷ s) || matches (star ∷ p) s)
unfolding matches
star-cons p c s = refl

pub star-nil : (p : List Item) → matches (star ∷ p) [] ≡ matches p []
unfolding matches
star-nil p = refl

-- Wherever a single item matches, the rest of the pattern begins after the first byte.
pub drop_single :
    (t : Item) (p : List Item) (c : ℕ) (s : Text)
    → IsSingle t
    → matches (star ∷ t ∷ p) (c ∷ s) ≡ true
    → matches (star ∷ p) s ≡ true
drop_single t p c [] h e = ground (
  arith,
  star-cons (t ∷ p) c [],
  single-cons t p c [] h,
  star-nil (t ∷ p),
  single-nil t p h,
  star-nil p,
)
drop_single t p c (d ∷ s) h e = ground (
  arith,
  star-cons (t ∷ p) c (d ∷ s),
  single-cons t p c (d ∷ s) h,
  leave p (d ∷ s),
  take_one p d s,
  drop_single t p d s h,
)

pub two_stars :
    (p : List Item) (s : Text) → matches (star ∷ star ∷ p) s ≡ true → matches (star ∷ p) s ≡ true
two_stars p [] e = ground (arith, star-nil (star ∷ p))
two_stars p (c ∷ s) e = ground (arith, star-cons (star ∷ p) c s, take_one p c s, two_stars p s)

-- What a turn of the switch says about the items `p` of the pattern, whose bytes behind the first
-- are `g`.
abbrev pub Explains : List Item → Text → Text → Turn → Type 0
Explains p g s mismatch = matches p s ≡ false
Explains p g s overrun = well_escaped p ≡ false
Explains p g s (onward g' s') =
    (t : Item) × (c : ℕ) × IsSingle t
    × (p ≡ t ∷ items g')
    × (s ≡ c ∷ s')
    × (accepts t c ≡ true)
    × (length g' ≤ length g)
    × (well_escaped p ≡ true → well_escaped (items g') ≡ true)
Explains p g s (anchor g') = (p ≡ star ∷ items g') × (g' ≡ g)

-- A byte that the switch takes for itself.
record IsPlain (d : ℕ) : Type 0 where
  not_any : (d == b'?') ≡ false
  not_star : (d == b'*') ≡ false
  not_quot : (d == ctlquot) ≡ false
  not_esc : (d == ctlesc) ≡ false

byte_cases : (d : ℕ) → (d ≡ b'?') ⊎ (d ≡ b'*') ⊎ (d ≡ ctlquot) ⊎ (d ≡ ctlesc) ⊎ IsPlain d
byte_cases d = elim (Bool-cases (d == b'?')) [
  | inl e ↦ inl (==→eq d _ e)
  | inr not_any ↦ inr (elim (Bool-cases (d == b'*')) [
    | inl e ↦ inl (==→eq d _ e)
    | inr not_star ↦ inr (elim (Bool-cases (d == ctlquot)) [
      | inl e ↦ inl (==→eq d _ e)
      | inr not_quot ↦ inr (elim (Bool-cases (d == ctlesc)) [
        | inl e ↦ inl (==→eq d _ e)
        | inr not_esc ↦ inr (record {
          not_any = not_any;
          not_star = not_star;
          not_quot = not_quot;
          not_esc = not_esc;
        })
      ])
    ])
  ])
]

items-plain : (d : ℕ) (g : Text) → IsPlain d → items (d ∷ g) ≡ literal d ∷ items g
unfolding items item_of
items-plain d g h = ground arith

switch-plain : (d : ℕ) (g s : Text) → IsPlain d → switch d g s ≡ switch ctlesc (d ∷ g) s
unfolding switch
switch-plain d g [] h = ground arith
switch-plain d g (c ∷ s) h = ground arith

any_case : (g s : Text) → Explains (items (b'?' ∷ g)) g s (switch b'?' g s)
unfolding items item_of switch matches accepts well_escaped
any_case g [] = refl
any_case g (c ∷ s) = (any, c, tt, refl, refl, refl, omega arith, λ w. w)

star_case : (g s : Text) → Explains (items (b'*' ∷ g)) g s (switch b'*' g s)
unfolding items item_of switch
star_case g s = (refl, refl)

quot_case : (g s : Text) → Explains (items (ctlquot ∷ g)) g s (switch ctlquot g s)
unfolding items item_of switch matches accepts
quot_case g [] = refl
quot_case g (c ∷ s) = refl

-- A byte that stands for itself, met where `glob` points behind `n` bytes.
literal-Explains :
    (d : ℕ) (g g' s : Text)
    → length g ≤ length g'
    → Explains (literal d ∷ items g) g' s (switch ctlesc (d ∷ g) s)
unfolding switch matches accepts well_escaped
literal-Explains d g g' [] h = refl
literal-Explains d g g' (c ∷ s) h = elim (Bool-cases (c == d)) [
  | inl e ↦ rw e (literal d, c, tt, refl, refl, e, h, λ w. w)
  | inr e ↦ rw (e, ◌&&◌) (rw e)
]

esc_case : (g s : Text) → Explains (items (ctlesc ∷ g)) g s (switch ctlesc g s)
unfolding items item_of switch matches accepts well_escaped
esc_case [] [] = refl
esc_case [] (c ∷ s) = refl
esc_case (d ∷ g) s = literal-Explains d g (d ∷ g) s (omega arith)

pub switch-Explains : (d : ℕ) (g s : Text) → Explains (items (d ∷ g)) g s (switch d g s)
switch-Explains d g s = elim (byte_cases d) [
  | inl e ↦ rw e (any_case g s)
  | inr (inl e) ↦ rw e (star_case g s)
  | inr (inr (inl e)) ↦ rw e (quot_case g s)
  | inr (inr (inr (inl e))) ↦ rw e (esc_case g s)
  | inr (inr (inr (inr h))) ↦
      rw (items-plain d g h) (rw (switch-plain d g s h) (literal-Explains d g g s (omega arith)))
]
