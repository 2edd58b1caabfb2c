-- ===== src/Builtins/Laws.antt =====
-- What `set` and `break` (src/builtin.c) keep and what they do not.
use tash.Base.{
  ℕ, ◌<◌, ◌≡◌, refl, sym, inl, inr, Bool, true, false, ◌||◌, Option, none, some, List, [], ◌∷◌,
  ◌==◌, if_intro, Text, codes, same_text, arith, Bool-cases, Option-cases,
}
use tash.Builtins.State.{pos, exceeds, Control, Strtol}
use tash.Builtins.Control.{builtin_break}
use tash.Builtins.Options.{
  Flags, no_flags, Settings, set_flags, parse_mask, apply_sign, one_option, set_args, set_round,
  builtin_set,
}

-- Every flag that is set in the one is set in the other.
pub record KeepsFlags (f g : Flags) : Type 0 where
  pub err_exit : f.err_exit ≡ true → g.err_exit ≡ true
  pub unset_exit : f.unset_exit ≡ true → g.unset_exit ≡ true
  pub job_control : f.job_control ≡ true → g.job_control ≡ true
  pub no_globing : f.no_globing ≡ true → g.no_globing ≡ true

KeepsFlags-refl : (f : Flags) → KeepsFlags f f
KeepsFlags-refl f = record {
  err_exit = λ h. h;
  unset_exit = λ h. h;
  job_control = λ h. h;
  no_globing = λ h. h;
}

KeepsFlags-set_flags : (f m : Flags) → KeepsFlags f (set_flags f m)
unfolding set_flags
KeepsFlags-set_flags f m = record {
  err_exit = λ h. ground arith;
  unset_exit = λ h. ground arith;
  job_control = λ h. ground arith;
  no_globing = λ h. ground arith;
}

KeepsFlags-trans : (f g h : Flags) → KeepsFlags f g → KeepsFlags g h → KeepsFlags f h
KeepsFlags-trans f g h p q = record {
  err_exit = λ e. q.err_exit (p.err_exit e);
  unset_exit = λ e. q.unset_exit (p.unset_exit e);
  job_control = λ e. q.job_control (p.job_control e);
  no_globing = λ e. q.no_globing (p.no_globing e);
}

abbrev OptionKeeps : Flags → Option Flags → Type 0
OptionKeeps f none = Unit
OptionKeeps f (some g) = KeepsFlags f g

-- The flags after a call of `set`, against those before.
abbrev pub Keeps : Settings → Settings × ℕ → Type 0
Keeps st r = KeepsFlags st.flags r.0.flags

-- Past the test of its first byte, an option can only set flags.
one_option-KeepsFlags :
    (sign : ℕ) (letters : Text) (f : Flags)
    → (sign == b'-') ≡ true
    → (o : Option Flags) × (one_option sign letters f ≡ o) × OptionKeeps f o
unfolding one_option apply_sign
one_option-KeepsFlags sign letters f e = elim (Option-cases (parse_mask letters no_flags)) [
  | inl h ↦ (none, ground arith, tt)
  | inr (m, h) ↦ (some (set_flags f m), ground arith, KeepsFlags-set_flags f m)
]

module _ (sign : ℕ) (letters : Text) (rest : List Text) (st : Settings) (on : Flags → Settings × ℕ)
    (next : (g : Flags) → KeepsFlags st.flags g → KeepsFlags st.flags (on g).0.flags) where
  after_option :
      (o : Option Flags)
      → OptionKeeps st.flags o
      → Keeps st (elim o [ none ↦ (st, 1) | some flags ↦ on flags ])
  after_option none h = KeepsFlags-refl st.flags
  after_option (some g) h = next g h

  set_round-Keeps : Keeps st (set_round sign letters rest st on)
  unfolding set_round set_args
  set_round-Keeps = elim (Bool-cases (sign == b'-')) [
    | inr e ↦ rw e (KeepsFlags-refl st.flags)
    | inl e ↦ rw e (
        if_intro (Keeps st) (same_text letters (codes "-")) _ _ (λ _. KeepsFlags-refl st.flags)
          (λ _.
            let (o, h, k) = one_option-KeepsFlags sign letters st.flags e in
            rw h (after_option o k)))
  ]

builtin_set-KeepsFlags : (args : List Text) (st : Settings) → Keeps st (builtin_set args st)
unfolding builtin_set set_args
builtin_set-KeepsFlags [] st = KeepsFlags-refl st.flags
builtin_set-KeepsFlags ([] ∷ args) st = KeepsFlags-refl st.flags
builtin_set-KeepsFlags ((sign ∷ letters) ∷ []) st =
    set_round-Keeps sign letters [] st (λ flags. (record st { flags = flags }, 0)) (λ g h. h)
builtin_set-KeepsFlags ((sign ∷ letters) ∷ next ∷ more) st =
    set_round-Keeps sign letters (next ∷ more) st
      (λ flags. builtin_set (next ∷ more) (record st { flags = flags }))
      (λ g h.
        KeepsFlags-trans st.flags g _ h
          (builtin_set-KeepsFlags (next ∷ more) (record st { flags = g })))

or_absorbs : (a b : Bool) → (a ≡ true → b ≡ true) → (a || b) ≡ b
or_absorbs true b h = sym (h refl)
or_absorbs false b h = refl

set_flags-kept : (f g : Flags) → KeepsFlags f g → set_flags f g ≡ g
unfolding set_flags
set_flags-kept f g k = λ i. record {
  err_exit = or_absorbs f.err_exit g.err_exit k.err_exit i;
  unset_exit = or_absorbs f.unset_exit g.unset_exit k.unset_exit i;
  job_control = or_absorbs f.job_control g.job_control k.job_control i;
  no_globing = or_absorbs f.no_globing g.no_globing k.no_globing i;
}

-- No call of `set`, whatever its arguments, clears a flag: to set the flags before it again changes
-- nothing in those after it.
pub builtin_set-Keeps :
    (args : List Text) (st : Settings)
    → set_flags st.flags (builtin_set args st).0.flags ≡ (builtin_set args st).0.flags
builtin_set-Keeps args st =
    set_flags-kept st.flags (builtin_set args st).0.flags (builtin_set-KeepsFlags args st)

module _ (strtol : Strtol) where
  -- A `break` in a loop that reports success asks to leave no more loops than there are.
  pub builtin_break-clamps :
      (args : List Text) (c : Control)
      → 0 < c.loop_depth
      → (builtin_break strtol args c).1 ≡ pos 0
      → exceeds (builtin_break strtol args c).0.break_depth c.loop_depth ≡ false
  unfolding builtin_break
  builtin_break-clamps [] c h e = ground arith
  builtin_break-clamps (a ∷ []) c h e = ground arith
  builtin_break-clamps (a ∷ b ∷ rest) c h e = ground arith
