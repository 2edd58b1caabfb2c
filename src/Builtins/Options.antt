-- ===== src/Builtins/Options.antt =====
-- `set` (src/builtin.c): the options, and the positional parameters. The call of `job_control_setup`
-- behind `-m` belongs to src/jobs.c and is left out.
use tash.Base.{
  ℕ, ◌-◌, Bool, true, false, not, ◌&&◌, ◌||◌, Option, none, some, List, [], ◌∷◌, ◌==◌, leb,
  if◌then◌else◌, Text, codes, same_text, length, drop,
}

-- The bits of `flags` that `set` knows: TASH_ERR_EXIT, TASH_UNSET_EXIT, TASH_JOB_CONTROL and
-- TASH_NO_GLOBING. A mask is a set of them.
pub record Flags : Type 0 where
  pub err_exit : Bool
  pub unset_exit : Bool
  pub job_control : Bool
  pub no_globing : Bool

abbrev pub no_flags : Flags
no_flags = record { err_exit = false; unset_exit = false; job_control = false; no_globing = false }

-- flags | mask
unfoldable pub set_flags : Flags → Flags → Flags
set_flags f m = record {
  err_exit = f.err_exit || m.err_exit;
  unset_exit = f.unset_exit || m.unset_exit;
  job_control = f.job_control || m.job_control;
  no_globing = f.no_globing || m.no_globing;
}

-- flags & ~mask
unfoldable pub clear_flags : Flags → Flags → Flags
clear_flags f m = record {
  err_exit = f.err_exit && not m.err_exit;
  unset_exit = f.unset_exit && not m.unset_exit;
  job_control = f.job_control && not m.job_control;
  no_globing = f.no_globing && not m.no_globing;
}

-- The letters behind the sign; `none` is an invalid one.
unfoldable pub parse_mask : Text → Flags → Option Flags
parse_mask [] m = some m
parse_mask (c ∷ cs) m =
    let e = parse_mask cs (record m { err_exit = true }) in
    let u = parse_mask cs (record m { unset_exit = true }) in
    let j = parse_mask cs (record m { job_control = true }) in
    let f = parse_mask cs (record m { no_globing = true }) in
    if c == b'e'
    then e
    else if c == b'u'
    then u
    else if c == b'm'
    then j
    else if c == b'f'
    then f
    else none

-- The flags and the positional parameters after `set`, and its status.
pub record Settings : Type 0 where
  pub flags : Flags
  pub args : List Text

-- The switch on the sign `argv[i][0]`.
unfoldable pub apply_sign : ℕ → Flags → Flags → Option Flags
unfolding set_flags clear_flags
apply_sign sign flags mask =
    if sign == b'-'
    then some (set_flags flags mask)
    else if sign == b'+'
    then some (clear_flags flags mask)
    else none

-- `argv_array`: at most 255 parameters, and of more the last ones.
unfoldable pub set_args : List Text → Settings → Settings
set_args args st = record st {
  args = if leb 256 (length args) then drop (length args - 255) args else args;
}

unfoldable pub one_option : ℕ → Text → Flags → Option Flags
unfolding parse_mask apply_sign
one_option sign letters flags = elim (parse_mask letters no_flags) [
  | none ↦ none
  | some mask ↦ apply_sign sign flags mask
]

-- A round of the loop, at one argument; `rest` are those behind it, and `on` what follows when the
-- flags are set.
unfoldable pub set_round : ℕ → Text → List Text → Settings → (Flags → Settings × ℕ) → Settings × ℕ
unfolding set_args one_option
set_round sign letters rest st on =
    if not (sign == b'-')
    then (set_args ((sign ∷ letters) ∷ rest) st, 0)
    else if same_text letters (codes "-")
    then (set_args rest st, 0)
    else (elim (one_option sign letters st.flags) [ none ↦ (st, 1) | some flags ↦ on flags ])

-- The loop over `argv[i]` and on.
unfoldable pub builtin_set : List Text → Settings → Settings × ℕ
unfolding set_round
builtin_set [] st = (set_args [] st, 0)
builtin_set ([] ∷ args) st = (set_args ([] ∷ args) st, 0)
builtin_set ((sign ∷ letters) ∷ []) st =
    set_round sign letters [] st (λ flags. (record st { flags = flags }, 0))
builtin_set ((sign ∷ letters) ∷ next ∷ more) st =
    set_round sign letters (next ∷ more) st
      (λ flags. builtin_set (next ∷ more) (record st { flags = flags }))
