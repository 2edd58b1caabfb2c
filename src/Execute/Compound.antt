-- ===== src/Execute/Compound.antt =====
-- `for` and `case` (src/execute.c).
use tash.Base.{
  ℕ, suc, ◌+◌, ◌-◌, Bool, true, false, not, ◌&&◌, ◌||◌, Option, none, some, List, [], ◌∷◌, ◌==◌,
  if◌then◌else◌, Text,
}
use tash.Glob.Pattern.{ctlesc}
use tash.Glob.Match.{Verdict, verdict, out_of_bounds, out_of_fuel, glob_match}
use tash.Parser.Tree.{Word, Cases, no_cases, one_case}
use tash.Parser.Command.{is_alpha}
use tash.Builtins.State.{pos}
use tash.World.{Ended, finished, crashed, stuck, ◌>>=◌, World, set_status}
use tash.Execute.Loops.{leave, checks}
use tash.Execute.Commands.{Runner, Expansion, assign_var}

-- The rounds of `for`; only the last may do without a fork.
unfoldable pub for_rounds :
    Text → (Bool → World → Ended World) → Bool → List Text → World → Ended World
unfolding checks
for_rounds name body no_fork [] w = finished w
for_rounds name body no_fork (value ∷ values) w =
    let last : Bool = elim values [ [] ↦ true | _ ∷ _ ↦ false ] in
    body (no_fork && last) (assign_var name value false w) >>= (λ (c, r).
      let (after, c') = checks c in
      elim after [ leave ↦ finished (c', r) | _ ↦ for_rounds name body no_fork values (c', r) ])

abbrev pub has_ctlesc : Text → Bool
has_ctlesc [] = false
has_ctlesc (c ∷ cs) = c == ctlesc || has_ctlesc cs

abbrev pub starts_alpha : Text → Bool
starts_alpha [] = false
starts_alpha (c ∷ _) = is_alpha c

abbrev pub behind_for : World → World
behind_for (c, r) = (record c { loop_depth = c.loop_depth - 1 }, r)

unfoldable pub execute_for :
    Expansion → Word → List Word → (Bool → World → Ended World) → Bool → World → Ended World
unfolding for_rounds
execute_for expand var words body no_fork w =
    if var.quoted || has_ctlesc var.text || not (starts_alpha var.text)
    then finished (set_status (pos 1) w)
    else (expand words true w >>= (λ (fields, (c, r)). elim fields [
      | none ↦ finished (set_status (pos 1) (c, r))
      | some strings ↦
          for_rounds var.text body no_fork strings
            (record c { loop_depth = c.loop_depth + 1; exit_status = pos 0 }, r)
          >>= (λ w1. finished (behind_for w1))
    ]))

-- `expand_word_ctl` of a pattern; NULL is matched all the same.
abbrev pub PatternExpansion : Type 0
PatternExpansion = Word → World → Ended (Option Text × World)

abbrev pub of_verdict : Verdict → World → Ended (Bool × World)
of_verdict (verdict b) w = finished (b, w)
of_verdict out_of_bounds w = crashed
of_verdict out_of_fuel w = stuck

unfoldable pub match_patterns : PatternExpansion → List Word → Text → World → Ended (Bool × World)
unfolding glob_match
match_patterns expand [] word w = finished (false, w)
match_patterns expand (p ∷ patterns) word w = expand p w >>= (λ (pattern, w1). elim pattern [
  | none ↦ crashed
  | some text ↦ of_verdict (glob_match text word) w1 >>= (λ (matched, w2). elim matched [
    | true ↦ finished (true, w2)
    | false ↦ match_patterns expand patterns word w2
  ])
])

-- The place of the body of the i-th case is `i` below the place of the node.
unfoldable pub match_cases :
    PatternExpansion → Runner → Cases → ℕ → List ℕ → Text → Bool → World → Ended World
unfolding match_patterns
match_cases expand run no_cases i place word no_fork w = finished w
match_cases expand run (one_case patterns body cases) i place word no_fork w =
    match_patterns expand patterns word w >>= (λ (matched, w1). elim matched [
      | true ↦ run body (i ∷ place) no_fork w1
      | false ↦ match_cases expand run cases (suc i) place word no_fork w1
    ])

unfoldable pub execute_case :
    Expansion → PatternExpansion → Runner → Word → Cases → List ℕ → Bool → World → Ended World
unfolding match_cases
execute_case expand expand_pattern run word cases place no_fork w =
    expand (word ∷ []) false w >>= (λ (fields, w1). elim fields [
      | none ↦ finished (set_status (pos 1) w1)
      | some [] ↦ crashed
      | some (text ∷ _) ↦
          match_cases expand_pattern run cases 0 place text no_fork (set_status (pos 0) w1)
    ])
