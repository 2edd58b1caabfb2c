-- ===== src/Start/Command.antt =====
-- `tash -c command` (src/main.c).
use tash.Base.{
  ◌≡◌, refl, ap, ◌∙◌, Bool, Option, none, some, List, [], ◌∷◌, ◌++◌, Text, codes, arith,
}
use tash.Start.Options.{
  Start, stopped, Long, go_on, show_version, show_help, reject, read_option, scan, run_command,
  launch_from, starts_login, launch,
}

scan-append :
    (opts args : List Text) (st st' : Start)
    → scan opts st ≡ stopped st' []
    → scan (opts ++ args) st ≡ scan args st'
unfolding scan
scan-append [] args st st' e = let same : st ≡ st' = ground arith in ap (scan args) same
scan-append (opt ∷ opts) args st st' e =
    behind (read_option opt st) refl (λ st1. scan-append opts args st1 st')
  where
    behind :
        (o : Option Long)
        → read_option opt st ≡ o
        → ((st1 : Start) → scan opts st1 ≡ stopped st' [] → scan (opts ++ args) st1 ≡ scan args st')
        → scan (opt ∷ (opts ++ args)) st ≡ scan args st'
    behind none q ih = absurd (ground (arith, q))
    behind (some (go_on st1)) q ih =
        let rest : scan opts st1 ≡ stopped st' [] = ground (arith, q) in
        let step : scan (opt ∷ (opts ++ args)) st ≡ scan (opts ++ args) st1 = ground (arith, q) in
        step ∙ ih st1 rest
    behind (some show_version) q ih = absurd (ground (arith, q))
    behind (some show_help) q ih = absurd (ground (arith, q))
    behind (some reject) q ih = absurd (ground (arith, q))

-- argv[2], for options before the -c.
abbrev pub third : List Text → Text → Text
third [] command = command
third (o ∷ []) command = codes "-c"
third (o ∷ p ∷ opts) command = p

-- Where nothing but options stands before -c, the argument behind it is evaluated if there are no
-- options; behind one option -c itself is evaluated as a command, and behind more the second option.
pub launch-command :
    (argv0 command : Text) (opts args : List Text) (tty : Bool) (st : Start)
    → scan opts (starts_login argv0) ≡ stopped st []
    → launch argv0 (opts ++ (codes "-c" ∷ command ∷ args)) tty ≡ run_command (third opts command) st
unfolding launch scan read_option launch_from
launch-command argv0 command [] args tty st e =
    let same : starts_login argv0 ≡ st = ground arith in ap (run_command command) same
launch-command argv0 command (o ∷ []) args tty st e =
    ap (launch_from (o ∷ codes "-c" ∷ command ∷ args) tty)
      (scan-append (o ∷ []) (codes "-c" ∷ command ∷ args) (starts_login argv0) st e)
launch-command argv0 command (o ∷ p ∷ opts) args tty st e =
    ap (launch_from (o ∷ p ∷ (opts ++ (codes "-c" ∷ command ∷ args))) tty)
      (scan-append (o ∷ p ∷ opts) (codes "-c" ∷ command ∷ args) (starts_login argv0) st e)
