-- ===== src/Glob/Tests.antt =====
-- `glob_match` (src/globing.c) on a small pattern.
use tash.Base.{◌≡◌, refl, true, codes}
use tash.Glob.Pattern.{item_of, items, well_escaped, matches}
use tash.Glob.Match.{glob_match, verdict}
use tash.Glob.Decides.{glob_match-matches}

glob_match-matches_example : glob_match (codes "*.?") (codes "var.c") ≡ verdict true
unfolding items matches well_escaped item_of
glob_match-matches_example = glob_match-matches (codes "*.?") (codes "var.c") refl
