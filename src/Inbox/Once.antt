-- ===== src/Inbox/Once.antt =====
-- A history of the box: `apply_pending` of src/host/inbox.rs and `prune_results` of
-- src/host/results.rs, in whatever order the daemon calls them.
use komizo.Prelude.{◌≡◌, sym, ◌⊎◌, List, [], ◌∷◌, All}
use mathlib.Core.Path.{subst}
use komizo.Inbox.Apply.{Effects, Box, AgentConf, apply_pending, prune}
use komizo.Inbox.Sound.{Held, Expired, Past, Distinct}
use komizo.Inbox.Kept.{Sound, apply_pending-Sound, prune-Sound}

-- What the daemon does with the box, in whatever order: it applies what waits, under a configuration
-- that may change, and prunes the results.
pub data Step : Type 0 where
  apply : AgentConf → Step
  pruning : Step

unfoldable pub run : {W : Type 0} → Effects W → List Step → Box W → Box W
unfolding apply_pending prune
run x [] st = st
run x (apply conf ∷ steps) st = run x steps (apply_pending x conf st)
run x (pruning ∷ steps) st = run x steps (prune x st)

pub run-Sound :
    {W : Type 0} (x : Effects W) (steps : List Step) (st : Box W)
    → Sound st
    → Sound (run x steps st)
unfolding run
run-Sound x [] st h = h
run-Sound x (apply conf ∷ steps) st h =
    run-Sound x steps (apply_pending x conf st) (apply_pending-Sound x conf st h)
run-Sound x (pruning ∷ steps) st h = run-Sound x steps (prune x st) (prune-Sound x st h)

-- However often a box that has performed nothing applies what waits in its inbox and prunes its
-- results, under whatever configurations, and whatever its inbox, its disk and its executor give
-- meanwhile, no two of the commands that it performs have the same id and expiry, provided that no
-- result it starts with is younger than the clock: a signed command is performed at most once, even
-- after its result was pruned.
pub run-Distinct :
    {W : Type 0} (x : Effects W) (steps : List Step) (st : Box W)
    → st.performed ≡ []
    → Past st.results st.now
    → Distinct (run x steps st).performed
run-Distinct x steps st idle past =
    (run-Sound x steps st (record {
      past = past;
      covered = subst (All (λ c. Held st.results c ⊎ Expired st.now c)) (sym idle) tt;
      distinct = subst Distinct (sym idle) tt;
    })).distinct
