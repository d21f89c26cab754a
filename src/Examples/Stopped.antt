-- ===== src/Examples/Stopped.antt =====
-- The owner's stop at concrete inputs.
use komizo.Prelude.{◌≡◌, refl, true, Option, some, Text, codes, text_eq, is_empty}
use komizo.Prelude.Result.{ok, OfOk}
use komizo.Operation.Record.{written}
use komizo.Stopped.File.{is_stopped, mark_stopped, clear_stopped}
use komizo.Stopped.Owner.{mark_stopped-is_stopped}

abbrev running : Option Text
running = some (codes "COMPOSE=app\nSTOPPED=0\n\n")

abbrev owner : Option Text
owner =
    (mark_stopped is_empty (λ t. t) (ok tt) written (codes "2026-01-01T00:00:00Z") (codes "ann")
      running).1

owner_test : is_stopped owner ≡ ok true
unfolding mark_stopped is_stopped text_eq
owner_test = refl

cleared_test :
    (clear_stopped is_empty (λ t. t) (ok tt) written owner).1 ≡ some (codes "COMPOSE=app\n")
unfolding mark_stopped clear_stopped text_eq
cleared_test = refl

mark_stopped-is_stopped_example : OfOk (λ b. b ≡ true) (is_stopped owner)
mark_stopped-is_stopped_example =
    mark_stopped-is_stopped is_empty (λ t. t) (ok tt) written (codes "2026-01-01T00:00:00Z")
      (codes "ann") running (unfold mark_stopped in refl)
