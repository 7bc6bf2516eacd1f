-- ===== src/Examples/Ownership.antt =====
-- The ownership machine at concrete inputs.
use cex_hertz_backend.Base.{pos, none, some, [], ◌∷◌, ◌≡◌, ◌≢◌, refl, add64}
use cex_hertz_backend.Ownership.Types.{owned, migration_pending, transferring, new_machine}
use cex_hertz_backend.Ownership.Machine.{transition, start_migration, commit}
use cex_hertz_backend.Ownership.Diagram.{◌⟶◌, transition-⟶}
use cex_hertz_backend.Ownership.Calls.{starts, processes, checkpoints, commits, step, run}
use cex_hertz_backend.Ownership.Invariant.{Inv, OwnerMove, run-new_machine-Inv, step-OwnerMove}
use cex_hertz_backend.Ownership.Migration.{start_migration-commit}
use cex_hertz_backend.Examples.Records.{coordinator, clock, machine}

-- A transition that is done.
done_example :
    (transition clock (machine owned none "node-b") migration_pending "move" "ops").failure ≡ none
unfolding transition
done_example = refl

transition-⟶_example :
    (owned ⟶ migration_pending)
    × ((transition clock
          (machine owned none "node-b")
          migration_pending
          "move"
          "ops").machine.metadata.state
        ≡ migration_pending)
    × ((transition clock
          (machine owned none "node-b")
          migration_pending
          "move"
          "ops").machine.metadata.version
        ≡ add64 (pos 4) (pos 1))
transition-⟶_example =
    transition-⟶ clock (machine owned none "node-b") migration_pending "move" "ops" done_example

-- A transition that is refused: the target is the owner itself.
refused_example :
    (transition clock (machine owned none "node-a") migration_pending "move" "ops").failure ≢ none
unfolding transition
refused_example = λ e. cc

run-new_machine-Inv_example : Inv (
    run (new_machine (pos 1) none "p-1" "node-a" []) (
      (clock, processes (pos 7))
      ∷ (clock, checkpoints (pos 5))
      ∷ (clock, starts "node-b" "ops")
      ∷ []))
run-new_machine-Inv_example = run-new_machine-Inv (pos 1) none "p-1" "node-a" [] (
    (clock, processes (pos 7)) ∷ (clock, checkpoints (pos 5)) ∷ (clock, starts "node-b" "ops") ∷ [])

step-OwnerMove_example :
    OwnerMove
      (machine transferring (some coordinator) "node-b")
      (step (machine transferring (some coordinator) "node-b") (clock, commits "node-b"))
step-OwnerMove_example =
    step-OwnerMove (machine transferring (some coordinator) "node-b") (clock, commits "node-b")

start_migration-commit_example :
    let f = machine transferring none "node-b" in
    let g = (start_migration clock f "node-c" "ops").machine in
    ((start_migration clock f "node-c" "ops").failure ≢ none)
    × ((commit clock g "node-b").failure ≡ none)
    × ((commit clock g "node-b").machine.metadata.current_owner ≡ "node-c")
start_migration-commit_example =
    start_migration-commit clock clock (machine transferring none "node-b") "node-c" "ops" "node-b"
      refl refl
