-- ===== src/Examples/Protocol.antt =====
-- The protocol at concrete inputs.
use cex_hertz_backend.Base.{
  pos, ◌≤ℤ◌, String, true, false, none, some, [], ◌∷◌, ◌≡◌, ◌≢◌, refl, arith, sub64, wrap, ◌-ℤ◌,
  str_eq_iff,
}
use cex_hertz_backend.Ownership.Types.{owned, frozen, standby, whole_seconds}
use cex_hertz_backend.Ownership.Machine.{transition, start_migration, rollback}
use cex_hertz_backend.Protocol.Messages.{ok}
use cex_hertz_backend.Protocol.Handler.{start_transfer, rollback_transfer}
use cex_hertz_backend.Protocol.Order.{
  start, freezing, flushed, handing_over, committing, handle, Leads, machine_or, handle-Leads,
}
use cex_hertz_backend.Protocol.Handover.{exchange, handover}
use cex_hertz_backend.Examples.Records.{
  coordinator, clock, machine, request, freeze_signal, transfer_signal,
}

taken_example : (handle clock (pos 1) (some (machine owned none "")) (start request)).0 ≡ true
unfolding handle start_transfer start_migration transition
taken_example = refl

handle-Leads_example :
    Leads
      (start request)
      owned
      (machine_or
        (machine owned none "")
        (handle clock (pos 1) (some (machine owned none "")) (start request)).1).metadata.state
handle-Leads_example =
    handle-Leads clock (pos 1) (machine owned none "") (start request) taken_example

undone_example :
    (rollback_transfer clock (some (machine frozen none "node-b")) "node-b is down").result ≡ ok tt
unfolding rollback_transfer rollback transition
undone_example = refl

-- The freeze comes in time.
in_time_example : sub64 (pos 1000) (pos 1000) ≤ℤ whole_seconds (pos 30000000000)
unfolding sub64 wrap ◌-ℤ◌ whole_seconds
in_time_example = omega arith

other_node_example : ◌≢◌ {A = String} "node-b" "node-a"
other_node_example = λ e. let same : false ≡ true = (str_eq_iff "node-b" "node-a").1 e in cc

handover_example :
    let f = machine owned (some coordinator) "" in
    let g =
      exchange
        ((clock, pos 1, start request)
          ∷ (clock, pos 2, freezing freeze_signal)
          ∷ (clock, pos 3, flushed "node-a")
          ∷ (clock, pos 4, handing_over transfer_signal)
          ∷ (clock, pos 5, committing "node-b")
          ∷ [])
        f in
    (g.metadata.state ≡ standby)
    × (g.metadata.current_owner ≡ "node-b")
    × (g.metadata.previous_owner ≡ "node-a")
    × (g.metadata.target_owner ≡ "")
handover_example =
    handover (machine owned (some coordinator) "") coordinator "transfer-1" clock clock clock clock
      clock (pos 1) (pos 2) (pos 3) (pos 4) (pos 5) request freeze_signal "node-a" transfer_signal
      "node-b" refl refl (λ e. cc) other_node_example in_time_example (omega arith)
      (λ p s t q. refl) (λ e. cc) refl
