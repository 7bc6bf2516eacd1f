-- ===== src/Ownership/Diagram.antt =====
-- The transition diagram that the code documents in front of each guard of `registerTransitions`,
-- and what a call of `Transition` does to the machine.
use cex_hertz_backend.Base.{
  Bool, true, false, ◌≤◌, ◌-◌, pos, String, none, some, List, [], ◌∷◌, ◌++◌, ◌≡◌, ◌≢◌, arith, add64,
  length, length-append, map, length-drop, drop, drop-append, Bool-cases, Option-cases, ltb, inl,
  inr,
}
use cex_hertz_backend.Ownership.Types.{
  OwnershipState, owned, migration_pending, frozen, flushing, transferring, standby, failed,
  StateTransition, OwnershipStateMachine, Clock,
}
use cex_hertz_backend.Ownership.Guards.{Guard, guards}
use cex_hertz_backend.Ownership.Machine.{transition, limit_history}

-- The states of a migration that is under way.
abbrev pub in_transit : OwnershipState → Bool
in_transit migration_pending = true
in_transit frozen = true
in_transit flushing = true
in_transit transferring = true
in_transit _ = false

infix 40 ◌⟶◌
pub data ◌⟶◌ : OwnershipState → OwnershipState → Type 0 where
  request : owned ⟶ migration_pending
  stop_writes : migration_pending ⟶ frozen
  start_flush : frozen ⟶ flushing
  hand_over : flushing ⟶ transferring
  take_over : transferring ⟶ standby
  give_up : {s : OwnershipState} → in_transit s ≡ true → s ⟶ failed
  retry : failed ⟶ owned

ruleset edges = (request, stop_writes, start_flush, hand_over, take_over, retry)

guards-⟶ : (s t : OwnershipState) {g : Guard} → guards s t ≡ some g → s ⟶ t
unfolding guards
guards-⟶ s t h = grind (arith, edges, give_up)

transition-guarded :
    (c : Clock) (f : OwnershipStateMachine) (to : OwnershipState) (why who : String)
    → (transition c f to why who).failure ≡ none
    → (g : Guard) × (guards f.metadata.state to ≡ some g)
unfolding transition
transition-guarded c f to why who h = elim (Option-cases (guards f.metadata.state to)) [
  | inl e ↦ absurd (ground arith)
  | inr found ↦ found
]

-- A transition that the machine reports as done follows an edge of the diagram, leads to the state
-- asked for, and adds one to the version.
pub transition-⟶ :
    (c : Clock) (f : OwnershipStateMachine) (to : OwnershipState) (why who : String)
    → (transition c f to why who).failure ≡ none
    → (f.metadata.state ⟶ to)
      × ((transition c f to why who).machine.metadata.state ≡ to)
      × ((transition c f to why who).machine.metadata.version ≡ add64 f.metadata.version (pos 1))
unfolding transition
transition-⟶ c f to why who h =
    (guards-⟶ _ _ (transition-guarded c f to why who h).1, ground arith, ground arith)

-- A transition that is refused leaves the machine as it was, and no listener hears of it.
transition_refused :
    (c : Clock) (f : OwnershipStateMachine) (to : OwnershipState) (why who : String)
    → (transition c f to why who).failure ≢ none
    → ((transition c f to why who).machine ≡ f) × ((transition c f to why who).notices ≡ [])
unfolding transition
transition_refused c f to why who h = ground arith

pub limit_history-le : (h : List StateTransition) → length (limit_history h) ≤ 100
unfolding limit_history
limit_history-le h = ground (arith, length-drop (length h - 100) h)

limit_history-append :
    (h : List StateTransition) (e : StateTransition)
    → (kept : List StateTransition) × (limit_history (h ++ e ∷ []) ≡ kept ++ e ∷ [])
unfolding limit_history
limit_history-append h e = elim (Bool-cases (ltb 100 (length (h ++ e ∷ [])))) [
  | inl long ↦ (
    drop (length (h ++ e ∷ []) - 100) h,
    rw long (drop-append _ h (e ∷ []) (omega (arith, length-append h (e ∷ [])))),
  )
  | inr short ↦ (h, rw short)
]

abbrev pub entry :
    Clock → OwnershipStateMachine → OwnershipState → String → String → StateTransition
entry c f to why who = record {
  from_state = f.metadata.state;
  to_state = to;
  reason = why;
  timestamp = c.history_time;
  actor = who;
}

transition-history :
    (c : Clock) (f : OwnershipStateMachine) (to : OwnershipState) (why who : String)
    → (transition c f to why who).failure ≡ none
    → (transition c f to why who).machine.metadata.transition_history
      ≡ limit_history (f.metadata.transition_history ++ entry c f to why who ∷ [])
unfolding transition
transition-history c f to why who h = ground arith

-- A transition that is done is recorded, as the last entry of a history of at most 100 entries,
-- with the states it joins, its reason and who asked for it; and each listener is told of it once,
-- with the metadata before and after.
pub transition_recorded :
    (c : Clock) (f : OwnershipStateMachine) (to : OwnershipState) (why who : String)
    → (transition c f to why who).failure ≡ none
    → let o = transition c f to why who in
      ((kept : List StateTransition) × (o.machine.metadata.transition_history
          ≡ kept ++ entry c f to why who ∷ []))
      × (length o.machine.metadata.transition_history ≤ 100)
      × (o.notices
          ≡ map
              (λ l. record {
                listener = l;
                old_metadata = f.metadata;
                new_metadata = o.machine.metadata;
              })
              f.listeners)
unfolding transition
transition_recorded c f to why who h = (
  rw (transition-history c f to why who h) (limit_history-append _ _),
  rw (transition-history c f to why who h) (limit_history-le _),
  ground arith,
)
