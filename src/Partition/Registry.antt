-- ===== src/Partition/Registry.antt =====
-- The ownership machines that a round of the aware engine leaves registered.
use cex_hertz_backend.Base.{
  ℤ, String, str_eq, str_eq_iff, str_eq_refl, Bool, true, false, not, ◌&&◌, ◌||◌, Option, none,
  some, List, [], ◌∷◌, Dict, lookup, lookup-insert, lookup-erase, ◌≡◌, ◌≢◌, refl, ap, ◌∙◌, arith,
  if◌then◌else◌, Bool-cases, Option-cases, inl, inr,
}
use cex_hertz_backend.Ownership.Machine.{set_transfer_coordinator}
use cex_hertz_backend.Ownership.Types.{OwnershipStateMachine, TransferCoordinator, new_machine}
use cex_hertz_backend.Partition.Table.{Partition}
use cex_hertz_backend.Partition.Manager.{
  PartitionManager, get_partition_table, get_ownership_fsm, or_nil, register_ownership_fsm,
  unregister_ownership_fsm, list_registered_fsms,
}
use cex_hertz_backend.Partition.Symbols.{contains}
use cex_hertz_backend.Partition.Aware.{
  PartitionAwareMatchEngine, turn, claim, take_over, curr_owned, give_up,
}

-- Some entry of the table for the partition has the node among its workers.
abbrev pub owns : String → String → Dict Partition → Bool
owns addr pid [] = false
owns addr pid ((k, p) ∷ ps) = (str_eq k pid && contains addr p.workers) || owns addr pid ps

contains-curr_owned :
    (addr pid : String) (ps : Dict Partition) → contains pid (curr_owned addr ps) ≡ owns addr pid ps
unfolding curr_owned
contains-curr_owned addr pid [] = refl
contains-curr_owned addr pid ((k, p) ∷ ps) = ground (arith, contains-curr_owned addr pid ps)

-- What is registered stays.
abbrev Keeps : PartitionManager → PartitionManager → String → Type 0
Keeps pm pm' pid =
    (f : OwnershipStateMachine)
    → get_ownership_fsm pid pm ≡ some f
    → get_ownership_fsm pid pm' ≡ some f

-- A machine as it is registered.
abbrev placed : OwnershipStateMachine → PartitionManager → OwnershipStateMachine
placed f pm = elim (pm.transfer_coord) [ none ↦ f | some tc ↦ set_transfer_coordinator f (some tc) ]

get-register :
    (pid j : String) (f : OwnershipStateMachine) (pm : PartitionManager)
    → get_ownership_fsm j (register_ownership_fsm pid (some f) pm)
      ≡ (if str_eq pid j then some (placed f pm) else get_ownership_fsm j pm)
unfolding get_ownership_fsm register_ownership_fsm
get-register pid j f pm =
    ap or_nil (lookup-insert pid j (some (placed f pm)) pm.ownership_fsms) ∙ by_key (str_eq pid j)
  where
    by_key :
        (b : Bool)
        → or_nil (if b then some (some (placed f pm)) else lookup j pm.ownership_fsms)
          ≡ (if b then some (placed f pm) else or_nil (lookup j pm.ownership_fsms))
    by_key true = refl
    by_key false = refl

claimed-Keeps :
    (pid j : String) (f : OwnershipStateMachine) (pm : PartitionManager)
    → get_ownership_fsm pid pm ≡ none
    → Keeps pm (register_ownership_fsm pid (some f) pm) j
claimed-Keeps pid j f pm e g h = elim (Bool-cases (str_eq pid j)) [
  | inl y ↦ absurd (clash ((str_eq_iff pid j).0 y))
  | inr n ↦ rw (get-register pid j f pm, n) h
]
  where
    clash : pid ≡ j → ⊥
    clash q = cc (ap (λ k. get_ownership_fsm k pm) q, e, h)

claim_lem :
    (now : ℤ) (tc : Option TransferCoordinator) (addr pid : String) (p : Partition)
    (pm : PartitionManager) (j : String)
    → Keeps pm (claim now tc addr pid p pm) j
      × (get_ownership_fsm pid (claim now tc addr pid p pm) ≢ none)
unfolding claim
claim_lem now tc addr pid p pm j = elim (Option-cases (get_ownership_fsm pid pm)) [
  | inl e ↦
      let f = new_machine now tc pid addr p.symbols in
      rw (e, claim)
        (claimed-Keeps pid j f pm e, λ h. cc (h, get-register pid pid f pm, str_eq_refl pid))
  | inr (g, e) ↦ rw (e, claim) (λ f h. h, λ h. cc (h, e))
]

take_over_lem :
    (now : ℤ) (tc : Option TransferCoordinator) (addr : String) (ps : Dict Partition)
    (pm : PartitionManager) (j : String)
    → Keeps pm (take_over now tc addr ps pm) j
      × (owns addr j ps ≡ true → get_ownership_fsm j (take_over now tc addr ps pm) ≢ none)
unfolding take_over
take_over_lem now tc addr [] pm j = (λ f h. h, λ h. absurd (cc))
take_over_lem now tc addr ((k, p) ∷ ps) pm j = elim (Bool-cases (contains addr p.workers)) [
  | inl w ↦
      let c = claim_lem now tc addr k p pm j in
      let rest = take_over_lem now tc addr ps (claim now tc addr k p pm) j in
      rw w (
        λ f h. rest.0 f (c.0 f h),
        λ h. elim (Bool-cases (str_eq k j)) [
          | inl y ↦ stays (claim now tc addr k p pm) _ rest.0 (λ e.
              c.1 (
                ap (λ i. get_ownership_fsm i (claim now tc addr k p pm)) ((str_eq_iff k j).0 y)
                ∙ e))
          | inr n ↦ rest.1 (ground arith)
        ],
      )
  | inr n ↦
      let rest = take_over_lem now tc addr ps pm j in rw n (rest.0, λ h. rest.1 (ground arith))
]
  where
    stays :
        (pm pm' : PartitionManager)
        → Keeps pm pm' j
        → get_ownership_fsm j pm ≢ none
        → get_ownership_fsm j pm' ≢ none
    stays pm pm' keeps some_ e = elim (Option-cases (get_ownership_fsm j pm)) [
      | inl h ↦ some_ h
      | inr (f, h) ↦ cc (keeps f h, e)
    ]

-- The keys of a registry.
abbrev listed : String → Dict (Option OwnershipStateMachine) → Bool
listed pid [] = false
listed pid ((k, f) ∷ fsms) = str_eq k pid || listed pid fsms

lookup-listed :
    (pid : String) (fsms : Dict (Option OwnershipStateMachine))
    → listed pid fsms ≡ false
    → lookup pid fsms ≡ none
unfolding lookup
lookup-listed pid [] h = refl
lookup-listed pid ((k, f) ∷ fsms) h = ground (arith, lookup-listed pid fsms)

give_up_lem :
    (owned : List String) (registered : Dict (Option OwnershipStateMachine)) (pm : PartitionManager)
    (j : String)
    → lookup j (give_up owned registered pm).ownership_fsms
      ≡ (if listed j registered && not (contains j owned) then none else lookup j pm.ownership_fsms)
unfolding give_up unregister_ownership_fsm
give_up_lem owned [] pm j = refl
give_up_lem owned ((k, f) ∷ registered) pm j = ground (
  arith,
  give_up_lem owned registered (if contains k owned then pm else unregister_ownership_fsm k pm) j,
  lookup-erase k j pm.ownership_fsms,
  str_eq_iff k j,
)

-- With all that are registered looked through, what is not owned is gone and the rest is kept.
give_up_all :
    (owned : List String) (pm : PartitionManager) (j : String)
    → lookup j (give_up owned (list_registered_fsms pm) pm).ownership_fsms
      ≡ (if contains j owned then lookup j pm.ownership_fsms else none)
unfolding list_registered_fsms
give_up_all owned pm j =
    ground (arith, give_up_lem owned pm.ownership_fsms pm j, lookup-listed j pm.ownership_fsms)

get-give_up :
    (owned : List String) (pm : PartitionManager) (j : String)
    → contains j owned ≡ true
    → get_ownership_fsm j (give_up owned (list_registered_fsms pm) pm) ≡ get_ownership_fsm j pm
unfolding get_ownership_fsm
get-give_up owned pm j h =
    ap or_nil {y = lookup j pm.ownership_fsms} (give_up_all owned pm j ∙ rw h refl)

-- Behind a round of the loop a machine is registered for exactly those partitions that the table
-- gives to this node; one that was registered before is kept as it is.
pub turn_registry :
    (now : ℤ) (tc : Option TransferCoordinator) (pa : PartitionAwareMatchEngine) (pid : String)
    → let pm' = (turn now tc pa).pm in
      let mine = owns pa.local_addr pid (pa.pm.cache).partitions in
      (mine ≡ false → lookup pid pm'.ownership_fsms ≡ none)
      × (mine ≡ true
          → (f : OwnershipStateMachine) × (get_ownership_fsm pid pm' ≡ some f)
            × ((g : OwnershipStateMachine) → get_ownership_fsm pid pa.pm ≡ some g → f ≡ g))
unfolding turn get_partition_table
turn_registry now tc pa pid =
    let parts = (pa.pm.cache).partitions in
    let taken = take_over now tc pa.local_addr parts pa.pm in
    let t = take_over_lem now tc pa.local_addr parts pa.pm pid in
    let left = give_up_all (curr_owned pa.local_addr parts) taken pid in
    let c = contains-curr_owned pa.local_addr pid parts in
    (
      λ h. ground (arith, left, c),
      λ h.
          let same = get-give_up (curr_owned pa.local_addr parts) taken pid (c ∙ h) in
          elim (Option-cases (get_ownership_fsm pid taken)) [
            | inl e ↦ absurd (t.1 h e)
            | inr (f, e) ↦ (f, same ∙ e, λ g k. cc (t.0 g k, e))
          ],
    )
