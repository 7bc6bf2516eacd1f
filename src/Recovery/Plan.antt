-- ===== src/Recovery/Plan.antt =====
-- What there is to recover, and the whole recovery: ShouldRecover, getPendingRecoveryList and
-- ExecuteRecovery of biz/service/recovery_executor.go.
use cex_hertz_backend.Base.{
  ℤ, pos, String, Bool, true, false, Option, none, some, List, [], ◌∷◌, ◌++◌, map, add64, sub64,
  if◌then◌else◌, length, ◌&&◌,
}
use cex_hertz_backend.EventLog.Envelope.{Json}
use cex_hertz_backend.EventLog.Store.{EventStore}
use cex_hertz_backend.Pipeline.Rows.{CheckpointDb, get_recovery_context}
use cex_hertz_backend.Pipeline.Checkpoints.{CheckpointManager, list_pending_recovery_items}
use cex_hertz_backend.Pipeline.Dispatch.{EventPipeline}
use cex_hertz_backend.Recovery.Executor.{
  RecoveryOptions, RecoveryError, RecoveryResult, RecoveryStats, RecoveryItem, RecoveryExecutor,
  Outside, default_options, empty_result, recover_single_processor,
}

abbrev pub nonempty {ℓ} : {A : Type ℓ} → List A → Bool
nonempty [] = false
nonempty (x ∷ xs) = true

-- The result of a failed item is a new one.
abbrev pub settled : RecoveryItem → RecoveryResult → Option RecoveryError → RecoveryResult
settled i r none = r
settled i r (some error) = record (empty_result (pos 0) i.processor_name i.symbol) {
  validation_error = some error;
}

abbrev pub total_replayed : List RecoveryResult → ℤ
total_replayed [] = pos 0
total_replayed (r ∷ rs) = add64 r.events_replayed (total_replayed rs)

abbrev pub all_valid : List RecoveryResult → Bool
all_valid [] = true
all_valid (r ∷ rs) = r.is_valid && all_valid rs

abbrev pub chosen : Option RecoveryOptions → RecoveryOptions
chosen none = default_options
chosen (some opts) = opts

module _ {J : Json} (S : EventStore J) (D : CheckpointDb) (W : Type 0) where
  unfoldable pub new_recovery_executor : ℤ → Bool → Bool → RecoveryExecutor S D W
  new_recovery_executor now locks log = record {
    has_lock_mgr = locks;
    has_event_log = log;
    stats = record {
      total_recovery_time = pos 0;
      processors_recovered = pos 0;
      events_processed = pos 0;
      state_validated = false;
      last_recovery_time = pos 0;
    };
    last_recovery_time = now;
    is_recovering = false;
  }

  -- The items for a nil manager are none. `none` is an error.
  unfoldable pub should_recover_with_list :
      Option (CheckpointManager D) → Option (Bool × List (String × String))
  should_recover_with_list none = some (false, [])
  should_recover_with_list (some cm) = elim (list_pending_recovery_items D cm) [
    | none ↦ none
    | some items ↦ some (nonempty items, items)
  ]

  unfoldable pub should_recover : Option (CheckpointManager D) → Option Bool
  should_recover none = some false
  should_recover (some cm) = elim (list_pending_recovery_items D cm) [
    | none ↦ none
    | some items ↦ some (nonempty items)
  ]

  abbrev item : String → String → RecoveryItem
  item processor name = record { processor_name = processor; symbol = name }

  -- The inner loop: a symbol whose context cannot be read is left out.
  unfoldable pub named_symbols : ℤ → CheckpointManager D → String → List String → List RecoveryItem
  named_symbols now cm processor [] = []
  named_symbols now cm processor (s ∷ ss) = elim (get_recovery_context D now processor s cm.table) [
    | none ↦ named_symbols now cm processor ss
    | some c ↦ item processor s ∷ named_symbols now cm processor ss
  ]

  unfoldable pub named_items :
      ℤ → CheckpointManager D → List String → List String → List RecoveryItem
  named_items now cm [] ss = []
  named_items now cm (p ∷ ps) ss = named_symbols now cm p ss ++ named_items now cm ps ss

  -- `none` is an error.
  unfoldable pub get_pending_recovery_list :
      ℤ → CheckpointManager D → RecoveryOptions → Option (List RecoveryItem)
  unfolding named_items
  get_pending_recovery_list now cm opts =
      if nonempty opts.processor_names && nonempty opts.symbols
      then some (named_items now cm opts.processor_names opts.symbols)
      else elim (list_pending_recovery_items D cm) [
        | none ↦ none
        | some items ↦ some (map (λ i. item i.0 i.1) items)
      ]

  -- The recovery of every item, and the results in the items' order.
  unfoldable pub recover_all :
      Outside W
      → RecoveryExecutor S D W
      → RecoveryOptions
      → List RecoveryItem
      → EventPipeline S D W
      → W
      → Option (EventPipeline S D W × W × List RecoveryResult)
  recover_all env re opts [] ep w = some (ep, w, [])
  recover_all env re opts (i ∷ is) ep w = elim (recover_single_processor S D W env re i opts ep w) [
    | none ↦ none
    | some (ep', w', r, error) ↦ elim (recover_all env re opts is ep' w') [
      | none ↦ none
      | some (ep'', w'', rs) ↦ some (ep'', w'', settled i r error ∷ rs)
    ]
  ]

  -- The result of the whole: that of the first item, with the total and the verdict on all.
  abbrev pub overall : Outside W → List RecoveryResult → RecoveryResult
  overall env [] = record (empty_result env.start "" "") {
    is_valid = true;
    recovery_end = env.end_time;
  }
  overall env (r ∷ rs) = record r {
    events_replayed = total_replayed (r ∷ rs);
    is_valid = all_valid (r ∷ rs);
  }

  abbrev pub count_stats :
      Outside W → List RecoveryResult → RecoveryExecutor S D W → RecoveryExecutor S D W
  count_stats env rs re = record re {
    stats = record (re.stats) {
      total_recovery_time = sub64 env.end_time env.start;
      processors_recovered = pos (length rs);
      events_processed = total_replayed rs;
      last_recovery_time = env.end_time;
    };
    last_recovery_time = env.end_time;
  }

  -- What is left of the executor, the pipeline and the world, and the result or the error.
  pub data Executed : Type 0 where
    panicked : Executed
    executed : RecoveryExecutor S D W → EventPipeline S D W → W → RecoveryResult → Executed
    failed : RecoveryExecutor S D W → EventPipeline S D W → W → RecoveryError → Executed

  abbrev pub finished :
      Outside W
      → RecoveryExecutor S D W
      → Option (EventPipeline S D W × W × List RecoveryResult)
      → Executed
  finished env re none = panicked
  finished env re (some (ep, w, rs)) = executed (count_stats env rs re) ep w (overall env rs)

  -- Whether the pending list is empty decides between the early return and the recovery.
  abbrev pub recover_listed :
      Outside W
      → RecoveryExecutor S D W
      → RecoveryOptions
      → EventPipeline S D W
      → W
      → Option (List RecoveryItem)
      → Executed
  recover_listed env re opts ep w none = failed re ep w RecoveryError.list_unreadable
  recover_listed env re opts ep w (some []) = executed re ep w (overall env [])
  recover_listed env re opts ep w (some (i ∷ is)) =
      finished env re (recover_all env re opts (i ∷ is) ep w)

  -- The flag is set at the start and reset at the end, so that it is unset behind each call that had
  -- to set it. A nil manager of checkpoints panics.
  unfoldable pub execute_recovery :
      Outside W
      → RecoveryExecutor S D W
      → Option RecoveryOptions
      → EventPipeline S D W
      → W
      → Executed
  unfolding recover_all get_pending_recovery_list
  execute_recovery env re opts ep w =
      if re.is_recovering
      then failed re ep w RecoveryError.already_in_progress
      else elim (ep.checkpoint_mgr) [
        | none ↦ panicked
        | some cm ↦
            recover_listed env re (chosen opts) ep w
              (get_pending_recovery_list env.start cm (chosen opts))
      ]

  unfoldable pub get_recovery_stats : RecoveryExecutor S D W → RecoveryStats
  get_recovery_stats re = re.stats
