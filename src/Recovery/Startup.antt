-- ===== src/Recovery/Startup.antt =====
-- The whole recovery of biz/service/recovery_executor.go, as main.go starts it.
use cex_hertz_backend.Base.{
  pos, false, Option, none, some, List, [], ◌∷◌, ◌≡◌, ◌↔◌, refl, sym, ap, ◌∙◌, arith, add64, ◌+ℤ◌,
  wrap, Bool-cases, Option-cases, inl, inr,
}
use cex_hertz_backend.EventLog.Envelope.{Json}
use cex_hertz_backend.EventLog.Store.{EventStore}
use cex_hertz_backend.Pipeline.Rows.{CheckpointDb}
use cex_hertz_backend.Pipeline.Checkpoints.{CheckpointManager}
use cex_hertz_backend.Pipeline.Dispatch.{EventPipeline}
use cex_hertz_backend.Recovery.Executor.{
  RecoveryOptions, RecoveryError, RecoveryResult, RecoveryItem, RecoveryExecutor, Outside,
  recover_single_processor,
}
use cex_hertz_backend.Recovery.Plan.{
  recover_all, execute_recovery, get_pending_recovery_list, total_replayed, Executed, settled,
  overall, finished, recover_listed, chosen,
}
use cex_hertz_backend.Recovery.Outcome.{recover_single_processor-Idle}

settled_replayed :
    (i : RecoveryItem) (r : RecoveryResult) (error : Option RecoveryError)
    → (error ≡ none → r.events_replayed ≡ pos 0)
    → (settled i r error).events_replayed ≡ pos 0
settled_replayed i r none h = h refl
settled_replayed i r (some error) h = refl

zero_total : add64 (pos 0) (pos 0) ≡ pos 0
unfolding add64 ◌+ℤ◌ wrap
zero_total = refl

module _ {J : Json} {S : EventStore J} {D : CheckpointDb} {W : Type 0} where
  recover_all_idle :
      (env : Outside W) (re : RecoveryExecutor S D W) (opts : RecoveryOptions)
      (is : List RecoveryItem) (ep ep' : EventPipeline S D W) (w w' : W) (rs : List RecoveryResult)
      → recover_all S D W env re opts is ep w ≡ some (ep', w', rs)
      → (ep' ≡ ep) × (w' ≡ w) × (total_replayed rs ≡ pos 0)
  unfolding recover_all
  recover_all_idle env re opts [] ep ep' w w' rs h =
      let c : rs ≡ [] = ground arith in (ground arith, ground arith, ap total_replayed c)
  recover_all_idle env re opts (i ∷ is) ep ep' w w' rs h =
      elim (Option-cases (recover_single_processor S D W env re i opts ep w)) [
        | inl n ↦ absurd (ground arith)
        | inr ((ep₁, w₁, r, error), f) ↦
            let one = recover_single_processor-Idle env re i opts ep ep₁ w w₁ r error f in
            elim (Option-cases (recover_all S D W env re opts is ep₁ w₁)) [
              | inl n ↦ absurd (ground arith)
              | inr ((ep₂, w₂, rs'), g) ↦
                  let rest = recover_all_idle env re opts is ep₁ ep₂ w₁ w₂ rs' g in
                  let a : ep' ≡ ep₂ = ground arith in
                  let b : w' ≡ w₂ = ground arith in
                  let c : rs ≡ settled i r error ∷ rs' = ground arith in
                  (
                    a ∙ rest.0 ∙ one.same_pipeline,
                    b ∙ rest.1 ∙ one.same_world,
                    ap total_replayed c
                        ∙ ap (λ x. add64 x (total_replayed rs'))
                            (settled_replayed i r error one.none_replayed)
                        ∙ ap (λ x. add64 (pos 0) x) rest.2
                        ∙ zero_total,
                  )
            ]
      ]

  -- A call of ExecuteRecovery that ends with a result has replayed no event, and has left the
  -- pipeline and the world as they were.
  pub execute_recovery_idle :
      (env : Outside W) (re re' : RecoveryExecutor S D W) (opts : Option RecoveryOptions)
      (ep ep' : EventPipeline S D W) (w w' : W) (r : RecoveryResult)
      → execute_recovery S D W env re opts ep w ≡ Executed.executed re' ep' w' r
      → (ep' ≡ ep) × (w' ≡ w) × (r.events_replayed ≡ pos 0)
  unfolding execute_recovery
  execute_recovery_idle env re re' opts ep ep' w w' r h = elim (Bool-cases re.is_recovering) [
    | inl y ↦ absurd (ground arith)
    | inr n ↦ elim (Option-cases ep.checkpoint_mgr) [
      | inl m ↦ absurd (ground arith)
      | inr (cm, f) ↦
          listed (get_pending_recovery_list S D W env.start cm (chosen opts)) (ground arith)
    ]
  ]
    where
      done :
          (o : Option (EventPipeline S D W × W × List RecoveryResult))
          → finished S D W env re o ≡ Executed.executed re' ep' w' r
          → (rs : List RecoveryResult) × (o ≡ some (ep', w', rs)) × (r ≡ overall S D W env rs)
      done none h = absurd (ground arith)
      done (some (ep₁, w₁, rs)) h = (rs, ground arith, ground arith)

      total :
          (rs : List RecoveryResult)
          → total_replayed rs ≡ pos 0
          → (overall S D W env rs).events_replayed ≡ pos 0
      total [] h = refl
      total (x ∷ rs) h = h

      listed :
          (o : Option (List RecoveryItem))
          → recover_listed S D W env re (chosen opts) ep w o ≡ Executed.executed re' ep' w' r
          → (ep' ≡ ep) × (w' ≡ w) × (r.events_replayed ≡ pos 0)
      listed none h = absurd (ground arith)
      listed (some []) h =
          let same : r ≡ overall S D W env [] = ground arith in
          (ground arith, ground arith, ap (λ x. x.events_replayed) same)
      listed (some (i ∷ is)) h =
          let d = done (recover_all S D W env re (chosen opts) (i ∷ is) ep w) h in
          let a = recover_all_idle env re (chosen opts) (i ∷ is) ep ep' w w' d.0 d.1 in
          (a.0, a.1, ap (λ x. x.events_replayed) d.2 ∙ total d.0 a.2)

  -- Without a manager of locks, as main.go builds the executor, a call of ExecuteRecovery that starts
  -- with a manager of checkpoints panics exactly when there is something to recover.
  pub execute_recovery_panics_iff :
      (env : Outside W) (re : RecoveryExecutor S D W) (opts : RecoveryOptions)
      (ep : EventPipeline S D W) (w : W) (cm : CheckpointManager D)
      → re.has_lock_mgr ≡ false
      → re.is_recovering ≡ false
      → ep.checkpoint_mgr ≡ some cm
      → (execute_recovery S D W env re (some opts) ep w ≡ Executed.panicked) ↔ (
          (i : RecoveryItem) × (is : List RecoveryItem) × (get_pending_recovery_list S D W env.start
              cm opts
            ≡ some (i ∷ is)))
  unfolding execute_recovery recover_single_processor recover_all
  execute_recovery_panics_iff env re opts ep w cm locks idle m = (
    λ h. forth (get_pending_recovery_list S D W env.start cm opts) (opened ∙ h),
    λ h. sym opened ∙ ap (λ o. recover_listed S D W env re opts ep w o) h.2 ∙ first h.0 h.1,
  )
    where
      opened :
          recover_listed S D W env re opts ep w (get_pending_recovery_list S D W env.start cm opts)
          ≡ execute_recovery S D W env re (some opts) ep w
      opened = simp (idle, m)

      first :
          (i : RecoveryItem) (is : List RecoveryItem)
          → recover_listed S D W env re opts ep w (some (i ∷ is)) ≡ Executed.panicked
      first i is = rw (locks) refl

      forth :
          (o : Option (List RecoveryItem))
          → recover_listed S D W env re opts ep w o ≡ Executed.panicked
          → (i : RecoveryItem) × (is : List RecoveryItem) × (o ≡ some (i ∷ is))
      forth none h = absurd (ground arith)
      forth (some []) h = absurd (ground arith)
      forth (some (i ∷ is)) h = (i, is, refl)
