-- ===== src/Pipeline/Progress.antt =====
-- What one dispatch of biz/service/event_pipeline.go leaves of the processors' progress.
use cex_hertz_backend.Base.{
  ℕ, ℤ, ◌≤◌, ◌<◌, String, str_eq, str_eq_iff, Option, none, some, List, [], ◌∷◌, ◌++◌, ◌≡◌, ◌≢◌,
  refl, sym, ap, ◌∙◌, arith, All, leb, insert, lookup, lookup_or, lookup_or-insert, if◌then◌else◌,
  ◌&&◌, Bool-cases, Option-cases, inl, inr, Dict, str_eq_refl,
}
use cex_hertz_backend.Events.Types.{MatchingEngineEvent, event_seq, symbol}
use cex_hertz_backend.EventLog.Envelope.{Json}
use cex_hertz_backend.EventLog.Store.{EventStore}
use cex_hertz_backend.Pipeline.Context.{EventContext}
use cex_hertz_backend.Pipeline.Rows.{CheckpointDb}
use cex_hertz_backend.Pipeline.Checkpoints.{CheckpointManager}
use cex_hertz_backend.Pipeline.Dispatch.{
  Processor, Dispatching, deliver, deliver_all, entry_of, set_entry, note_checkpoint, answered,
  failed_turn, progressed, noted_down, note_kafka,
}

lookup_or_there :
    (name : String) (m : Dict (Dict ℕ)) (entries : Dict ℕ)
    → lookup name m ≡ some entries
    → lookup_or [] name m ≡ entries
unfolding lookup_or
lookup_or_there name m entries h = ground arith

entry_of-set_entry :
    (name sym' name' sym'' : String) (v : ℕ) (m m' : Dict (Dict ℕ))
    → set_entry name sym' v m ≡ some m'
    → entry_of 0 name' sym'' m'
      ≡ (if str_eq name name' && str_eq sym' sym'' then v else entry_of 0 name' sym'' m)
entry_of-set_entry name s name' s' v m m' h = elim (Option-cases (lookup name m)) [
  | inl n ↦ absurd (ground arith)
  | inr (entries, f) ↦
      let now : m' ≡ insert name (insert s v entries) m = ground arith in
      let there : lookup_or [] name m ≡ entries = lookup_or_there name m entries f in
      let outer = lookup_or-insert [] name name' (insert s v entries) m in
      elim (Bool-cases (str_eq name name')) [
        | inl y ↦
            let same : name ≡ name' = (str_eq_iff name name').0 y in
            rw (now, outer, y, lookup_or-insert 0 s s' v entries, ← same, there) refl
        | inr n ↦ rw (now, outer, n) refl
      ]
]

-- The highest number of an event of the symbol that is known, `n` before and with `e` behind it.
abbrev pub highest : MatchingEngineEvent → String → ℕ → ℕ
highest e sym' n = if str_eq (symbol e) sym' && leb n (event_seq e) then event_seq e else n

module _ {J : Json} {S : EventStore J} {D : CheckpointDb} {W : Type 0} where
  -- The progress of a processor in a dispatch.
  abbrev pub at : Dispatching S D W → String → String → ℕ
  at s name sym' = entry_of 0 name sym' s.pipeline.processor_offsets

  -- How a turn of the processor `name` can end.
  pub data Ended (ectx : Option EventContext) (e : MatchingEngineEvent) (name : String)
      (s s' : Dispatching S D W) : Type 0 where
    skipped : event_seq e ≤ at s name (symbol e) → s' ≡ s → Ended ectx e name s s'
    refused :
        (error : String) (w : W) → s' ≡ failed_turn S D W name error w s → Ended ectx e name s s'
    served :
        (w : W) (offsets : Dict (Dict ℕ)) (kafka : Dict (Dict ℤ))
        (cm : Option (CheckpointManager D))
        → at s name (symbol e) < event_seq e
        → set_entry name (symbol e) (event_seq e) s.pipeline.processor_offsets ≡ some offsets
        → s' ≡ progressed S D W w offsets kafka cm s
        → Ended ectx e name s s'

  deliver-Ended :
      (now : ℤ) (ectx : Option EventContext) (e : MatchingEngineEvent) (p : Processor W)
      (s s' : Dispatching S D W)
      → deliver S D W now ectx e p s ≡ some s'
      → Ended ectx e p.processor_name s s'
  unfolding deliver
  deliver-Ended now ectx e p s s' h =
      elim (Bool-cases (leb (event_seq e) (at s p.processor_name (symbol e)))) [
        | inl y ↦ Ended.skipped (ground arith) (ground arith)
        | inr n ↦ answer (p.process_event e s.world) (ground arith) (ground arith)
      ]
    where
      written :
          (w : W) (o : Option (Dict (Dict ℕ))) (k : Option (Dict (Dict ℤ)))
          (c : Option (Option (CheckpointManager D)))
          → set_entry p.processor_name (symbol e) (event_seq e) s.pipeline.processor_offsets ≡ o
          → noted_down S D W o k c w s ≡ some s'
          → at s p.processor_name (symbol e) < event_seq e
          → Ended ectx e p.processor_name s s'
      written w none k c q h l = absurd (ground arith)
      written w (some o) none c q h l = absurd (ground arith)
      written w (some o) (some k) none q h l = absurd (ground arith)
      written w (some o) (some k) (some c) q h l = Ended.served w o k c l q (ground arith)

      answer :
          (a : Option (W × Option String))
          → answered S D W now ectx e p.processor_name s a ≡ some s'
          → at s p.processor_name (symbol e) < event_seq e
          → Ended ectx e p.processor_name s s'
      answer none h l = absurd (ground arith)
      answer (some (w, some error)) h l = Ended.refused error w (ground arith)
      answer (some (w, none)) h l =
          written w
            (set_entry p.processor_name (symbol e) (event_seq e) s.pipeline.processor_offsets)
            (note_kafka S D W ectx p.processor_name (symbol e) s.pipeline.kafka_offsets)
            (note_checkpoint S D W now ectx p.processor_name (symbol e) (event_seq e)
              s.pipeline.checkpoint_mgr)
            refl h l

  -- A turn never takes progress back.
  Ended-monotone :
      (ectx : Option EventContext) (e : MatchingEngineEvent) (name : String)
      (s s' : Dispatching S D W)
      → Ended ectx e name s s'
      → (name' sym' : String) → at s name' sym' ≤ at s' name' sym'
  Ended-monotone ectx e name s s' (skipped h q) name' sym' = rw q (omega arith)
  Ended-monotone ectx e name s s' (refused error w q) name' sym' = rw q (omega arith)
  Ended-monotone ectx e name s s' (served w offsets kafka cm h set q) name' sym' =
      let o = s.pipeline.processor_offsets in
      rw (q, entry_of-set_entry name (symbol e) name' sym' (event_seq e) o offsets set)
        (ground (arith, str_eq_iff name name', str_eq_iff (symbol e) sym'))

  Ended-highest :
      (ectx : Option EventContext) (e : MatchingEngineEvent) (name : String)
      (s s' : Dispatching S D W)
      → Ended ectx e name s s'
      → (name' sym' : String) → at s' name' sym' ≤ highest e sym' (at s name' sym')
  Ended-highest ectx e name s s' (skipped h q) name' sym' = rw q (ground arith)
  Ended-highest ectx e name s s' (refused error w q) name' sym' = rw q (ground arith)
  Ended-highest ectx e name s s' (served w offsets kafka cm h set q) name' sym' =
      let o = s.pipeline.processor_offsets in
      rw (q, entry_of-set_entry name (symbol e) name' sym' (event_seq e) o offsets set)
        (ground (arith, str_eq_iff name name', str_eq_iff (symbol e) sym'))

  -- Without an error the processor has the event behind it, and there was no error before.
  Ended-served :
      (ectx : Option EventContext) (e : MatchingEngineEvent) (name : String)
      (s s' : Dispatching S D W)
      → Ended ectx e name s s'
      → s'.errors ≡ []
      → (s.errors ≡ []) × (event_seq e ≤ at s' name (symbol e))
  Ended-served ectx e name s s' (skipped h q) n = rw q (ap (λ t. t.errors) (sym q) ∙ n, h)
  Ended-served ectx e name s s' (refused error w q) n =
      absurd (snoc (name, error) s.errors (ap (λ t. t.errors) (sym q) ∙ n))
    where
      snoc : (x : String × String) (xs : List (String × String)) → xs ++ x ∷ [] ≢ []
      snoc x [] h = ground arith
      snoc x (y ∷ ys) h = ground arith
  Ended-served ectx e name s s' (served w offsets kafka cm h set q) n =
      let o = s.pipeline.processor_offsets in
      (
        ap (λ t. t.errors) (sym q) ∙ n,
        rw
            (
              q,
              entry_of-set_entry name (symbol e) name (symbol e) (event_seq e) o offsets set,
              str_eq_refl name,
              str_eq_refl (symbol e),
            )
            (omega arith),
      )

  Ended-processors :
      (ectx : Option EventContext) (e : MatchingEngineEvent) (name : String)
      (s s' : Dispatching S D W)
      → Ended ectx e name s s'
      → s'.pipeline.processors ≡ s.pipeline.processors
  Ended-processors ectx e name s s' (skipped h q) = ap (λ t. t.pipeline.processors) q
  Ended-processors ectx e name s s' (refused error w q) = ap (λ t. t.pipeline.processors) q
  Ended-processors ectx e name s s' (served w offsets kafka cm h set q) =
      ap (λ t. t.pipeline.processors) q

  -- The processor of this name has the event behind it.
  abbrev pub Behind : MatchingEngineEvent → Dispatching S D W → Processor W → Type 0
  Behind e s p = event_seq e ≤ at s p.processor_name (symbol e)

  -- What the turns of some processors leave.
  pub record Served (e : MatchingEngineEvent) (ps : List (Processor W)) (s s' : Dispatching S D W)
      : Type 0 where
    pub monotone : (name sym' : String) → at s name sym' ≤ at s' name sym'
    pub at_most : (name sym' : String) → at s' name sym' ≤ highest e sym' (at s name sym')
    pub same_processors : s'.pipeline.processors ≡ s.pipeline.processors
    pub behind : s'.errors ≡ [] → (s.errors ≡ []) × All (Behind e s') ps

  pub deliver_all-Served :
      (now : ℤ) (ectx : Option EventContext) (e : MatchingEngineEvent) (ps : List (Processor W))
      (s s' : Dispatching S D W)
      → deliver_all S D W now ectx e ps s ≡ some s'
      → Served e ps s s'
  unfolding deliver_all
  deliver_all-Served now ectx e [] s s' h =
      let same : s' ≡ s = ground arith in
      record {
        monotone = λ name sym'. rw same (omega arith);
        at_most = λ name sym'. rw same (ground arith);
        same_processors = ap (λ t. t.pipeline.processors) same;
        behind = λ n. (ap (λ t. t.errors) (sym same) ∙ n, tt);
      }
  deliver_all-Served now ectx e (p ∷ ps) s s' h =
      elim (Option-cases (deliver S D W now ectx e p s)) [
        | inl n ↦ absurd (ground arith)
        | inr (t, f) ↦
            let ended = deliver-Ended now ectx e p s t f in
            let later = deliver_all-Served now ectx e ps t s' (ground arith) in
            record {
              monotone = λ name sym'. omega (
                arith,
                Ended-monotone ectx e p.processor_name s t ended name sym',
                later.monotone name sym',
              );
              at_most = λ name sym'. ground (
                arith,
                Ended-highest ectx e p.processor_name s t ended name sym',
                later.at_most name sym',
              );
              same_processors =
                  later.same_processors ∙ Ended-processors ectx e p.processor_name s t ended;
              behind = λ n.
                  let l = later.behind n in
                  let b = Ended-served ectx e p.processor_name s t ended l.0 in
                  (b.0, (omega (arith, b.1, later.monotone p.processor_name (symbol e)), l.1));
            }
      ]
