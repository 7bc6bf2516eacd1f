-- ===== src/Outbox/Marked.antt =====
-- What the loop of the dispatcher over a batch keeps to mark as published.
use cex_hertz_backend.Base.{
  ℤ, String, true, false, Option, none, some, List, [], ◌∷◌, ◌++◌, map, ◌≡◌, ◌≢◌, ◌⊎◌, inl, inr, ap,
  sym, ◌∙◌, refl, arith, All, All-append, All-weaken, Bool-cases,
}
use mathlib.Core.List.{append_assoc}
use cex_hertz_backend.Outbox.Repo.{
  OutboxRow, OutboxDb, Statements, In, one_of, mark, count_error, mark_published_batch,
  record_publish_error,
}
use cex_hertz_backend.Outbox.Dispatcher.{
  Sender, Message, Outside, PublishError, OutboxDispatcher, publish_entry, publish_decoded,
  publish_to_kafka, send_with, write_message, message_for, producer_for, is_known, after_publish,
  publish_all,
}
use cex_hertz_backend.Outbox.Topic.{resolve_topic}
use cex_hertz_backend.Outbox.Settled.{Settled, Settled-refl, Settled-trans, Settled-map}

-- The ids of entries whose type is unknown and whose payload can be read.
module _ (O : Outside) where
  abbrev pub Skips : String → List OutboxRow → Type 0
  Skips id [] = ⊥
  Skips id (e ∷ es) =
      ((e.event_id ≡ id) × (is_known e.event_type ≡ false) × (O.unmarshal e.payload ≢ none))
      ⊎ Skips id es

abbrev pub keys : List Message → List String
keys ms = map (λ m. m.key) ms

In-append :
    (x : String) (ms ns : List Message) → In x (keys ms) ⊎ In x (keys ns) → In x (keys (ms ++ ns))
In-append x [] ns (inl h) = absurd h
In-append x [] ns (inr h) = h
In-append x (m ∷ ms) ns (inl (inl e)) = inl e
In-append x (m ∷ ms) ns (inl (inr h)) = inr (In-append x ms ns (inl h))
In-append x (m ∷ ms) ns (inr h) = inr (In-append x ms ns (inr h))

module _ (D : OutboxDb) (O : Outside) (text : PublishError → String) where
  -- What comes of one entry: its message was taken, or it was passed over, or there is an error.
  data Fate (e : OutboxRow) (d : OutboxDispatcher D O text)
      (r : OutboxDispatcher D O text × Option PublishError) : Type 0 where
    taken : (m : Message) → m.key ≡ e.event_id → r.1 ≡ none → r.0.sent ≡ m ∷ d.sent → Fate e d r
    passed :
        is_known e.event_type ≡ false
        → O.unmarshal e.payload ≢ none
        → r.1 ≡ none
        → r.0.sent ≡ d.sent
        → Fate e d r
    stuck : (why : PublishError) → r.1 ≡ some why → r.0.sent ≡ d.sent → Fate e d r

  send_with-Fate :
      (sender : Option Sender) (value : Option String) (e : OutboxRow) (topic : String)
      (d : OutboxDispatcher D O text)
      → Fate e d (send_with D O text sender value e topic d)
        × ((send_with D O text sender value e topic d).0.table ≡ d.table)
  unfolding send_with write_message message_for
  send_with-Fate none value e topic d = (stuck _ refl refl, refl)
  send_with-Fate (some sender) none e topic d = (stuck _ refl refl, refl)
  send_with-Fate (some sender) (some value) e topic d =
      elim (Bool-cases (sender.accepts d.attempts)) [
        | inl y ↦ rw y (taken (message_for D O text e value topic sender) refl refl refl, refl)
        | inr n ↦ rw n (stuck _ refl refl, refl)
      ]

  publish_to_kafka-Fate :
      (e : OutboxRow) (payload : O.Payload) (d : OutboxDispatcher D O text)
      → Fate e d (publish_to_kafka D O text e payload d)
        × ((publish_to_kafka D O text e payload d).0.table ≡ d.table)
  unfolding publish_to_kafka
  publish_to_kafka-Fate e payload d =
      let topic = resolve_topic O.lower O.equal_fold O.topics e in
      send_with-Fate (producer_for D O text topic d) (O.marshal payload) e topic d

  publish_entry-Fate :
      (e : OutboxRow) (d : OutboxDispatcher D O text)
      → Fate e d (publish_entry D O text e d) × ((publish_entry D O text e d).0.table ≡ d.table)
  unfolding publish_entry
  publish_entry-Fate e d = by_payload (O.unmarshal e.payload) refl
    where
      by_payload :
          (p : Option O.Payload)
          → O.unmarshal e.payload ≡ p
          → Fate e d (publish_decoded D O text e p d)
            × ((publish_decoded D O text e p d).0.table ≡ d.table)
      by_payload none q = unfold publish_decoded in (stuck _ refl refl, refl)
      by_payload (some p) q = elim (Bool-cases (is_known e.event_type)) [
        | inl y ↦ unfold publish_decoded in rw y (publish_to_kafka-Fate e p d)
        | inr n ↦ unfold publish_decoded in rw n (passed n (λ z. cc (z, q)) refl refl, refl)
      ]

  -- An id that a batch of entries may mark: its message is among the new ones, or it is passed over.
  abbrev pub Accounted : List Message → List OutboxRow → String → Type 0
  Accounted new es id = In id (keys new) ⊎ Skips O id es

  module _ (laws : Statements D) where
    -- A statement by the id of one entry.
    record_publish_error-Settled :
        (P : String → Type 0) (id message : String) (t : D.Table)
        → Settled P (D.rows t) (D.rows (record_publish_error D id message t).0)
    unfolding record_publish_error count_error
    record_publish_error-Settled P id message t =
        elim (Bool-cases (record_publish_error D id message t).1) [
          | inl y ↦
              rw (laws.updates_done _ _ t y)
                (Settled-map P _ _ (λ e. refl) (λ e h. h) (λ e _ h. inl h) (D.rows t))
          | inr n ↦ rw (laws.updates_failed _ _ t n) (Settled-refl P (D.rows t))
        ]

    pub mark_published_batch-Settled :
        (P : String → Type 0) (now : ℤ) (ids : List String) (t : D.Table)
        → ((id : String) → one_of ids id ≡ true → P id)
        → Settled P (D.rows t) (D.rows (mark_published_batch D now ids t).0)
    unfolding mark_published_batch mark
    mark_published_batch-Settled P now ids t h =
        elim (Bool-cases (mark_published_batch D now ids t).1) [
          | inl y ↦ rw (laws.updates_done _ _ t y) (
              Settled-map P _ _ (λ e. refl) (λ e _. refl) (λ e q _. inr (h e.event_id q))
                (D.rows t))
          | inr n ↦ rw (laws.updates_failed _ _ t n) (Settled-refl P (D.rows t))
        ]

    module _ (Q : String → Type 0) where
      -- What the loop over `es` from `d` on leaves, with the messages that it adds: nothing is marked
      -- yet, and the ids that it keeps are accounted for, or were kept before.
      abbrev pub Loop :
          (String → Type 0)
          → List OutboxRow
          → OutboxDispatcher D O text
          → OutboxDispatcher D O text × List String
          → Type 0
      Loop A es d r =
          (new : List Message) × (r.0.sent ≡ new ++ d.sent)
          × Settled Q (D.rows d.table) (D.rows r.0.table)
          × All (λ id. A id ⊎ Accounted new es id) r.1

      step-Loop :
          (A : String → Type 0) (e : OutboxRow) (d : OutboxDispatcher D O text) (ids : List String)
          (p : OutboxDispatcher D O text × Option PublishError)
          → Fate e d p
          → p.0.table ≡ d.table
          → All A ids
          → Loop A (e ∷ []) d (after_publish D O text e ids p)
      unfolding after_publish
      step-Loop A e d ids (d', none) (taken m k q s) same h = (
        m ∷ [],
        s,
        rw same (Settled-refl Q (D.rows d.table)),
        All-append (λ id. A id ⊎ Accounted (m ∷ []) (e ∷ []) id) ids _
            (All-weaken (λ id a. inl a) ids h) (inr (inl (inl (sym k))), tt),
      )
      step-Loop A e d ids (d', none) (passed k r q s) same h = (
        [],
        s,
        rw same (Settled-refl Q (D.rows d.table)),
        All-append (λ id. A id ⊎ Accounted [] (e ∷ []) id) ids _ (All-weaken (λ id a. inl a) ids h)
            (inr (inr (inl (refl, k, r))), tt),
      )
      step-Loop A e d ids (d', none) (stuck why q s) same h = absurd (ground arith)
      step-Loop A e d ids (d', some w) (taken m k q s) same h = absurd (ground arith)
      step-Loop A e d ids (d', some w) (passed k r q s) same h = absurd (ground arith)
      step-Loop A e d ids (d', some w) (stuck why q s) same h = (
        [],
        s,
        rw same (record_publish_error-Settled Q e.event_id (text w) d.table),
        All-weaken (λ id a. inl a) ids h,
      )

      joined :
          (A : String → Type 0) (e : OutboxRow) (es : List OutboxRow) (new more : List Message)
          (id : String)
          → (A id ⊎ Accounted new (e ∷ []) id) ⊎ Accounted more es id
          → A id ⊎ Accounted (more ++ new) (e ∷ es) id
      joined A e es new more id (inl (inl a)) = inl a
      joined A e es new more id (inl (inr (inl k))) = inr (inl (In-append id more new (inr k)))
      joined A e es new more id (inl (inr (inr (inl k)))) = inr (inr (inl k))
      joined A e es new more id (inl (inr (inr (inr k)))) = absurd k
      joined A e es new more id (inr (inl k)) = inr (inl (In-append id more new (inl k)))
      joined A e es new more id (inr (inr k)) = inr (inr (inr k))

      pub publish_all-Loop :
          (A : String → Type 0) (es : List OutboxRow) (d : OutboxDispatcher D O text)
          (ids : List String)
          → All A ids
          → Loop A es d (publish_all D O text es (d, ids))
      unfolding publish_all
      publish_all-Loop A [] d ids h =
          ([], refl, Settled-refl Q (D.rows d.table), All-weaken (λ id a. inl a) ids h)
      publish_all-Loop A (e ∷ es) d ids h =
          let f = publish_entry-Fate e d in
          let (new, sent, rows, kept) =
            step-Loop A e d ids (publish_entry D O text e d) f.0 f.1 h in
          let q = after_publish D O text e ids (publish_entry D O text e d) in
          let (more, sent', rows', kept') =
            publish_all-Loop (λ id. A id ⊎ Accounted new (e ∷ []) id) es q.0 q.1 kept in
          (
            more ++ new,
            sent' ∙ ap (λ s. more ++ s) sent ∙ sym (append_assoc more new d.sent),
            Settled-trans Q _ _ _ rows rows',
            All-weaken (λ id a. joined A e es new more id a) _ kept',
          )
