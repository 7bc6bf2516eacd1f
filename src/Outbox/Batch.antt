-- ===== src/Outbox/Batch.antt =====
-- What a batch of the dispatcher marks as published.
use cex_hertz_backend.Base.{
  ℤ, String, str_eq, str_eq_iff, true, false, not, Option, none, some, List, [], ◌∷◌, ◌++◌, ◌≡◌,
  ◌≢◌, ◌⊎◌, inl, inr, ◌∙◌, refl, All, All-weaken, Bool-cases,
}
use cex_hertz_backend.Outbox.Repo.{OutboxRow, OutboxDb, Statements, In, one_of, get_unpublished}
use cex_hertz_backend.Outbox.Dispatcher.{
  Message, Outside, PublishError, OutboxDispatcher, is_known, publish_all, mark_successful,
  dispatch_entries, dispatch_batch,
}
use cex_hertz_backend.Outbox.Settled.{Settled, Settled-refl, Settled-trans, Settled-weaken}
use cex_hertz_backend.Outbox.Marked.{
  Skips, keys, Accounted, mark_published_batch-Settled, Loop, publish_all-Loop,
}

Skips-In :
    (O : Outside) (id : String) (e : OutboxRow) (xs : List OutboxRow)
    → In e xs
    → (e.event_id ≡ id) × (is_known e.event_type ≡ false) × (O.unmarshal e.payload ≢ none)
    → Skips O id xs
Skips-In O id e [] h k = absurd h
Skips-In O id e (x ∷ xs) (inl q) k = inl (rw q at k)
Skips-In O id e (x ∷ xs) (inr h) k = inr (Skips-In O id e xs h k)

All-one_of :
    (P : String → Type 0) (ids : List String)
    → All P ids
    → (id : String) → one_of ids id ≡ true
    → P id
unfolding one_of
All-one_of P [] h id q = absurd (cc)
All-one_of P (x ∷ xs) h id q = elim (Bool-cases (str_eq x id)) [
  | inl y ↦ rw ((str_eq_iff x id).0 y) at h.0
  | inr n ↦ All-one_of P xs h.1 id (rw n at q)
]

module _ (D : OutboxDb) (O : Outside) (text : PublishError → String) (laws : Statements D) where
  -- The marking of what the loop kept, all of which `P` holds.
  mark_successful-Settled :
      (P : String → Type 0) (now : ℤ) (r : OutboxDispatcher D O text × List String)
      → All P r.1
      → Settled P (D.rows r.0.table) (D.rows (mark_successful D O text now r).table)
        × ((mark_successful D O text now r).sent ≡ r.0.sent)
  unfolding mark_successful
  mark_successful-Settled P now (d, []) h = (Settled-refl P (D.rows d.table), refl)
  mark_successful-Settled P now (d, id ∷ ids) h = (
    mark_published_batch-Settled D O text laws P now (id ∷ ids) d.table (All-one_of P (id ∷ ids) h),
    refl,
  )

  Skips-rows :
      (id : String) (es xs : List OutboxRow)
      → All (λ e. (not e.published ≡ true) × In e xs) es
      → Skips O id es
      → Skips O id xs
  Skips-rows id [] xs h k = absurd k
  Skips-rows id (e ∷ es) xs h (inl k) = Skips-In O id e xs h.0.1 k
  Skips-rows id (e ∷ es) xs h (inr k) = Skips-rows id es xs h.1 k

  abbrev Marks : List Message → OutboxDispatcher D O text → String → Type 0
  Marks new d id = In id (keys new) ⊎ Skips O id (D.rows d.table)

  marked_lem :
      (now : ℤ) (d : OutboxDispatcher D O text) (es : List OutboxRow)
      → All (λ e. (not e.published ≡ true) × In e (D.rows d.table)) es
      → Loop D O text laws (λ _. ⊥) (λ _. ⊥) es d (publish_all D O text es (d, []))
      → let d' = mark_successful D O text now (publish_all D O text es (d, [])) in
        (new : List Message) × (d'.sent ≡ new ++ d.sent)
        × Settled (Marks new d) (D.rows d.table) (D.rows d'.table)
  marked_lem now d es passing (new, sent, rows, kept) =
      let r = publish_all D O text es (d, []) in
      let m = mark_successful-Settled (Marks new d) now r (All-weaken (allowed new) r.1 kept) in
      (
        new,
        m.1 ∙ sent,
        Settled-trans (Marks new d) _ _ _
            (Settled-weaken (λ _. ⊥) (Marks new d) (λ id k. absurd k) _ _ rows) m.0,
      )
    where
      allowed :
          (new : List Message) (id : String) → ⊥ ⊎ Accounted D O text new es id → Marks new d id
      allowed new id (inl k) = absurd k
      allowed new id (inr (inl k)) = inl k
      allowed new id (inr (inr k)) = inr (Skips-rows id es (D.rows d.table) passing k)

  -- Behind a batch, the rows are those from before in their places, and a row that was published
  -- still is. One that is newly published has the id of a message that a sender took in this batch,
  -- or that of a row whose type the dispatcher does not know and whose payload it can read; that is
  -- so whichever requests to the database and to the senders fail.
  pub dispatch_batch-Settled :
      (now : ℤ) (d : OutboxDispatcher D O text)
      → (new : List Message) × ((dispatch_batch D O text now d).sent ≡ new ++ d.sent)
        × Settled
            (λ id. In id (keys new) ⊎ Skips O id (D.rows d.table))
            (D.rows d.table)
            (D.rows (dispatch_batch D O text now d).table)
  unfolding dispatch_batch
  dispatch_batch-Settled now d = by_found (get_unpublished D d.batch_size d.table) refl
    where
      by_found :
          (found : Option (List OutboxRow))
          → get_unpublished D d.batch_size d.table ≡ found
          → (new : List Message) × ((dispatch_entries D O text now found d).sent ≡ new ++ d.sent)
            × Settled
                (λ id. In id (keys new) ⊎ Skips O id (D.rows d.table))
                (D.rows d.table)
                (D.rows (dispatch_entries D O text now found d).table)
      by_found none q = unfold dispatch_entries in ([], refl, Settled-refl _ (D.rows d.table))
      by_found (some []) q = unfold dispatch_entries in ([], refl, Settled-refl _ (D.rows d.table))
      by_found (some (e ∷ es)) q =
          let l = publish_all-Loop D O text laws (λ _. ⊥) (λ _. ⊥) (e ∷ es) d [] tt in
          let passing : All (λ e. (not e.published ≡ true) × In e (D.rows d.table)) (e ∷ es) =
            unfold get_unpublished in laws.find_passes _ _ _ d.table (e ∷ es) q in
          marked_lem now d (e ∷ es) passing l
