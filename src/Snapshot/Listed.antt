-- ===== src/Snapshot/Listed.antt =====
-- What the searches of biz/service/state_snapshot.go list.
use cex_hertz_backend.Base.{
  ℤ, String, str_eq, str_eq_iff, Bool, true, false, not, ◌&&◌, ◌||◌, none, some, List, [], ◌∷◌,
  ◌++◌, ◌≡◌, ◌↔◌, refl, ap, ◌∙◌, arith, Dict, lookup, eq_ℤ, eq_of_parts, keep, All, if◌then◌else◌,
  Bool-cases, Option-cases, inl, inr,
}
use cex_hertz_backend.Snapshot.Types.{OrderSnapshot, OrderBookSnapshot}
use cex_hertz_backend.Snapshot.Checksum.{leb_str, insert_sorted, sort, ids}
use cex_hertz_backend.Snapshot.Find.{
  absent, only_in_first, find_changed_orders, order_changes, compare_order_books,
}

abbrev pub contains : String → List String → Bool
contains k [] = false
contains k (x ∷ xs) = str_eq x k || contains k xs

contains-insert_sorted :
    (k x : String) (xs : List String)
    → contains k (insert_sorted leb_str x xs) ≡ (str_eq x k || contains k xs)
unfolding insert_sorted
contains-insert_sorted k x [] = refl
contains-insert_sorted k x (y ∷ ys) = elim (Bool-cases (leb_str x y)) [
  | inl t ↦ rw (insert_sorted, t) refl
  | inr f ↦ let h = contains-insert_sorted k x ys in ground arith
]

contains-sort : (k : String) (xs : List String) → contains k (sort leb_str xs) ≡ contains k xs
unfolding sort
contains-sort k [] = refl
contains-sort k (x ∷ xs) =
    contains-insert_sorted k x (sort leb_str xs) ∙ ap (λ b. str_eq x k || b) (contains-sort k xs)

contains-keep :
    (p : String → Bool) (k : String) (xs : List String)
    → contains k (keep p xs) ≡ (contains k xs && p k)
contains-keep p k [] = refl
contains-keep p k (x ∷ xs) =
    let h = contains-keep p k xs in
    elim (Bool-cases (str_eq x k)) [
      | inl y ↦
          let same : x ≡ k = (str_eq_iff x k).0 y in
          let agree : p x ≡ p k = ap p same in ground arith
      | inr n ↦ ground arith
    ]

contains-ids {ℓ} : {V : Type ℓ} (k : String) (m : Dict V) → contains k (ids m) ≡ not (absent k m)
unfolding lookup
contains-ids k [] = refl
contains-ids k ((j, v) ∷ m) = elim (Bool-cases (str_eq j k)) [
  | inl y ↦ rw (absent, lookup, y) refl
  | inr n ↦ rw (absent, lookup, n) (contains-ids k m)
]

-- A key is listed exactly when the first map has it and the second lacks it.
pub contains-only_in_first {ℓ} :
    {V : Type ℓ} (k : String) (pre post : Dict V)
    → contains k (only_in_first pre post) ≡ (not (absent k pre) && absent k post)
contains-only_in_first k pre post =
    contains-sort k (keep (λ j. absent j post) (ids pre))
    ∙ contains-keep (λ j. absent j post) k (ids pre)
    ∙ ap (λ b. b && absent k post) (contains-ids k pre)

-- What a change of an order is measured by.
abbrev pub Unchanged : OrderSnapshot → OrderSnapshot → Type 0
Unchanged a b =
    (a.price ≡ b.price)
    × (a.quantity ≡ b.quantity)
    × (a.filled_qty ≡ b.filled_qty)
    × (a.status ≡ b.status)

eq_ℤ-≡ : (a b : ℤ) → (eq_ℤ a b ≡ true) ↔ (a ≡ b)
eq_ℤ-≡ a b = (λ h. eq_of_parts a b (ground arith), λ h. rw (h) (ground arith))

-- A change that is there only when a test fails, before some others.
optional {ℓ} :
    {A : Type ℓ} (b : Bool) (x : A) (ys : List A)
    → ((if b then [] else x ∷ []) ++ ys ≡ []) ↔ ((b ≡ true) × (ys ≡ []))
optional true x ys = (λ h. (refl, h), λ h. h.1)
optional false x ys = (λ h. absurd (ground arith), λ h. absurd (ground arith))

alone {ℓ} : {A : Type ℓ} (b : Bool) (x : A) → ((if b then [] else x ∷ []) ≡ []) ↔ (b ≡ true)
alone true x = (λ h. refl, λ h. refl)
alone false x = (λ h. absurd (ground arith), λ h. absurd (ground arith))

order_changes_nil :
    (id : String) (a b : OrderSnapshot) → (order_changes id a b ≡ []) ↔ Unchanged a b
order_changes_nil id a b =
    let p = eq_ℤ-≡ a.price b.price in
    let q = eq_ℤ-≡ a.quantity b.quantity in
    let f = eq_ℤ-≡ a.filled_qty b.filled_qty in
    let s = str_eq_iff a.status b.status in
    (
      λ h.
          let h₁ = (optional (eq_ℤ a.price b.price) _ _).0 h in
          let h₂ = (optional (eq_ℤ a.quantity b.quantity) _ _).0 h₁.1 in
          let h₃ = (optional (eq_ℤ a.filled_qty b.filled_qty) _ _).0 h₂.1 in
          let h₄ = (alone (str_eq a.status b.status) _).0 h₃.1 in
          (p.0 h₁.0, q.0 h₂.0, f.0 h₃.0, s.0 h₄),
      λ h. (optional (eq_ℤ a.price b.price) _ _).1 (
        p.1 h.0,
        (optional (eq_ℤ a.quantity b.quantity) _ _).1 (
          q.1 h.1,
          (optional (eq_ℤ a.filled_qty b.filled_qty) _ _).1
              (f.1 h.2, (alone (str_eq a.status b.status) _).1 (s.1 h.3)),
        ),
      ),
    )

append_nil_iff {ℓ} : {A : Type ℓ} (xs ys : List A) → (xs ++ ys ≡ []) ↔ ((xs ≡ []) × (ys ≡ []))
append_nil_iff [] ys = (λ h. (refl, h), λ h. h.1)
append_nil_iff (x ∷ xs) ys = (λ h. absurd (ground arith), λ h. absurd (ground arith))

-- The order that stands under a key in the later map is unchanged, or there is none.
abbrev pub StillThere : Dict OrderSnapshot → String × OrderSnapshot → Type 0
StillThere post (id, a) = (b : OrderSnapshot) → lookup id post ≡ some b → Unchanged a b

-- No change of an order is listed exactly when each order of the first map that the second has too
-- has the same price, quantity, filled quantity and status there: its user, symbol and side are not
-- compared.
pub find_changed_orders_nil_iff :
    (pre post : Dict OrderSnapshot)
    → (find_changed_orders pre post ≡ []) ↔ All (StillThere post) pre
unfolding find_changed_orders
find_changed_orders_nil_iff [] post = (λ h. tt, λ h. refl)
find_changed_orders_nil_iff ((id, a) ∷ pre) post =
    let rest = find_changed_orders_nil_iff pre post in
    elim (Option-cases (lookup id post)) [
      | inl n ↦
          rw (find_changed_orders, n)
            (λ h. (λ b f. absurd (ground arith), rest.0 h), λ h. rest.1 h.1)
      | inr (b, f) ↦
          let split = append_nil_iff (order_changes id a b) (find_changed_orders pre post) in
          let own = order_changes_nil id a b in
          rw (find_changed_orders, f)
            (
              λ h. (
                λ c g. let same : b ≡ c = ground arith in rw⁻¹ (same) (own.0 ((split.0 h).0)),
                rest.0 ((split.0 h).1),
              ),
              λ h. split.1 (own.1 (h.0 b refl), rest.1 h.1),
            )
    ]

-- The comparison of two order books finds nothing exactly when their best prices, their depths and
-- their spreads are the same.
pub compare_order_books_iff :
    (a b : OrderBookSnapshot)
    → (compare_order_books a b ≡ none) ↔ (
        (a.best_bid ≡ b.best_bid)
        × (a.best_ask ≡ b.best_ask)
        × (a.bid_depth ≡ b.bid_depth)
        × (a.ask_depth ≡ b.ask_depth)
        × (a.spread ≡ b.spread))
unfolding compare_order_books
compare_order_books_iff a b = ground (
  arith,
  eq_ℤ-≡ a.best_bid b.best_bid,
  eq_ℤ-≡ a.best_ask b.best_ask,
  eq_ℤ-≡ a.bid_depth b.bid_depth,
  eq_ℤ-≡ a.ask_depth b.ask_depth,
  eq_ℤ-≡ a.spread b.spread,
)
