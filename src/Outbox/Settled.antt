-- ===== src/Outbox/Settled.antt =====
-- The rows of the outbox before and behind statements.
use cex_hertz_backend.Base.{
  String, Bool, true, List, [], ◌∷◌, map, ◌≡◌, ◌⊎◌, inl, inr, ◌∙◌, refl, Bool-cases,
}
use cex_hertz_backend.Outbox.Repo.{OutboxRow, change}

-- The rows as before, in their places: a row that was published still is, and one that is new among
-- the published has an id of which `P` holds.
abbrev pub Settled : (String → Type 0) → List OutboxRow → List OutboxRow → Type 0
Settled P [] [] = Unit
Settled P [] (y ∷ ys) = ⊥
Settled P (x ∷ xs) [] = ⊥
Settled P (x ∷ xs) (y ∷ ys) =
    (y.event_id ≡ x.event_id)
    × (x.published ≡ true → y.published ≡ true)
    × (y.published ≡ true → (x.published ≡ true) ⊎ P x.event_id)
    × Settled P xs ys

pub Settled-refl : (P : String → Type 0) (xs : List OutboxRow) → Settled P xs xs
Settled-refl P [] = tt
Settled-refl P (x ∷ xs) = (refl, λ h. h, λ h. inl h, Settled-refl P xs)

pub Settled-trans :
    (P : String → Type 0) (xs ys zs : List OutboxRow)
    → Settled P xs ys
    → Settled P ys zs
    → Settled P xs zs
Settled-trans P [] [] [] h k = tt
Settled-trans P [] [] (z ∷ zs) h k = absurd k
Settled-trans P [] (y ∷ ys) zs h k = absurd h
Settled-trans P (x ∷ xs) [] zs h k = absurd h
Settled-trans P (x ∷ xs) (y ∷ ys) [] h k = absurd k
Settled-trans P (x ∷ xs) (y ∷ ys) (z ∷ zs) h k = (
  k.0 ∙ h.0,
  λ p. k.1 (h.1 p),
  λ p. elim (k.2 p) [ inl q ↦ h.2 q | inr q ↦ inr (rw h.0 at q) ],
  Settled-trans P xs ys zs h.3 k.3,
)

-- A change that is made by a test on the id, and that keeps the id and what is published.
pub Settled-map :
    (P : String → Type 0) (test : OutboxRow → Bool) (set : OutboxRow → OutboxRow)
    → ((e : OutboxRow) → (set e).event_id ≡ e.event_id)
    → ((e : OutboxRow) → e.published ≡ true → (set e).published ≡ true)
    → ((e : OutboxRow)
        → test e ≡ true
        → (set e).published ≡ true
        → (e.published ≡ true) ⊎ P e.event_id)
    → (xs : List OutboxRow) → Settled P xs (map (change test set) xs)
Settled-map P test set ids keeps new [] = tt
Settled-map P test set ids keeps new (x ∷ xs) = elim (Bool-cases (test x)) [
  | inl y ↦ rw y (ids x, keeps x, new x y, Settled-map P test set ids keeps new xs)
  | inr n ↦ rw n (refl, λ h. h, λ h. inl h, Settled-map P test set ids keeps new xs)
]

pub Settled-weaken :
    (P R : String → Type 0)
    → ((id : String) → P id → R id)
    → (xs ys : List OutboxRow) → Settled P xs ys
    → Settled R xs ys
Settled-weaken P R f [] [] h = tt
Settled-weaken P R f [] (y ∷ ys) h = absurd h
Settled-weaken P R f (x ∷ xs) [] h = absurd h
Settled-weaken P R f (x ∷ xs) (y ∷ ys) h = (
  h.0,
  h.1,
  λ p. elim (h.2 p) [ inl q ↦ inl q | inr q ↦ inr (f x.event_id q) ],
  Settled-weaken P R f xs ys h.3,
)
