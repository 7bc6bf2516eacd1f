-- ===== src/NodeIds/Invariant.antt =====
-- What holds of the nodes' numbers while nodes and requests interleave: a view of the cluster by the
-- stage and the entry of each node, and the index and the number of the counter.
use cex_hertz_backend.Base.{
  ℕ, ◌+◌, ◌≤◌, ◌<◌, Option, none, some, ◌≡◌, ◌≢◌, ◌⊎◌, inl, inr, ap, sym, ◌∙◌, refl, arith,
}
use mathlib.Core.Logic.{if_pos, if_neg}
use native.Mathlib.Decide.{ℕ_discrete}
use cex_hertz_backend.NodeIds.Manager.{Stage}
use cex_hertz_backend.NodeIds.Cluster.{update}

pub update_same {ℓ} : {A : Type ℓ} (f : ℕ → A) (i : ℕ) (a : A) → update f i a i ≡ a
update_same f i a = if_pos (ℕ_discrete i i) refl a (f i)

pub update_other {ℓ} :
    {A : Type ℓ} (f : ℕ → A) (i : ℕ) (a : A) (j : ℕ) → i ≢ j → update f i a j ≡ f j
update_other f i a j n = if_neg (ℕ_discrete i j) n a (f j)

-- The number that a node has, or is about to save.
abbrev pub held : Stage → Option ℕ → Option ℕ
held Stage.idle entry = entry
held Stage.querying entry = entry
held (Stage.counting attempt) entry = entry
held (Stage.swapping attempt current index) entry = entry
held (Stage.saving id) entry = some id
held (Stage.returned id) entry = entry
held (Stage.failed why) entry = entry

-- What a stage owes to the node's entry, and to the index and the number of the counter.
abbrev pub Fits : Stage → Option ℕ → ℕ → ℕ → Type 0
Fits Stage.idle entry index count = Unit
Fits Stage.querying entry index count = Unit
Fits (Stage.counting attempt) entry index count = entry ≡ none
Fits (Stage.swapping attempt current seen) entry index count =
    (entry ≡ none) × (current ≤ 1023) × (seen ≤ index) × (seen ≡ index → current ≡ count)
Fits (Stage.saving id) entry index count = entry ≡ none
Fits (Stage.returned id) entry index count = entry ≡ some id
Fits (Stage.failed why) entry index count = Unit

pub record View : Type 0 where
  pub stage : ℕ → Stage
  pub entry : ℕ → Option ℕ
  pub index : ℕ
  pub count : ℕ

abbrev pub holds : View → ℕ → Option ℕ
holds v i = held (v.stage i) (v.entry i)

pub record Inv (v : View) : Type 0 where
  pub low : 1 ≤ v.count
  pub high : v.count ≤ 1024
  pub drawn : (i a : ℕ) → holds v i ≡ some a → (1 ≤ a) × (a < v.count)
  pub unique : (i j a : ℕ) → holds v i ≡ some a → holds v j ≡ some a → i ≡ j
  pub fits : (i : ℕ) → Fits (v.stage i) (v.entry i) v.index v.count

-- The counter rests and the node keeps its number or loses it, or the counter goes up by one and the
-- node may have what it stood at.
abbrev pub Effect : Option ℕ → ℕ → ℕ → Option ℕ → ℕ → ℕ → Type 0
Effect h index count h' index' count' =
    ((index' ≡ index) × (count' ≡ count) × ((h' ≡ h) ⊎ (h' ≡ none)))
    ⊎ ((index < index') × (count' ≡ count + 1) × (count ≤ 1023) × ((h' ≡ some count) ⊎ (h' ≡ h)))

-- A step of the node `i`: its effect, and all else as before.
pub record Moves (v w : View) (i : ℕ) : Type 0 where
  pub effect : Effect (holds v i) v.index v.count (holds w i) w.index w.count
  pub fit : Fits (w.stage i) (w.entry i) w.index w.count
  pub stages : (j : ℕ) → i ≢ j → w.stage j ≡ v.stage j
  pub entries : (j : ℕ) → i ≢ j → w.entry j ≡ v.entry j

Fits-later :
    (s : Stage) (entry : Option ℕ) (x c x' c' : ℕ)
    → Fits s entry x c
    → ((x' ≡ x) × (c' ≡ c)) ⊎ (x < x')
    → Fits s entry x' c'
Fits-later Stage.idle entry x c x' c' f h = tt
Fits-later Stage.querying entry x c x' c' f h = tt
Fits-later (Stage.counting attempt) entry x c x' c' f h = f
Fits-later (Stage.swapping attempt current seen) entry x c x' c' f (inl h) =
    (f.0, f.1, omega (arith, f.2, h.0), λ e. f.3 (e ∙ h.0) ∙ sym h.1)
Fits-later (Stage.swapping attempt current seen) entry x c x' c' f (inr h) =
    (f.0, f.1, omega (arith, f.2, h), λ e. absurd (omega (arith, f.2, h, e)))
Fits-later (Stage.saving id) entry x c x' c' f h = f
Fits-later (Stage.returned id) entry x c x' c' f h = f
Fits-later (Stage.failed why) entry x c x' c' f h = tt

module _ {v w : View} {i : ℕ} (inv : Inv v) (m : Moves v w i) where
  same : (j : ℕ) → i ≢ j → holds w j ≡ holds v j
  same j n = rw (m.stages j n, m.entries j n) refl

  grown : (v.count ≤ w.count) × (w.count ≤ 1024)
  grown = elim m.effect [
    | inl e ↦ (omega (arith, e.1), omega (arith, e.1, inv.high))
    | inr e ↦ (omega (arith, e.1), omega (arith, e.1, e.2))
  ]

  -- What a node has behind the step it had before, or it is the number that the counter gave.
  origin :
      (j a : ℕ)
      → holds w j ≡ some a
      → (holds v j ≡ some a) ⊎ ((i ≡ j) × (a ≡ v.count) × (w.count ≡ v.count + 1))
  origin j a h = elim (ℕ_discrete i j) [
    | no n ↦ inl (sym (same j n) ∙ h)
    | yes e ↦ elim m.effect [
      | inl (x, c, inl k) ↦ inl (moved j e k h)
      | inl (x, c, inr k) ↦ absurd (gone j e k h)
      | inr (x, c, l, inl k) ↦ inr (e, given j e k h, c)
      | inr (x, c, l, inr k) ↦ inl (moved j e k h)
    ]
  ]
    where
      moved : (j : ℕ) → i ≡ j → holds w i ≡ holds v i → holds w j ≡ some a → holds v j ≡ some a
      moved j e k h = cc

      gone : (j : ℕ) → i ≡ j → holds w i ≡ none → holds w j ≡ some a → ⊥
      gone j e k h = cc

      given : (j : ℕ) → i ≡ j → holds w i ≡ some v.count → holds w j ≡ some a → a ≡ v.count
      given j e k h = cc

  fresh : (j : ℕ) → holds v j ≢ some v.count
  fresh j h = absurd (omega (arith, inv.drawn j v.count h))

  pub Moves-Inv : Inv w
  Moves-Inv = record {
    low = omega (arith, inv.low, grown);
    high = grown.1;
    drawn = λ j a h. elim (origin j a h) [
      | inl k ↦ let d = inv.drawn j a k in (d.0, omega (arith, d.1, grown))
      | inr k ↦ (omega (arith, inv.low, k.1), omega (arith, k.1, k.2))
    ];
    unique = λ j k a hj hk. elim (origin j a hj) [
      | inl pj ↦ elim (origin k a hk) [
        | inl pk ↦ inv.unique j k a pj pk
        | inr nk ↦ absurd (fresh j (pj ∙ ap some nk.1))
      ]
      | inr nj ↦ elim (origin k a hk) [
        | inl pk ↦ absurd (fresh k (pk ∙ ap some nj.1))
        | inr nk ↦ sym nj.0 ∙ nk.0
      ]
    ];
    fits = λ j. elim (ℕ_discrete i j) [
      | yes e ↦ rw (← e) m.fit
      | no n ↦
          rw (m.stages j n, m.entries j n)
            (Fits-later (v.stage j) (v.entry j) v.index v.count w.index w.count (inv.fits j) passed)
    ];
  }
    where
      passed : ((w.index ≡ v.index) × (w.count ≡ v.count)) ⊎ (v.index < w.index)
      passed = elim m.effect [ inl e ↦ inl (e.0, e.1) | inr e ↦ inr e.0 ]
