-- ===== src/Examples/Levels.antt =====
-- A concrete ordered map with the behaviour that is asked of `skiplist.SkipList`: a list of the
-- elements, kept in the order of its comparison.
use cex_hertz_backend.Base.{
  ℤ, pos, none, some, List, [], ◌∷◌, ◌++◌, ◌≡◌, ◌≢◌, refl, ap, length, ltb_ℤ, if◌then◌else◌,
  Option-cases, Bool-cases, inl, inr,
}
use cex_hertz_backend.Book.Levels.{SkipList, find_level, put_level, delete_level, first_level}

module _ {V Comparable : Type 0} (compare : Comparable → ℤ → ℤ → ℤ) where
  place : Comparable → ℤ → V → List (ℤ × V) → List (ℤ × V)
  place c k v [] = (k, v) ∷ []
  place c k v ((j, w) ∷ l) =
      if ltb_ℤ (compare c k j) (pos 0) then (k, v) ∷ (j, w) ∷ l else (j, w) ∷ place c k v l

  place-split :
      (c : Comparable) (k : ℤ) (v : V) (l : List (ℤ × V))
      → (before : List (ℤ × V)) × (after : List (ℤ × V)) × (l ≡ before ++ after)
        × (place c k v l ≡ before ++ (k, v) ∷ after)
  unfolding place
  place-split c k v [] = ([], [], refl, refl)
  place-split c k v ((j, w) ∷ l) = elim (Bool-cases (ltb_ℤ (compare c k j) (pos 0))) [
    | inl y ↦ ([], (j, w) ∷ l, refl, rw y refl)
    | inr n ↦
        let (before, after, e, f) = place-split c k v l in
        ((j, w) ∷ before, after, ap (λ t. (j, w) ∷ t) e, rw n (ap (λ t. (j, w) ∷ t) f))
  ]

  pub put : ℤ → V → Comparable × List (ℤ × V) → Comparable × List (ℤ × V)
  unfolding place
  put k v (c, l) = elim (find_level k l) [
    | none ↦ (c, place c k v l)
    | some old ↦ (c, put_level k v l)
  ]

  pub put_found :
      (k : ℤ) (v : V) (m : Comparable × List (ℤ × V))
      → find_level k m.1 ≢ none
      → (put k v m).1 ≡ put_level k v m.1
  unfolding put
  put_found k v (c, l) h = elim (Option-cases (find_level k l)) [
    | inl n ↦ absurd (h n)
    | inr (old, f) ↦ rw (put, f) refl
  ]

  pub put_new :
      (k : ℤ) (v : V) (m : Comparable × List (ℤ × V))
      → find_level k m.1 ≡ none
      → (before : List (ℤ × V)) × (after : List (ℤ × V)) × (m.1 ≡ before ++ after)
        × ((put k v m).1 ≡ before ++ (k, v) ∷ after)
  unfolding put
  put_new k v (c, l) h = rw (put, h) (place-split c k v l)

  unfoldable pub sorted_list : SkipList V Comparable
  unfolding put
  sorted_list = record {
    Levels = Comparable × List (ℤ × V);
    new = λ c. (c, []);
    len = λ m. length m.1;
    front = λ m. first_level m.1;
    get = λ k m. find_level k m.1;
    set = put;
    remove = λ k m. (m.0, delete_level k m.1);
    view = λ m. m.1;
    view-new = λ c. refl;
    len-view = λ m. refl;
    front-view = λ m. refl;
    get-view = λ k m. refl;
    view-set = put_found;
    view-set_new = put_new;
    view-remove = λ k m. refl;
  }
