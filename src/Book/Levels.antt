-- ===== src/Book/Levels.antt =====
-- The ordered map `skiplist.SkipList` of github.com/huandu/skiplist, as biz/service/orderbook.go
-- uses it. It is not part of the repository: its methods are parameters, and their documented
-- behaviour is stated over `view`, the elements from `Front()` on by `Next()`. Where a new level is put
-- is left open: a list is sorted by its comparison if its scores grow with it, and the comparators of the
-- book give the two in opposite orders.
use cex_hertz_backend.Base.{
  ℕ, ℤ, Option, none, some, List, [], ◌∷◌, ◌++◌, ◌≡◌, ◌≢◌, length, eq_ℤ, if◌then◌else◌,
}

module _ {V : Type 0} where
  abbrev pub find_level : ℤ → List (ℤ × V) → Option V
  find_level k [] = none
  find_level k ((j, v) ∷ l) = if eq_ℤ j k then some v else find_level k l

  -- The level `k` of the list, with a new value.
  abbrev pub put_level : ℤ → V → List (ℤ × V) → List (ℤ × V)
  put_level k v [] = []
  put_level k v ((j, w) ∷ l) = if eq_ℤ j k then (j, v) ∷ l else (j, w) ∷ put_level k v l

  abbrev pub delete_level : ℤ → List (ℤ × V) → List (ℤ × V)
  delete_level k [] = []
  delete_level k ((j, w) ∷ l) = if eq_ℤ j k then l else (j, w) ∷ delete_level k l

  abbrev pub first_level : List (ℤ × V) → Option (ℤ × V)
  first_level [] = none
  first_level (x ∷ l) = some x

-- `new` is given a comparison, as `skiplist.New` is.
pub record SkipList (V Comparable : Type 0) : Type 1 where
  pub Levels : Type 0
  pub new : Comparable → Levels
  pub len : Levels → ℕ
  pub front : Levels → Option (ℤ × V)
  pub get : ℤ → Levels → Option V
  pub set : ℤ → V → Levels → Levels
  pub remove : ℤ → Levels → Levels
  pub view : Levels → List (ℤ × V)
  pub view-new : (c : Comparable) → view (new c) ≡ []
  pub len-view : (l : Levels) → len l ≡ length (view l)
  pub front-view : (l : Levels) → front l ≡ first_level (view l)
  pub get-view : (k : ℤ) (l : Levels) → get k l ≡ find_level k (view l)
  pub view-set :
      (k : ℤ) (v : V) (l : Levels)
      → find_level k (view l) ≢ none
      → view (set k v l) ≡ put_level k v (view l)
  pub view-set_new :
      (k : ℤ) (v : V) (l : Levels)
      → find_level k (view l) ≡ none
      → (before : List (ℤ × V)) × (after : List (ℤ × V)) × (view l ≡ before ++ after)
        × (view (set k v l) ≡ before ++ (k, v) ∷ after)
  pub view-remove : (k : ℤ) (l : Levels) → view (remove k l) ≡ delete_level k (view l)
