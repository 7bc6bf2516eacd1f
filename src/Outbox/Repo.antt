-- ===== src/Outbox/Repo.antt =====
-- `OutboxEntry` of biz/model/outbox.go and `OutboxRepo` of biz/dal/pg/outbox_repo.go. The database is
-- a parameter, with what its statements do as laws.
use cex_hertz_backend.Base.{
  ℤ, pos, add64, ltb_ℤ, leb_ℤ, eq_ℤ, String, str_eq, Bool, true, false, not, ◌&&◌, ◌||◌, Option,
  none, some, List, [], ◌∷◌, map, ◌≡◌, ◌⊎◌, if◌then◌else◌, All,
}

-- Times are in milliseconds.
pub record OutboxRow : Type 0 where
  pub event_id : String
  pub event_type : String
  pub aggregate_id : String
  pub aggregate_type : String
  pub payload : String
  pub published : Bool
  pub published_at : Option ℤ
  pub created_at : ℤ
  pub retry_count : ℤ
  pub last_error : String

pub data Inserted : Type 0 where
  inserted conflict broken : Inserted

-- `none` and `false` are errors. The limit and the order are as the repository passes them on.
pub record OutboxDb : Type 1 where
  pub Table : Type 0
  pub rows : Table → List OutboxRow
  pub create : OutboxRow → Table → Table × Inserted
  pub create_or_nothing : OutboxRow → Table → Table × Inserted
  pub find :
      (OutboxRow → Bool) → (OutboxRow → OutboxRow → Bool) → ℤ → Table → Option (List OutboxRow)
  pub updates : (OutboxRow → Bool) → (OutboxRow → OutboxRow) → Table → Table × Bool
  pub delete : (OutboxRow → Bool) → Table → Table × Option ℤ

abbrev pub In : {A : Type 0} → A → List A → Type 0
In x [] = ⊥
In x (y ∷ ys) = (x ≡ y) ⊎ In x ys

abbrev pub change : (OutboxRow → Bool) → (OutboxRow → OutboxRow) → OutboxRow → OutboxRow
change test set e = if test e then set e else e

-- UPDATE changes the rows that pass its test, or on an error none; SELECT gives rows that pass.
pub record Statements (D : OutboxDb) : Type 0 where
  pub updates_done :
      (test : OutboxRow → Bool) (set : OutboxRow → OutboxRow) (t : D.Table)
      → (D.updates test set t).1 ≡ true
      → D.rows (D.updates test set t).0 ≡ map (change test set) (D.rows t)
  pub updates_failed :
      (test : OutboxRow → Bool) (set : OutboxRow → OutboxRow) (t : D.Table)
      → (D.updates test set t).1 ≡ false
      → D.rows (D.updates test set t).0 ≡ D.rows t
  pub find_passes :
      (test : OutboxRow → Bool) (order : OutboxRow → OutboxRow → Bool) (n : ℤ) (t : D.Table)
      (es : List OutboxRow)
      → D.find test order n t ≡ some es
      → All (λ e. (test e ≡ true) × In e (D.rows t)) es

unfoldable pub one_of : List String → String → Bool
one_of [] id = false
one_of (x ∷ xs) id = str_eq x id || one_of xs id

abbrev pub older_first : OutboxRow → OutboxRow → Bool
older_first a b = leb_ℤ a.created_at b.created_at

unfoldable pub mark : ℤ → OutboxRow → OutboxRow
mark now e = record e { published = true; published_at = some now }

unfoldable pub count_error : String → OutboxRow → OutboxRow
count_error message e = record e { retry_count = add64 e.retry_count (pos 1); last_error = message }

module _ (D : OutboxDb) where
  open D use {Table, create, create_or_nothing, find, updates, delete}

  unfoldable pub write_outbox_entry : OutboxRow → Table → Table × Bool
  write_outbox_entry e t =
      let (t', answer) = create e t in
      (t', elim answer [ inserted ↦ true | conflict ↦ false | broken ↦ false ])

  -- `none` is an error.
  unfoldable pub write_outbox_entry_if_not_exists : OutboxRow → Table → Table × Option Bool
  write_outbox_entry_if_not_exists e t =
      let (t', answer) = create_or_nothing e t in
      (t', elim answer [ inserted ↦ some true | conflict ↦ some false | broken ↦ none ])

  unfoldable pub get_unpublished : ℤ → Table → Option (List OutboxRow)
  get_unpublished limit t = find (λ e. not e.published) older_first limit t

  unfoldable pub mark_published : ℤ → String → Table → Table × Bool
  mark_published now id t = updates (λ e. str_eq e.event_id id) (mark now) t

  unfoldable pub mark_published_batch : ℤ → List String → Table → Table × Bool
  mark_published_batch now ids t = updates (λ e. one_of ids e.event_id) (mark now) t

  unfoldable pub record_publish_error : String → String → Table → Table × Bool
  record_publish_error id message t = updates (λ e. str_eq e.event_id id) (count_error message) t

  abbrev published_before : ℤ → OutboxRow → Bool
  published_before cutoff e =
      e.published && (elim (e.published_at) [ none ↦ false | some at ↦ ltb_ℤ at cutoff ])

  -- `days_before` is time.AddDate of a number of days back.
  unfoldable pub clean_published : (ℤ → ℤ → ℤ) → ℤ → ℤ → Table → Table × Option ℤ
  clean_published days_before now retention_days t =
      delete (published_before (days_before now retention_days)) t

  abbrev fewer_retries_first : OutboxRow → OutboxRow → Bool
  fewer_retries_first a b =
      ltb_ℤ a.retry_count b.retry_count || (eq_ℤ a.retry_count b.retry_count && older_first a b)

  unfoldable pub get_failed_entries : ℤ → Table → Option (List OutboxRow)
  get_failed_entries max_retries t =
      find (λ e. not e.published && ltb_ℤ e.retry_count max_retries) fewer_retries_first (pos 100) t
