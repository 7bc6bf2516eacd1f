-- ===== src/Examples/Epoch.antt =====
-- Epochs at concrete inputs, over a Redis that keeps one table of fields and the times of expiry.
use cex_hertz_backend.Base.{
  ℤ, pos, ◌+ℤ◌, ◌≤ℤ◌, ◌<ℤ◌, leb_ℤ, add64, wrap, String, str_eq, str_eq_iff, Bool, true, false,
  Option, none, some, [], ◌∷◌, Dict, lookup, insert, lookup-insert, ◌≡◌, ◌≢◌, ◌↔◌, refl, arith,
  if◌then◌else◌, Bool-cases, inl, inr,
}
use cex_hertz_backend.Recovery.Lock.{Tries}
use cex_hertz_backend.Epoch.Redis.{Values, Redis, Laws, Command, h_set, expire}
use cex_hertz_backend.Epoch.Manager.{
  ok, whole, get_ownership_info, update_ownership_epoch, verify_ownership_fencing, Updated, info_of,
}
use cex_hertz_backend.Epoch.Fencing.{verify_ownership_fencing-update_ownership_epoch}
use cex_hertz_backend.Epoch.Expiry.{update_ownership_epoch_restarts}
use cex_hertz_backend.Epoch.Cache.{
  get, run, new_local_epoch_cache, sets, invalidates, latest, get-run,
}
use cex_hertz_backend.Epoch.Order.{
  order_ownership_interceptor, order_ownership_interceptor-update_ownership_epoch,
}

data Field : Type 0 where
  integer : ℤ → Field
  word : String → Field

abbrev word_of : Field → String
word_of (integer n) = ""
word_of (word s) = s

abbrev integer_of : Field → Option ℤ
integer_of (integer n) = some n
integer_of (word s) = none

abbrev values : Values
values = record {
  Value = Field;
  of_int = integer;
  of_text = word;
  text = word_of;
  scan = integer_of;
  scan-of_int = λ n. refl;
  text-of_text = λ s. refl;
}

-- The fields of each key, and the time at which they end.
record Table : Type 0 where
  fields : String → Dict Field
  ends : String → Option ℤ

abbrev at_key : {A : Type 0} → (String → A) → String → A → String → A
at_key f k a j = if str_eq k j then a else f j

abbrev over : ℤ → Option ℤ → Bool
over now none = false
over now (some end) = leb_ℤ end now

abbrev live : ℤ → String → Table → Dict Field
live now k t = if over now (t.ends k) then [] else t.fields k

abbrev run_command : ℤ → Command Field → Table → Table
run_command now (h_set k f v) t = record {
  fields = at_key t.fields k (insert f v (live now k t));
  ends = at_key t.ends k (if over now (t.ends k) then none else t.ends k);
}
run_command now (expire k ttl) t = record {
  fields = at_key t.fields k (live now k t);
  ends = at_key t.ends k (some (now +ℤ ttl));
}

abbrev redis : Redis Field
redis = record {
  Store = Table;
  run = run_command;
  h_get = λ now k f t. lookup f (live now k t);
  h_get_all = live;
}

at_key_same : {A : Type 0} (f : String → A) (k : String) (a : A) → at_key f k a k ≡ a
at_key_same f k a = rw ((str_eq_iff k k).1 refl) refl

-- A setting leaves the other fields of its key as they are, and the time at which the key ends.
live-h_set :
    (now : ℤ) (k f : String) (v : Field) (t : Table)
    → live now k (run_command now (h_set k f v) t) ≡ insert f v (live now k t)
live-h_set now k f v t = elim (Bool-cases (over now (t.ends k))) [
  | inl gone ↦
      rw
        (
          at_key_same t.ends k (if over now (t.ends k) then none else t.ends k),
          at_key_same t.fields k (insert f v (live now k t)),
          gone,
        )
        refl
  | inr here ↦
      rw
        (
          at_key_same t.ends k (if over now (t.ends k) then none else t.ends k),
          at_key_same t.fields k (insert f v (live now k t)),
          here,
          here,
        )
        refl
]

live-expire :
    (now later : ℤ) (k : String) (ttl : ℤ) (t : Table)
    → live later k (run_command now (expire k ttl) t)
      ≡ (if leb_ℤ (now +ℤ ttl) later then [] else live now k t)
live-expire now later k ttl t =
    rw (at_key_same t.ends k (some (now +ℤ ttl)), at_key_same t.fields k (live now k t)) refl

redis-Laws : Laws Field redis
redis-Laws = record {
  get-set = λ now k f v t.
      rw (live-h_set now k f v t, lookup-insert f f v (live now k t), (str_eq_iff f f).1 refl) refl;
  get-set_other = λ now k f g v t n.
      rw (live-h_set now k g v t, lookup-insert g f v (live now k t)) (other g f v _ n);
  get-expire = λ now later k f ttl t from to.
      rw (live-expire now later k ttl t) (young now later ttl f _ to);
  all_expired =
      λ now later k ttl t past. rw (live-expire now later k ttl t) (old now later ttl _ past);
  get_all = λ now k f t. refl;
}
  where
    other :
        (g f : String) (v : Field) (m : Dict Field)
        → g ≢ f
        → (if str_eq g f then some v else lookup f m) ≡ lookup f m
    other g f v m n = elim (Bool-cases (str_eq g f)) [
      | inl e ↦ absurd (n ((str_eq_iff g f).0 e))
      | inr e ↦ rw e refl
    ]

    young :
        (now later ttl : ℤ) (f : String) (m : Dict Field)
        → later <ℤ now +ℤ ttl
        → lookup f (if leb_ℤ (now +ℤ ttl) later then [] else m) ≡ lookup f m
    young now later ttl f m to = ground arith

    old :
        (now later ttl : ℤ) (m : Dict Field)
        → now +ℤ ttl ≤ℤ later
        → (if leb_ℤ (now +ℤ ttl) later then [] else m) ≡ []
    old now later ttl m past = ground arith

abbrev at_once : Tries
at_once = record { taken = λ i. true; expired = λ i. false; ended = λ i. false }

abbrev empty_table : Table
empty_table = record { fields = λ k. []; ends = λ k. none }

unowned : get_ownership_info values redis true (pos 100) "p-1" empty_table ≡ ok none
unfolding get_ownership_info info_of
unowned = refl

verify_ownership_fencing-update_ownership_epoch_example :
    let u : Updated values redis =
      update_ownership_epoch values redis at_once true whole (pos 100) "p-1" "node-a" empty_table in
    (u.failure ≡ none)
    × (u.new_epoch ≡ add64 (pos 0) (pos 1))
    × (verify_ownership_fencing values redis true (pos 200) "p-1" (pos 0) u.store
        ≡ ok (false, u.new_epoch))
    × (verify_ownership_fencing values redis true (pos 200) "p-1" u.new_epoch u.store
        ≡ ok (true, u.new_epoch))
unfolding ◌+ℤ◌
verify_ownership_fencing-update_ownership_epoch_example =
    verify_ownership_fencing-update_ownership_epoch values redis redis-Laws at_once 0 (omega arith)
      refl (pos 100) "p-1" "node-a" empty_table none unowned (λ h. h) (pos 200) (omega arith)
      (omega arith)

-- A day later the epochs start again.
update_ownership_epoch_restarts_example :
    let u : Updated values redis =
      update_ownership_epoch values redis at_once true whole (pos 100) "p-1" "node-a" empty_table in
    let u' : Updated values redis =
      update_ownership_epoch values redis at_once true whole (pos 90000) "p-1" "node-b" u.store in
    (u'.new_epoch ≡ pos 1)
    × (verify_ownership_fencing values redis true (pos 90000) "p-1" (pos 1) u'.store
        ≡ ok (true, pos 1))
unfolding ◌+ℤ◌
update_ownership_epoch_restarts_example =
    update_ownership_epoch_restarts values redis redis-Laws at_once at_once (pos 100) (pos 90000)
      "p-1" "node-a" "node-b" empty_table none refl refl unowned (λ h. h) (omega arith)

order_ownership_interceptor-update_ownership_epoch_example :
    let u : Updated values redis =
      update_ownership_epoch values redis at_once true whole (pos 100) "p-1" "node-a" empty_table in
    let r =
      order_ownership_interceptor values redis
        (λ e. "unread")
        true
        (pos 200)
        "BTCUSDT"
        "p-1"
        (pos 3)
        "node-a"
        u.store in
    (r.1 ≡ none) × ((r.0.is_fenced ≡ true) ↔ ((pos 0 <ℤ pos 3) × (pos 3 ≢ add64 (pos 0) (pos 1))))
unfolding ◌+ℤ◌
order_ownership_interceptor-update_ownership_epoch_example =
    order_ownership_interceptor-update_ownership_epoch values redis (λ e. "unread") redis-Laws
      at_once 0 (pos 100) (pos 200) "BTCUSDT" "p-1" "node-a" "node-a" (pos 3) empty_table none
      (omega arith) refl unowned (λ h. h) (omega arith) (omega arith)

get-run_example :
    get
      (pos 5)
      "p-1"
      (run (new_local_epoch_cache (pos 10)) (sets (pos 1) "p-1" (pos 7) ∷ invalidates "p-2" ∷ []))
    ≡ (pos 7, true)
unfolding latest add64 wrap ◌+ℤ◌
get-run_example =
    get-run (pos 10) (pos 5) "p-1" (sets (pos 1) "p-1" (pos 7) ∷ invalidates "p-2" ∷ [])
