-- ===== src/Epoch/Cache.antt =====
-- `LocalEpochCache` of biz/service/ownership_epoch_manager.go. The clock is an argument of each call,
-- in nanoseconds.
use cex_hertz_backend.Base.{
  ℤ, pos, add64, ltb_ℤ, String, str_eq, Bool, true, false, Option, none, some, List, [], ◌∷◌, Dict,
  lookup, lookup_or, insert, erase, lookup-insert, lookup-erase, ◌≡◌, ap, inl, inr, Bool-cases,
  refl, if◌then◌else◌,
}

pub record LocalEpochCache : Type 0 where
  pub cache : Dict ℤ
  pub expires_at : Dict ℤ
  pub ttl : ℤ

unfoldable pub new_local_epoch_cache : ℤ → LocalEpochCache
new_local_epoch_cache ttl = record { cache = []; expires_at = []; ttl = ttl }

unfoldable pub get : ℤ → String → LocalEpochCache → ℤ × Bool
get now p c = elim (lookup p c.expires_at) [
  | none ↦ (pos 0, false)
  | some expire_time ↦
      if ltb_ℤ now expire_time then (lookup_or (pos 0) p c.cache, true) else (pos 0, false)
]

unfoldable pub set : ℤ → String → ℤ → LocalEpochCache → LocalEpochCache
set now p epoch c = record c {
  cache = insert p epoch c.cache;
  expires_at = insert p (add64 now c.ttl) c.expires_at;
}

unfoldable pub invalidate : String → LocalEpochCache → LocalEpochCache
invalidate p c = record c { cache = erase p c.cache; expires_at = erase p c.expires_at }

unfoldable pub invalidate_all : LocalEpochCache → LocalEpochCache
invalidate_all c = record c { cache = []; expires_at = [] }

pub data Call : Type 0 where
  sets : (now : ℤ) → (partition : String) → (epoch : ℤ) → Call
  invalidates : (partition : String) → Call
  clears : Call

unfoldable pub step : LocalEpochCache → Call → LocalEpochCache
step c (sets now p epoch) = set now p epoch c
step c (invalidates p) = invalidate p c
step c clears = invalidate_all c

unfoldable pub run : LocalEpochCache → List Call → LocalEpochCache
run c [] = c
run c (call ∷ calls) = run (step c call) calls

pub record Entry : Type 0 where
  pub epoch : ℤ
  pub since : ℤ

-- What the calls leave of one partition: its last setting, if no call has taken it back.
abbrev after : String → Option Entry → Call → Option Entry
after p e (sets now q epoch) =
    if str_eq q p then some (record { epoch = epoch; since = now }) else e
after p e (invalidates q) = if str_eq q p then none else e
after p e clears = none

unfoldable pub latest : String → Option Entry → List Call → Option Entry
latest p e [] = e
latest p e (call ∷ calls) = latest p (after p e call) calls

abbrev until : ℤ → Option Entry → Option ℤ
until ttl none = none
until ttl (some e) = some (add64 e.since ttl)

abbrev epoch_in : Option Entry → Option ℤ
epoch_in none = none
epoch_in (some e) = some e.epoch

record Agrees (ttl : ℤ) (p : String) (c : LocalEpochCache) (e : Option Entry) : Type 0 where
  ttls : c.ttl ≡ ttl
  epochs : lookup p c.cache ≡ epoch_in e
  times : lookup p c.expires_at ≡ until ttl e

step-Agrees :
    (ttl : ℤ) (p : String) (c : LocalEpochCache) (e : Option Entry) (call : Call)
    → Agrees ttl p c e
    → Agrees ttl p (step c call) (after p e call)
unfolding step set invalidate invalidate_all
step-Agrees ttl p c e (sets now q epoch) a = elim (Bool-cases (str_eq q p)) [
  | inl y ↦ rw y (record {
    ttls = a.ttls;
    epochs = rw (lookup-insert q p epoch c.cache, y) refl;
    times =
        rw (lookup-insert q p (add64 now c.ttl) c.expires_at, y)
          (ap (λ t. some (add64 now t)) a.ttls);
  })
  | inr n ↦ rw n (record {
    ttls = a.ttls;
    epochs = rw (lookup-insert q p epoch c.cache, n) a.epochs;
    times = rw (lookup-insert q p (add64 now c.ttl) c.expires_at, n) a.times;
  })
]
step-Agrees ttl p c e (invalidates q) a = elim (Bool-cases (str_eq q p)) [
  | inl y ↦ rw y (record {
    ttls = a.ttls;
    epochs = rw (lookup-erase q p c.cache, y) refl;
    times = rw (lookup-erase q p c.expires_at, y) refl;
  })
  | inr n ↦ rw n (record {
    ttls = a.ttls;
    epochs = rw (lookup-erase q p c.cache, n) a.epochs;
    times = rw (lookup-erase q p c.expires_at, n) a.times;
  })
]
step-Agrees ttl p c e clears a = record {
  ttls = a.ttls;
  epochs = unfold lookup in refl;
  times = unfold lookup in refl;
}

run-Agrees :
    (ttl : ℤ) (p : String) (calls : List Call) (c : LocalEpochCache) (e : Option Entry)
    → Agrees ttl p c e
    → Agrees ttl p (run c calls) (latest p e calls)
unfolding run latest
run-Agrees ttl p [] c e a = a
run-Agrees ttl p (call ∷ calls) c e a =
    run-Agrees ttl p calls (step c call) (after p e call) (step-Agrees ttl p c e call a)

abbrev read_at : ℤ → ℤ → Option Entry → ℤ × Bool
read_at ttl now none = (pos 0, false)
read_at ttl now (some e) = if ltb_ℤ now (add64 e.since ttl) then (e.epoch, true) else (pos 0, false)

get-Agrees :
    (ttl now : ℤ) (p : String) (c : LocalEpochCache) (e : Option Entry)
    → Agrees ttl p c e
    → get now p c ≡ read_at ttl now e
unfolding get lookup_or add64
get-Agrees ttl now p c none a = rw (a.times, get) refl
get-Agrees ttl now p c (some e) a = rw (a.times, a.epochs, get, lookup_or) refl

-- Behind any calls on a new cache, a read of a partition gives the epoch of its last setting while
-- that is younger than the time to live and no invalidation has come after it, and else a miss.
pub get-run :
    (ttl now : ℤ) (p : String) (calls : List Call)
    → get now p (run (new_local_epoch_cache ttl) calls) ≡ read_at ttl now (latest p none calls)
unfolding new_local_epoch_cache
get-run ttl now p calls = get-Agrees ttl now p _ (latest p none calls) (
    run-Agrees ttl p calls (new_local_epoch_cache ttl) none
      (record { ttls = refl; epochs = unfold lookup in refl; times = unfold lookup in refl }))
