-- ===== src/Recovery/Lock.antt =====
-- `RedisLockManager` of biz/service/redis_lock_manager.go. What redsync and the context answer are
-- arguments.
use cex_hertz_backend.Base.{
  ℕ, zero, suc, ◌<◌, Bool, true, false, ◌&&◌, ◌==◌, Option, none, some, ◌≡◌, ◌↔◌, ◌⊎◌, inl, inr,
  refl, arith, if◌then◌else◌, Bool-cases, not, String,
}
use Prim.Native.String.{◌++◌}

-- Of the round `i`: whether the lock was taken, whether the context had ended behind a refusal, and
-- whether it ended in the wait behind the round.
pub record Tries : Type 0 where
  pub taken : ℕ → Bool
  pub expired : ℕ → Bool
  pub ended : ℕ → Bool

pub data Acquired : Type 0 where
  locked context_expired wait_ended not_acquired : Acquired

-- The loop of WithLock from round `i` on, with `left` rounds to go; `failed` is whether `err` is set.
unfoldable pub acquire : Tries → ℕ → ℕ → Bool → Acquired
acquire tries zero i failed = if failed then not_acquired else locked
acquire tries (suc left) i failed =
    let rest = acquire tries left (suc i) true in
    if tries.taken i
    then locked
    else if tries.expired i
    then context_expired
    else if not (left == 0) && tries.ended i
    then wait_ended
    else rest

pub data Outcome {ℓ} (A : Type ℓ) : Type ℓ where
  ran : A → Outcome A
  refused : Acquired → Outcome A

abbrev answer {ℓ} : {A : Type ℓ} → Acquired → A → Outcome A
answer locked body = ran body
answer context_expired body = refused context_expired
answer wait_ended body = refused wait_ended
answer not_acquired body = refused not_acquired

-- `body` is what the function under the lock gives.
unfoldable pub with_lock {ℓ} : {A : Type ℓ} → Tries → ℕ → A → Outcome A
with_lock tries max_retries body = answer (acquire tries max_retries 0 false) body

unfoldable pub recovery_lock_key : String → String → String
recovery_lock_key processor symbol = "recovery:lock:" ++ (processor ++ (":" ++ symbol))

-- One round
unfoldable pub with_recovery_lock {ℓ} : {A : Type ℓ} → Tries → A → Outcome A
with_recovery_lock tries body = with_lock tries 1 body

-- Three rounds
unfoldable pub with_partition_ownership_update {ℓ} : {A : Type ℓ} → Tries → A → Outcome A
with_partition_ownership_update tries body = with_lock tries 3 body

-- What TryLockContext answers.
pub data TryAnswer : Type 0 where
  obtained held broken : TryAnswer

-- `none` is an error.
unfoldable pub try_lock : TryAnswer → Option Bool
try_lock obtained = some true
try_lock held = some false
try_lock broken = none

unfoldable pub is_locked : TryAnswer → Option Bool
is_locked answer = elim (try_lock answer) [ none ↦ none | some taken ↦ some (not taken) ]

-- The round `j` of those from `i` on is the first that takes the lock, and no context ends before it.
abbrev pub TakenAt : Tries → ℕ → ℕ → Type 0
TakenAt tries zero i = tries.taken i ≡ true
TakenAt tries (suc k) i =
    (tries.taken i ≡ false)
    × (tries.expired i ≡ false)
    × (tries.ended i ≡ false)
    × TakenAt tries k (suc i)

acquire-TakenAt :
    (tries : Tries) (left i : ℕ) (failed : Bool) (k : ℕ)
    → k < left
    → TakenAt tries k i
    → acquire tries left i failed ≡ locked
unfolding acquire
acquire-TakenAt tries zero i failed k l h = absurd (omega arith)
acquire-TakenAt tries (suc left) i failed zero l h = rw (acquire, h) refl
acquire-TakenAt tries (suc left) i failed (suc k) l h =
    let e = acquire-TakenAt tries left (suc i) true k (omega arith) h.3 in ground arith

TakenAt-acquire :
    (tries : Tries) (left i : ℕ)
    → acquire tries left i true ≡ locked
    → (k : ℕ) × (k < left) × TakenAt tries k i
unfolding acquire
TakenAt-acquire tries zero i h = absurd (ground arith)
TakenAt-acquire tries (suc left) i h = elim (Bool-cases (tries.taken i)) [
  | inl y ↦ (0, omega arith, y)
  | inr n ↦
      let later = TakenAt-acquire tries left (suc i) (ground arith) in
      (suc later.0, omega (arith, later.1), (n, ground arith, still left later.1 n h, later.2))
]
  where
    still :
        (left : ℕ) {k : ℕ}
        → k < left
        → tries.taken i ≡ false
        → acquire tries (suc left) i true ≡ locked
        → tries.ended i ≡ false
    still zero l n h = absurd (omega arith)
    still (suc left) l n h = elim (Bool-cases (tries.ended i)) [
      | inl y ↦ absurd (ground arith)
      | inr e ↦ e
    ]

-- With at least one round, the function under the lock runs exactly when some round takes the lock
-- and in none of the rounds before it, nor in the wait behind them, the context ends.
pub with_lock_iff {ℓ} :
    {A : Type ℓ} (tries : Tries) (max_retries : ℕ) (body : A)
    → 0 < max_retries
    → (with_lock tries max_retries body ≡ ran body)
      ↔ ((k : ℕ) × (k < max_retries) × TakenAt tries k 0)
unfolding with_lock acquire
with_lock_iff tries zero body l = absurd (omega arith)
with_lock_iff tries (suc left) body l =
    let a = acquire tries (suc left) 0 false in
    (
      λ h. TakenAt-acquire tries (suc left) 0 (opened a h),
      λ h. rw (acquire-TakenAt tries (suc left) 0 false h.0 h.1 h.2) refl,
    )
  where
    opened : (a : Acquired) → answer a body ≡ ran body → a ≡ locked
    opened locked h = refl
    opened context_expired h = absurd (ground arith)
    opened wait_ended h = absurd (ground arith)
    opened not_acquired h = absurd (ground arith)

-- The function ran, or the lock was refused.
pub with_recovery_lock-cases {ℓ} :
    {A : Type ℓ} (tries : Tries) (body : A)
    → (with_recovery_lock tries body ≡ ran body)
      ⊎ ((why : Acquired) × (with_recovery_lock tries body ≡ refused why))
unfolding with_recovery_lock with_lock
with_recovery_lock-cases tries body = by_answer (acquire tries 1 0 false)
  where
    by_answer :
        (a : Acquired)
        → (answer a body ≡ ran body) ⊎ ((why : Acquired) × (answer a body ≡ refused why))
    by_answer locked = inl refl
    by_answer context_expired = inr (context_expired, refl)
    by_answer wait_ended = inr (wait_ended, refl)
    by_answer not_acquired = inr (not_acquired, refl)
