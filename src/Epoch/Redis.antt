-- ===== src/Epoch/Redis.antt =====
-- Redis as biz/service/ownership_epoch_manager.go uses it: hashes of fields, with a time at which a
-- key expires. It is a parameter, with what its commands do as laws.
use cex_hertz_backend.Base.{
  ℤ, ◌+ℤ◌, ◌≤ℤ◌, ◌<ℤ◌, String, Option, some, List, [], ◌∷◌, Dict, lookup, ◌≡◌, ◌≢◌,
}

-- The values of the fields, with fmt's %d. `of_int` and `of_text` are what the client writes for an
-- integer and for a text.
pub record Values : Type 1 where
  pub Value : Type 0
  pub of_int : ℤ → Value
  pub of_text : String → Value
  pub text : Value → String
  pub scan : Value → Option ℤ
  pub scan-of_int : (n : ℤ) → scan (of_int n) ≡ some n
  pub text-of_text : (s : String) → text (of_text s) ≡ s

module _ (V : Type 0) where
  pub data Command : Type 0 where
    h_set : (key field : String) → V → Command
    expire : (key : String) → (ttl : ℤ) → Command

  -- The first argument of a command and of a query is the time. Times are in seconds.
  pub record Redis : Type 1 where
    pub Store : Type 0
    pub run : ℤ → Command → Store → Store
    pub h_get : ℤ → String → String → Store → Option V
    pub h_get_all : ℤ → String → Store → Dict V

  -- The commands of a pipeline, in order.
  unfoldable pub run_all : (R : Redis) → ℤ → List Command → R.Store → R.Store
  run_all R now [] s = s
  run_all R now (c ∷ cs) s = run_all R now cs (R.run now c s)

  pub record Laws (R : Redis) : Type 0 where
    pub get-set :
        (now : ℤ) (k f : String) (v : V) (s : R.Store)
        → R.h_get now k f (R.run now (h_set k f v) s) ≡ some v
    pub get-set_other :
        (now : ℤ) (k f g : String) (v : V) (s : R.Store)
        → g ≢ f
        → R.h_get now k f (R.run now (h_set k g v) s) ≡ R.h_get now k f s
    -- Until a key expires, its fields stay.
    pub get-expire :
        (now later : ℤ) (k f : String) (ttl : ℤ) (s : R.Store)
        → now ≤ℤ later
        → later <ℤ now +ℤ ttl
        → R.h_get later k f (R.run now (expire k ttl) s) ≡ R.h_get now k f s
    -- Then they are gone.
    pub all_expired :
        (now later : ℤ) (k : String) (ttl : ℤ) (s : R.Store)
        → now +ℤ ttl ≤ℤ later
        → R.h_get_all later k (R.run now (expire k ttl) s) ≡ []
    -- Both queries read the same fields.
    pub get_all :
        (now : ℤ) (k f : String) (s : R.Store) → lookup f (R.h_get_all now k s) ≡ R.h_get now k f s
