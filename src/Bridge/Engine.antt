-- ===== src/Bridge/Engine.antt =====
-- The calls that the bridge makes on a NUM8 engine, and what it relies on.
use num8_lup.Base.{ℕ, ◌≡◌, ◌≢◌, ◌⊎◌, Bool, true, false}

-- The status codes that the source names, and the rest.
pub data Num8Status : Type 0 where
  ok : Num8Status
  added : Num8Status
  already_exists : Num8Status
  removed : Num8Status
  not_found : Num8Status
  other : ℕ → Num8Status

pub record Engine : Type 1 where
  pub State : Type 0
  pub remove : State → ℕ → State × Num8Status
  pub add : State → ℕ → State × Num8Status
  pub flush : State → State × Num8Status

-- The set that an engine holds, and how the calls change it. A call that fails may still have
-- changed whether the set has its own number.
pub record IsLawful (engine : Engine) (holds : engine.State → ℕ → Bool) : Type 0 where
  pub remove_same :
      (e : engine.State) (v : ℕ)
      → ((engine.remove e v).1 ≡ removed) ⊎ ((engine.remove e v).1 ≡ not_found)
      → holds (engine.remove e v).0 v ≡ false
  pub remove_rest : (e : engine.State) (v u : ℕ) → u ≢ v → holds (engine.remove e v).0 u ≡ holds e u
  pub add_same :
      (e : engine.State) (v : ℕ)
      → ((engine.add e v).1 ≡ added) ⊎ ((engine.add e v).1 ≡ already_exists)
      → holds (engine.add e v).0 v ≡ true
  pub add_rest : (e : engine.State) (v u : ℕ) → u ≢ v → holds (engine.add e v).0 u ≡ holds e u
  pub flush_rest : (e : engine.State) (u : ℕ) → holds (engine.flush e).0 u ≡ holds e u
