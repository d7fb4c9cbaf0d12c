-- ===== src/Metrics.antt =====
-- src/engine/metrics/Metrics.js: the samples kept in memory, and the lines appended to the log file,
-- which are a result. Names and values are of any type.
pub mod Series
use collab_write.Prelude.{
  ℕ, Bool, true, false, Option, none, some, List, [], ◌∷◌, ◌++◌, if◌then◌else◌, ltb, length, Key,
}
use collab_write.Prelude.Map
use collab_write.Prelude.Map.{Map}

pub record Metrics (N V : Type 0) : Type 0 where
  -- Whether there is a log file.
  pub file : Bool
  pub enabled : Bool
  pub retain : ℕ
  pub samples : Map N (List V)

-- `series.shift()`
unfoldable pub shift : {V : Type 0} → List V → List V
shift [] = []
shift (x ∷ xs) = xs

-- The value is pushed, and the oldest goes when there are too many.
unfoldable pub push : {V : Type 0} → ℕ → List V → V → List V
unfolding shift
push retain series v =
    let longer = series ++ v ∷ [] in if ltb retain (length longer) then shift longer else longer

-- The series of a name, or a new one.
unfoldable pub series_of : {N V : Type 0} ⦃key : Key N⦄ → N → Map N (List V) → List V
series_of n m = elim (Map.get n m) [ none ↦ [] | some s ↦ s ]

module _ {N V : Type 0} ⦃key : Key N⦄ where
  -- With the line for the log file, if one is written.
  unfoldable pub record_sample : N → V → Metrics N V → Metrics N V × Option (N × V)
  unfolding push series_of
  record_sample n v m =
      if m.enabled
      then (
        record m { samples = Map.set n (push m.retain (series_of n m.samples) v) m.samples },
        if m.file then some (n, v) else none,
      )
      else (m, none)

  unfoldable pub reset : Metrics N V → Metrics N V
  reset m = record m { samples = [] }
