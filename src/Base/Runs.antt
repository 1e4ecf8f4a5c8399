-- ===== src/Base/Runs.antt =====
-- What every run of a step relation comes to.
-- At such a state already, or there is a step, and every step leads to where it is inevitable.
pub data Inevitable {A : Type 0} (Step : A → A → Type 0) (P : A → Type 0) : A → Type 0 where
  reached : {s : A} → P s → Inevitable Step P s
  ahead :
      {s : A} (s' : A)
      → Step s s'
      → ((r : A) → Step s r → Inevitable Step P r)
      → Inevitable Step P s
