-- ===== src/Relayer/SourceTx/Ramp.antt =====
-- Which attempt is the last, and how long the middleware waits.
use whm.Prelude.{ℕ, ◌+◌}
use whm.Prelude.{◌≡◌, inl, inr}
use whm.Prelude.{Option, none, some}
use whm.Prelude.{List, [], ◌∷◌}
use whm.Prelude.{Option-cases}
use whm.Relayer.Revert.{Text}
use whm.Relayer.SourceTx.{usable, or_wait, poll}

-- The outcome of polling: the first attempt that gives a hash, after the waits before it, or no hash
-- after all of them.
pub data Polled (lookup : ℕ → Option (Option Text))
    : ℕ → List ℕ → Option Text × List ℕ → Type 0 where
  found :
      (attempt : ℕ) (waits : List ℕ) (hash : Text)
      → usable (lookup attempt) ≡ some hash
      → Polled lookup attempt waits (some hash, [])
  given_up : (attempt : ℕ) → usable (lookup attempt) ≡ none → Polled lookup attempt [] (none, [])
  waited :
      (attempt wait : ℕ) (waits : List ℕ) (r : Option Text × List ℕ)
      → usable (lookup attempt) ≡ none
      → Polled lookup (attempt + 1) waits r
      → Polled lookup attempt (wait ∷ waits) (r.0, wait ∷ r.1)

-- Along any ramp, whatever the attempts give: the first that gives a hash is the last, one attempt is made
-- after each wait of the ramp up to it, and where none gives one, polling ends without after the whole
-- ramp.
pub poll-Polled :
    (lookup : ℕ → Option (Option Text)) (attempt : ℕ) (waits : List ℕ)
    → Polled lookup attempt waits (poll lookup attempt waits)
unfolding poll or_wait
poll-Polled lookup attempt [] = elim (Option-cases (usable (lookup attempt))) [
  | inl miss ↦ rw miss (given_up attempt miss)
  | inr (hash, hit) ↦ rw hit (found attempt [] hash hit)
]
poll-Polled lookup attempt (wait ∷ waits) = elim (Option-cases (usable (lookup attempt))) [
  | inl miss ↦ rw miss (waited attempt wait waits _ miss (poll-Polled lookup (attempt + 1) waits))
  | inr (hash, hit) ↦ rw hit (found attempt (wait ∷ waits) hash hit)
]
