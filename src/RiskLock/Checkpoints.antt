-- ===== src/RiskLock/Checkpoints.antt =====
-- The observation checkpoints of `_assessment`: the fixed offsets round the anchor and the session's
-- boundaries, in order of time and then of name.
use Prim.Native.String.{compare as text_compare}
use Prim.Native.Nat.{compare, Ordering}
use marketpilot.Base.{
  text_key, Bool, List, Option, String, [], false, first, if◌then◌else◌, is_some, ltb, minutes,
  none, seconds, some, true, ℕ, ◌++◌, ◌+◌, ◌-◌, ◌∷◌,
}

abbrev pub Checkpoint : Type 0
Checkpoint = ℕ × String

-- `EVENT_CHECKPOINTS`, at an anchor
unfoldable pub event_checkpoints : ℕ → List Checkpoint
event_checkpoints anchor =
    (anchor - minutes 30, "T-30m")
    ∷ (anchor - minutes 5, "T-5m")
    ∷ (anchor + seconds 30, "T+30s")
    ∷ (anchor + minutes 2, "T+2m")
    ∷ (anchor + minutes 5, "T+5m")
    ∷ (anchor + minutes 15, "T+15m")
    ∷ (anchor + minutes 30, "T+30m")
    ∷ (anchor + minutes 60, "T+60m")
    ∷ []

abbrev boundary : Option ℕ → String → List Checkpoint
boundary none _ = []
boundary (some t) name = (t, name) ∷ []

unfoldable pub checkpoints : ℕ → Option ℕ → Option ℕ → List Checkpoint
unfolding event_checkpoints
checkpoints anchor close cash_open =
    event_checkpoints anchor
    ++ (boundary close "SESSION_CLOSE" ++ boundary cash_open "NEXT_CASH_OPEN")

-- `a <= b` on Python's tuples of a datetime and a text
unfoldable pub not_after : Checkpoint → Checkpoint → Bool
not_after (t, a) (u, b) = elim (compare t u) [
  | Ordering.lt ↦ true
  | Ordering.gt ↦ false
  | Ordering.eq ↦ elim (text_compare a b) [ Ordering.gt ↦ false | _ ↦ true ]
]

unfoldable pub insert : Checkpoint → List Checkpoint → List Checkpoint
unfolding not_after
insert c [] = c ∷ []
insert c (d ∷ ds) = if not_after c d then c ∷ d ∷ ds else d ∷ insert c ds

-- `sorted(checkpoints)`
unfoldable pub sorted : List Checkpoint → List Checkpoint
unfolding insert
sorted [] = []
sorted (c ∷ cs) = insert c (sorted cs)

unfoldable pub next_checkpoint : ℕ → Option ℕ → Option ℕ → ℕ → String
unfolding checkpoints sorted
next_checkpoint anchor close cash_open now =
    elim (first (λ c. ltb now c.0) (sorted (checkpoints anchor close cash_open))) [
      | some c ↦ c.1
      | none ↦ if is_some cash_open then "MONITORING_COMPLETE" else "SESSION_BOUNDARY_UNCONFIGURED"
    ]
