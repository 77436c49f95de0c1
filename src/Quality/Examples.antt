-- ===== src/Quality/Examples.antt =====
-- Two sources that quote one future in whole cents.
use marketpilot.Base.{text_key, List, [], arith, false, get, refl, true, ℕ, ◌↔◌, ◌∷◌, ◌≡◌}
use marketpilot.Quality.{QuoteObservation, evaluate_at, permits_decision}
use marketpilot.Quality.Quote.{cents, policy, quote}
use marketpilot.Quality.Clean.{IsClean, permits_exactly}

abbrev quotes : List (QuoteObservation ℕ)
quotes = quote "webull" 400000 ∷ quote "databento" 400025 ∷ []

green_run : permits_decision (evaluate_at cents policy 4000000 quotes) ≡ true
unfolding evaluate_at get
green_run = refl

-- A tick too far apart.
conflict_run :
    permits_decision
      (evaluate_at cents policy 4000000 (quote "webull" 400000 ∷ quote "databento" 400075 ∷ []))
    ≡ false
unfolding evaluate_at get
conflict_run = refl

permits_exactly_example :
    (permits_decision (evaluate_at cents policy 4000000 quotes) ≡ true)
    ↔ IsClean cents policy 4000000 quotes
permits_exactly_example = permits_exactly cents policy 4000000 quotes (omega arith)
