-- ===== src/CostLedger/Examples.antt =====
-- Two ledgers with one decision each, recorded at different instants. The digests of the fixture do
-- not tell instants apart.
use marketpilot.Base.{[], refl, ◌∷◌, ◌≡◌, ◌⊎◌}
use marketpilot.Fixtures.{toy}
use marketpilot.Domain.Chain.{IsClash}
use marketpilot.CostLedger.{CostLedger, CostLedgerEntry, load, next_entry}
use marketpilot.CostLedger.Integrity.{cost_chain, cost_tamper_evident}

abbrev first_entry : CostLedgerEntry
first_entry = next_entry toy [] 7 "plan-1" "1.5" "2.0" "APPROVED"

abbrev later_entry : CostLedgerEntry
later_entry = next_entry toy [] 8 "plan-1" "1.5" "2.0" "APPROVED"

abbrev file : CostLedger
file = record { lines = first_entry ∷ [] }

abbrev other_file : CostLedger
other_file = record { lines = later_entry ∷ [] }

cost_tamper_evident_example :
    (file ≡ other_file) ⊎ IsClash toy cost_chain (first_entry ∷ []) (later_entry ∷ [])
unfolding load
cost_tamper_evident_example =
    cost_tamper_evident toy file other_file (first_entry ∷ []) (later_entry ∷ []) refl refl refl
      refl
