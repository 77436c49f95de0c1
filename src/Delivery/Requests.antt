-- ===== src/Delivery/Requests.antt =====
-- The public calls of the orchestrator as values, and any sequence of them. A caller that catches an
-- exception goes on with the tables as they are.
use marketpilot.Base.{text_key, Datetime, List, String, [], ◌∷◌}
use marketpilot.Delivery.Store.{Store}
use marketpilot.Delivery.Service.{Orchestrator, dispatch_due}
use marketpilot.Delivery.Calls.{Submission, enqueue, acknowledge, escalate_due}

pub data Request : Type 0 where
  submitting : Submission → Request
  dispatching : Datetime → Request
  acknowledging : String → String → Datetime → Request
  escalating : Datetime → Request

unfoldable pub serve : Orchestrator → Request → Store → Store
serve o (submitting x) s = (enqueue o x s).1
serve o (dispatching t) s = (dispatch_due o t s).1
serve o (acknowledging id actor t) s = (acknowledge o id actor t s).1
serve o (escalating t) s = (escalate_due o t s).1

unfoldable pub serve_all : Orchestrator → List Request → Store → Store
unfolding serve
serve_all o [] s = s
serve_all o (r ∷ rs) s = serve_all o rs (serve o r s)

-- Induction over the requests.
pub serve_induction :
    (o : Orchestrator) (P : Store → Type 0)
    → ((r : Request) (s : Store) → P s → P (serve o r s))
    → (rs : List Request) (s : Store) → P s
    → P (serve_all o rs s)
unfolding serve_all
serve_induction o P keep [] s h = h
serve_induction o P keep (r ∷ rs) s h = serve_induction o P keep rs (serve o r s) (keep r s h)
