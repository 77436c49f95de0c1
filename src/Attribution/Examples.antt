-- ===== src/Attribution/Examples.antt =====
-- One task and its reviews, in order and back-dated.
use marketpilot.Base.{
  text_key, nat_order, text_order, pair_order, List, String, [], aware, false, map, none, refl, ℕ,
  ◌∷◌, ◌≡◌, sort,
}
use marketpilot.Fixtures.{toy}
use marketpilot.Attribution.Reviews.{
  AttributionReview, AttributionReviewStatus, AttributionStore, AttributionTask, ReviewRequest,
  attribution_reviews, confirmed, empty_store, get_attribution_task, in_review, opened, rejected,
}
use marketpilot.Attribution.Final.{
  AttributionCall, IsCompleted, handle_all, judge, review_is_final, submit,
}

abbrev task : AttributionTask
task = record {
  task_id = "attr-1";
  signal_id = "move-1";
  created_at = 1;
  review_status = opened;
  retained_as_reusable_sample = false;
  facts = "";
}

abbrev request : String → AttributionReviewStatus → ℕ → ReviewRequest
request review_id status reviewed_at = record {
  task_id = "attr-1";
  status = status;
  reviewer = "r";
  reviewed_at = aware reviewed_at;
  note = none;
  retain_as_reusable_sample = false;
  review_id = review_id;
}

abbrev settled : AttributionStore
settled =
    handle_all toy
      (submit task ∷ judge (request "a" in_review 10) ∷ judge (request "b" confirmed 20) ∷ [])
      empty_store

settled-IsCompleted : IsCompleted "attr-1" settled
unfolding IsCompleted handle_all sort
settled-IsCompleted = (record task { review_status = confirmed }, refl, refl)

abbrev later : List AttributionCall
later = judge (request "c" rejected 30) ∷ submit task ∷ []

review_is_final_example :
    (get_attribution_task (handle_all toy later settled) "attr-1"
      ≡ get_attribution_task settled "attr-1")
    × (attribution_reviews (handle_all toy later settled) "attr-1"
        ≡ attribution_reviews settled "attr-1")
review_is_final_example = review_is_final toy "attr-1" later settled settled-IsCompleted

-- A completed review that is dated before the review that opened the work does not complete the task,
-- and a second one is accepted.
abbrev back_dated : AttributionStore
back_dated =
    handle_all toy
      (submit task
        ∷ judge (request "a" in_review 10)
        ∷ judge (request "b" confirmed 5)
        ∷ judge (request "c" rejected 20)
        ∷ [])
      empty_store

two_verdicts :
    map (λ (r : AttributionReview). r.status) (attribution_reviews back_dated "attr-1")
    ≡ confirmed ∷ in_review ∷ rejected ∷ []
unfolding handle_all sort
two_verdicts = refl
