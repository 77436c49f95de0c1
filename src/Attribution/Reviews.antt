-- ===== src/Attribution/Reviews.antt =====
-- domain/attribution.py, services/stream_attribution_store.py and
-- services/stream_attribution_service.py: tasks, reviews and the review workflow. The tables are lists
-- in the order of their inserts; an instant is ordered as its text is.
use marketpilot.Base.{
  text_key, nat_order, text_order, pair_order, Bool, Datetime, Exec, List, Option, Result, String,
  [], any, aware, err, false, first, if◌then◌else◌, is_some, last, naive, none, not, ok, select,
  some, sort, true, ℕ, ◌&&◌, ◌++◌, ◌==◌, ◌||◌, ◌∷◌,
}
use marketpilot.Base.Fallible.{◌>>=◌, ◌>>◌, refuse_if}
use marketpilot.Domain.Snapshot.{Json, Platform, end, field, flag, instant, null, object, text}

pub data AttributionReviewStatus : Type 0 where
  opened in_review confirmed rejected inconclusive : AttributionReviewStatus

-- The fields that the workflow does not read, among them the signal but for its id, are one text.
pub record AttributionTask : Type 0 where
  pub task_id : String
  pub signal_id : String
  pub created_at : ℕ
  pub review_status : AttributionReviewStatus
  pub retained_as_reusable_sample : Bool
  pub facts : String

pub record AttributionReview : Type 0 where
  pub review_id : String
  pub task_id : String
  pub status : AttributionReviewStatus
  pub reviewer : String
  pub reviewed_at : ℕ
  pub note : Option String
  pub retain_as_reusable_sample : Bool

pub data AttributionError : Type 0 where
  unknown_attribution_task : String → AttributionError
  cannot_return_to_open : AttributionError
  review_is_terminal : AttributionError
  sample_needs_completed_review : AttributionError
  must_be_timezone_aware : AttributionError
  immutable_audit_conflict : String → AttributionError
  -- the unique signal of a task, by SQLite
  integrity_error : AttributionError

pub record AttributionStore : Type 0 where
  pub tasks : List AttributionTask
  pub reviews : List AttributionReview

abbrev pub empty_store : AttributionStore
empty_store = record { tasks = []; reviews = [] }

abbrev status_value : AttributionReviewStatus → String
status_value opened = "OPEN"
status_value in_review = "IN_REVIEW"
status_value confirmed = "CONFIRMED"
status_value rejected = "REJECTED"
status_value inconclusive = "INCONCLUSIVE"

abbrev note_json : Option String → Json
note_json none = null
note_json (some s) = text s

abbrev task_json : AttributionTask → Json
task_json t = object (
    field "task_id" (text t.task_id) (
      field "signal_id" (text t.signal_id) (
        field "created_at" (instant t.created_at) (
          field "review_status" (text (status_value t.review_status)) (
            field "retained_as_reusable_sample" (flag t.retained_as_reusable_sample)
              (field "facts" (text t.facts) end))))))

abbrev review_json : AttributionReview → Json
review_json r = object (
    field "review_id" (text r.review_id) (
      field "task_id" (text r.task_id) (
        field "status" (text (status_value r.status)) (
          field "reviewer" (text r.reviewer) (
            field "reviewed_at" (instant r.reviewed_at) (
              field "note" (note_json r.note)
                (field "retain_as_reusable_sample" (flag r.retain_as_reusable_sample) end)))))))

abbrev pub is_terminal : AttributionReviewStatus → Bool
is_terminal confirmed = true
is_terminal rejected = true
is_terminal inconclusive = true
is_terminal _ = false

abbrev pub is_open : AttributionReviewStatus → Bool
is_open opened = true
is_open _ = false

-- `{CONFIRMED, INCONCLUSIVE}`
abbrev may_retain : AttributionReviewStatus → Bool
may_retain confirmed = true
may_retain inconclusive = true
may_retain _ = false

-- `attribution_reviews`
unfoldable pub attribution_reviews : AttributionStore → String → List AttributionReview
attribution_reviews s task_id =
    sort {K = ℕ × String} (λ (r : AttributionReview). (r.reviewed_at, r.review_id))
      (select (λ (r : AttributionReview). r.task_id == task_id) s.reviews)

abbrev pub reviewed :
    AttributionTask → List AttributionReview → Option AttributionReview → AttributionTask
reviewed t rs none = t
reviewed t rs (some latest) = record t {
  review_status = latest.status;
  retained_as_reusable_sample =
      t.retained_as_reusable_sample
      || any (λ (r : AttributionReview). r.retain_as_reusable_sample) rs;
}

-- `_with_review_state`
unfoldable pub with_review_state : AttributionStore → AttributionTask → AttributionTask
unfolding attribution_reviews
with_review_state s t = let rs = attribution_reviews s t.task_id in reviewed t rs (last rs)

abbrev pub mapped :
    (AttributionTask → AttributionTask) → Option AttributionTask → Option AttributionTask
mapped f none = none
mapped f (some t) = some (f t)

-- `get_attribution_task`
unfoldable pub get_attribution_task : AttributionStore → String → Option AttributionTask
unfolding with_review_state
get_attribution_task s task_id =
    mapped (with_review_state s) (first (λ (t : AttributionTask). t.task_id == task_id) s.tasks)

-- `task_by_signal`
unfoldable pub task_by_signal : AttributionStore → String → Option AttributionTask
task_by_signal s signal_id = first (λ (t : AttributionTask). t.signal_id == signal_id) s.tasks

-- `_validate_review_transition`
unfoldable pub validate_review_transition :
    AttributionReviewStatus → AttributionReviewStatus → Result AttributionError (Unit {0})
validate_review_transition current requested = do
  refuse_if (is_open requested) cannot_return_to_open
  refuse_if (is_terminal current) review_is_terminal

-- The arguments of `review`; `review_id` is what `uuid4` draws.
pub record ReviewRequest : Type 0 where
  pub task_id : String
  pub status : AttributionReviewStatus
  pub reviewer : String
  pub reviewed_at : Datetime
  pub note : Option String
  pub retain_as_reusable_sample : Bool
  pub review_id : String

-- `AttributionReview.timezone_required`
abbrev pub aware_time : Datetime → Result AttributionError ℕ
aware_time (naive _) = err must_be_timezone_aware
aware_time (aware t) = ok t

abbrev pub found_task : String → Option AttributionTask → Result AttributionError AttributionTask
found_task task_id none = err (unknown_attribution_task task_id)
found_task task_id (some t) = ok t

-- `review` up to its append
unfoldable pub make_review :
    AttributionStore → ReviewRequest → Result AttributionError AttributionReview
unfolding get_attribution_task validate_review_transition
make_review s q = do
  current ← found_task q.task_id (get_attribution_task s q.task_id)
  validate_review_transition current.review_status q.status
  refuse_if (q.retain_as_reusable_sample && not (may_retain q.status)) sample_needs_completed_review
  t ← aware_time q.reviewed_at
  ok (record {
    review_id = q.review_id;
    task_id = q.task_id;
    status = q.status;
    reviewer = q.reviewer;
    reviewed_at = t;
    note = q.note;
    retain_as_reusable_sample = q.retain_as_reusable_sample;
  })

module _ (py : Platform) where
  -- `_append_immutable`, of a review, by the review with its id
  unfoldable pub insert_review :
      AttributionReview
      → Option AttributionReview
      → Exec AttributionStore AttributionError (Unit {0})
  insert_review r none s = (ok tt, record s { reviews = s.reviews ++ r ∷ [] })
  insert_review r (some existing) s =
      if py.dumps (review_json existing) == py.dumps (review_json r)
      then (ok tt, s)
      else (err (immutable_audit_conflict r.review_id), s)

  -- `append_attribution_review`
  unfoldable pub append_attribution_review :
      AttributionReview → Exec AttributionStore AttributionError (Unit {0})
  unfolding insert_review get_attribution_task
  append_attribution_review r s =
      if not (is_some (get_attribution_task s r.task_id))
      then (err (unknown_attribution_task r.task_id), s)
      else insert_review r (first (λ (x : AttributionReview). x.review_id == r.review_id) s.reviews)
          s

  -- `_append_immutable`, of a task, by the task with its id
  unfoldable pub insert_task :
      AttributionTask → Option AttributionTask → Exec AttributionStore AttributionError (Unit {0})
  unfolding task_by_signal
  insert_task t none s =
      if is_some (task_by_signal s t.signal_id)
      then (err integrity_error, s)
      else (ok tt, record s { tasks = s.tasks ++ t ∷ [] })
  insert_task t (some existing) s =
      if py.dumps (task_json existing) == py.dumps (task_json t)
      then (ok tt, s)
      else (err (immutable_audit_conflict t.task_id), s)

  -- `append_attribution_task`
  unfoldable pub append_attribution_task :
      AttributionTask → Exec AttributionStore AttributionError (Unit {0})
  unfolding insert_task
  append_attribution_task t s =
      insert_task t (first (λ (x : AttributionTask). x.task_id == t.task_id) s.tasks) s

  unfoldable pub file_review :
      Result AttributionError AttributionReview → Exec AttributionStore AttributionError (Unit {0})
  unfolding append_attribution_review
  file_review (err e) s = (err e, s)
  file_review (ok r) s = append_attribution_review r s

  -- `review`, but for the pair that it returns
  unfoldable pub review : ReviewRequest → Exec AttributionStore AttributionError (Unit {0})
  unfolding make_review file_review
  review q s = file_review (make_review s q) s
