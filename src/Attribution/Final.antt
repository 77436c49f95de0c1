-- ===== src/Attribution/Final.antt =====
-- services/stream_attribution_service.py: a completed review stays as it is.
use marketpilot.Base.{
  text_key, nat_order, text_order, pair_order, Bool, Bool-cases, List, Option, Result, String, [],
  ap, arith, eq_iff, err, false, first, if◌then◌else◌, inl, inr, is_some, last, none, not, ok, refl,
  select, some, sort, subst, sym, true, ◌++◌, ◌==◌, ◌∙◌, ◌∷◌, ◌≡◌,
}
use marketpilot.Base.Fallible.{bound, ok-injective, refuse_if_passed}
use marketpilot.Domain.Snapshot.{Platform}
use marketpilot.Attribution.Reviews.{
  AttributionError, AttributionReview, mapped, reviewed, AttributionStore, AttributionTask,
  ReviewRequest, is_open, aware_time, cannot_return_to_open, review_is_terminal,
  sample_needs_completed_review, append_attribution_review, append_attribution_task,
  attribution_reviews, file_review, found_task, get_attribution_task, insert_review, insert_task,
  is_terminal, make_review, review, validate_review_transition, with_review_state,
}

-- The calls that change the store
pub data AttributionCall : Type 0 where
  submit : AttributionTask → AttributionCall
  judge : ReviewRequest → AttributionCall

abbrev names : String → AttributionTask → Bool
names id t = t.task_id == id

abbrev concerns : String → AttributionReview → Bool
concerns id r = r.task_id == id

-- What the store holds on a task is the same.
IsSame : String → AttributionStore → AttributionStore → Type 0
IsSame id s u =
    (first (names id) u.tasks ≡ first (names id) s.tasks)
    × (select (concerns id) u.reviews ≡ select (concerns id) s.reviews)

first-append :
    {A : Type 0} (p : A → Bool) (xs : List A) (y : A)
    → is_some (first p xs) ≡ true
    → first p (xs ++ y ∷ []) ≡ first p xs
first-append p [] y h = ground (arith, h)
first-append p (x ∷ xs) y h = ground (arith, h, first-append p xs y)

first_found : {A : Type 0} (p : A → Bool) (xs : List A) (x : A) → first p xs ≡ some x → p x ≡ true
first_found p [] x h = ground (arith, h)
first_found p (y ∷ ys) x h = ground (arith, h, first_found p ys x)

select_other :
    {A : Type 0} (p : A → Bool) (xs : List A) (y : A)
    → p y ≡ false
    → select p (xs ++ y ∷ []) ≡ select p xs
select_other p [] y h = rw h refl
select_other p (x ∷ xs) y h = rw (select_other p xs y h) refl

if_keeps :
    {R S : Type 0} (P : S → Type 0) (b : Bool) (x y : R × S)
    → P x.1
    → P y.1
    → P (if b then x else y).1
if_keeps P true x y hx hy = hx
if_keeps P false x y hx hy = hy

module _ (py : Platform) where
  unfoldable pub handle : AttributionCall → AttributionStore → AttributionStore
  unfolding append_attribution_task review
  handle (submit t) s = (append_attribution_task py t s).1
  handle (judge q) s = (review py q s).1

  unfoldable pub handle_all : List AttributionCall → AttributionStore → AttributionStore
  unfolding handle
  handle_all [] s = s
  handle_all (c ∷ cs) s = handle_all cs (handle c s)

  insert_task-IsSame :
      (id : String) (t : AttributionTask) (x : Option AttributionTask) (s : AttributionStore)
      → is_some (first (names id) s.tasks) ≡ true
      → IsSame id s (insert_task py t x s).1
  unfolding insert_task IsSame
  insert_task-IsSame id t none s h =
      if_keeps (IsSame id s) _ _ _ (refl, refl) (first-append (names id) s.tasks t h, refl)
  insert_task-IsSame id t (some x) s h = if_keeps (IsSame id s) _ _ _ (refl, refl) (refl, refl)

  insert_review-IsSame :
      (id : String) (r : AttributionReview) (x : Option AttributionReview) (s : AttributionStore)
      → (r.task_id == id) ≡ false
      → IsSame id s (insert_review py r x s).1
  unfolding insert_review IsSame
  insert_review-IsSame id r none s h = (refl, select_other (concerns id) s.reviews r h)
  insert_review-IsSame id r (some x) s h = if_keeps (IsSame id s) _ _ _ (refl, refl) (refl, refl)

  append_review-IsSame :
      (id : String) (r : AttributionReview) (s : AttributionStore)
      → (r.task_id == id) ≡ false
      → IsSame id s (append_attribution_review py r s).1
  unfolding append_attribution_review IsSame
  append_review-IsSame id r s h =
      elim (Bool-cases (not (is_some (get_attribution_task s r.task_id)))) [
        | inl n ↦ rw n (refl, refl)
        | inr n ↦ rw n (insert_review-IsSame id r _ s h)
      ]

mapped_same :
    (f g : AttributionTask → AttributionTask) (o : Option AttributionTask)
    → ((t : AttributionTask) → o ≡ some t → f t ≡ g t)
    → mapped f o ≡ mapped g o
mapped_same f g none h = refl
mapped_same f g (some t) h = ap some (h t refl)

get-IsSame :
    (id : String) (s u : AttributionStore)
    → IsSame id s u
    → (get_attribution_task u id ≡ get_attribution_task s id)
      × (attribution_reviews u id ≡ attribution_reviews s id)
unfolding IsSame get_attribution_task attribution_reviews with_review_state
get-IsSame id s u (tasks, reviews) =
    let rs = ap (sort (λ (r : AttributionReview). (r.reviewed_at, r.review_id))) reviews in
    let state = λ (t : AttributionTask) (found : first (names id) s.tasks ≡ some t).
      let id_of = (eq_iff t.task_id id).0 (first_found (names id) s.tasks t found) in
      ap (λ ys. reviewed t ys (last ys))
        (subst (λ j. attribution_reviews u j ≡ attribution_reviews s j) (sym id_of) rs) in
    (
      ap (mapped (with_review_state u)) tasks
          ∙ mapped_same (with_review_state u) (with_review_state s) (first (names id) s.tasks)
              state,
      rs,
    )

-- The task is there and its review is completed.
unfoldable pub IsCompleted : String → AttributionStore → Type 0
unfolding get_attribution_task
IsCompleted id s =
    (t : AttributionTask) × (get_attribution_task s id ≡ some t)
    × (is_terminal t.review_status ≡ true)

completed_refuses :
    (q : ReviewRequest) (s : AttributionStore)
    → IsCompleted q.task_id s
    → (e : AttributionError) × (make_review s q ≡ err e)
unfolding IsCompleted make_review validate_review_transition
completed_refuses q s (t, found, done) = elim (Bool-cases (is_open q.status)) [
  | inl o ↦ (cannot_return_to_open, rw found (rw o refl))
  | inr o ↦ (review_is_terminal, rw found (rw o (rw done refl)))
]

mapped_there :
    (f : AttributionTask → AttributionTask) (o : Option AttributionTask) (t : AttributionTask)
    → mapped f o ≡ some t
    → is_some o ≡ true
mapped_there f none t h = ground (arith, h)
mapped_there f (some x) t h = refl

completed_there :
    (id : String) (s : AttributionStore)
    → IsCompleted id s
    → is_some (first (names id) s.tasks) ≡ true
unfolding IsCompleted get_attribution_task
completed_there id s (t, found, done) =
    mapped_there (with_review_state s) (first (names id) s.tasks) t found

made_for :
    (q : ReviewRequest) (s : AttributionStore) (r : AttributionReview)
    → make_review s q ≡ ok r
    → r.task_id ≡ q.task_id
unfolding make_review
made_for q s r h =
    let current = bound (found_task q.task_id (get_attribution_task s q.task_id)) _ r h in
    let valid = bound (validate_review_transition current.0.review_status q.status) _ r current.2 in
    let sampled = refuse_if_passed _ sample_needs_completed_review _ r valid.2 in
    let t = bound (aware_time q.reviewed_at) _ r sampled.1 in
    ap (λ x. x.task_id) (sym (ok-injective t.2))

module _ (py : Platform) (id : String) where
  file_review-IsSame :
      (q : ReviewRequest) (m : Result AttributionError AttributionReview) (s : AttributionStore)
      → (q.task_id == id) ≡ false
      → make_review s q ≡ m
      → IsSame id s (file_review py m s).1
  unfolding file_review IsSame
  file_review-IsSame q (err e) s other h = (refl, refl)
  file_review-IsSame q (ok r) s other h =
      append_review-IsSame py id r s (subst (λ x. (x == id) ≡ false) (sym (made_for q s r h)) other)

  review-IsSame :
      (q : ReviewRequest) (s : AttributionStore) → IsCompleted id s → IsSame id s (review py q s).1
  unfolding review IsSame file_review
  review-IsSame q s done = elim (Bool-cases (q.task_id == id)) [
    | inl own ↦
        let refused =
          completed_refuses q s
            (subst (λ x. IsCompleted x s) (sym ((eq_iff q.task_id id).0 own)) done) in
        rw refused.1 (refl, refl)
    | inr other ↦ file_review-IsSame q (make_review s q) s other refl
  ]

  handle-IsSame :
      (c : AttributionCall) (s : AttributionStore) → IsCompleted id s → IsSame id s (handle py c s)
  unfolding handle append_attribution_task
  handle-IsSame (submit t) s done = insert_task-IsSame py id t _ s (completed_there id s done)
  handle-IsSame (judge q) s done = review-IsSame q s done

  handle-IsCompleted :
      (c : AttributionCall) (s : AttributionStore)
      → IsCompleted id s
      → IsCompleted id (handle py c s)
  unfolding IsCompleted
  handle-IsCompleted c s done =
      let same = get-IsSame id s (handle py c s) (handle-IsSame c s done) in
      (done.0, same.0 ∙ done.1, done.2)

-- A completed review is final: once the review of a task is confirmed, rejected or inconclusive,
-- whatever tasks are submitted and whatever reviews are requested afterwards, the task with its status
-- and its sample flag and the list of its reviews stay as they are.
pub review_is_final :
    (py : Platform) (id : String) (calls : List AttributionCall) (s : AttributionStore)
    → IsCompleted id s
    → (get_attribution_task (handle_all py calls s) id ≡ get_attribution_task s id)
      × (attribution_reviews (handle_all py calls s) id ≡ attribution_reviews s id)
unfolding handle_all
review_is_final py id [] s done = (refl, refl)
review_is_final py id (c ∷ cs) s done =
    let first_step = get-IsSame id s (handle py c s) (handle-IsSame py id c s done) in
    let rest = review_is_final py id cs (handle py c s) (handle-IsCompleted py id c s done) in
    (rest.0 ∙ first_step.0, rest.1 ∙ first_step.1)
