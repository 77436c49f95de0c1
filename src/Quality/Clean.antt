-- ===== src/Quality/Clean.antt =====
-- When the evaluator permits a decision.
use marketpilot.Base.{
  text_key, All, Bool, Bool-cases, List, Option, Option-cases, String, [], all, and_parts, ap,
  arith, contains, eq_iff, false, get, inl, inr, leb, length, map, none, not, refl, some, subst,
  suc, sym, true, ℕ, ◌+◌, ◌<◌, ◌↔◌, ◌∙◌, ◌∷◌, ◌≡◌, ◌≤◌,
}
use marketpilot.Quality.Observations.{
  Decimals, EntitlementStatus, QualityPolicy, QuoteObservation, has_attribute, permits_decision,
  verified,
}
use marketpilot.Quality.Evaluator.{
  is_verified, distinct, evaluate_at, has_conflict, instruments_of, is_crossed, is_negative,
  is_zero_size, sources_of,
}
use marketpilot.Quality.Tallies.{
  is_prompt, ages_ok, field_ok, observation_ok, permits-evaluate_at, quote_ok, receipt_ok,
  sources_ok, time_ok,
}

-- No text stands twice.
abbrev pub IsUnique : List String → Type 0
IsUnique [] = Unit
IsUnique (x ∷ xs) = (contains x xs ≡ false) × IsUnique xs

-- All texts are one.
abbrev pub IsOne : List String → Type 0
IsOne xs = (x y : String) → contains x xs ≡ true → contains y xs ≡ true → x ≡ y

entitled_of : (e : EntitlementStatus) → is_verified e ≡ true → e ≡ verified
entitled_of e h = ground (arith, h)

prompt_of : (o : Option Bool) → is_prompt o ≡ true → o ≡ some false
prompt_of none h = cc h
prompt_of (some true) h = cc h
prompt_of (some false) h = refl

All_of_all :
    {A : Type 0} (f : A → Bool) (P : A → Type 0)
    → ((x : A) → f x ≡ true → P x)
    → (xs : List A) → all f xs ≡ true
    → All P xs
All_of_all f P k [] h = tt
All_of_all f P k (x ∷ xs) h =
    let (a, b) = and_parts (f x) (all f xs) h in (k x a, All_of_all f P k xs b)

all_of_All' :
    {A : Type 0} (f : A → Bool) (P : A → Type 0)
    → ((x : A) → P x → f x ≡ true)
    → (xs : List A) → All P xs
    → all f xs ≡ true
all_of_All' f P k [] h = refl
all_of_All' f P k (x ∷ xs) (px, h) = rw (k x px) (all_of_All' f P k xs h)

distinct-le : (xs : List String) → length (distinct xs) ≤ length xs
unfolding distinct
distinct-le [] = ground arith
distinct-le (x ∷ xs) = ground (arith, distinct-le xs)

contains-distinct : (y : String) (xs : List String) → contains y (distinct xs) ≡ contains y xs
unfolding distinct
contains-distinct y [] = refl
contains-distinct y (x ∷ xs) =
    ground (arith, contains-distinct y xs, contains-distinct x xs, eq_iff y x)

-- As many distinct texts as texts.
told_apart_iff : (xs : List String) → (length (distinct xs) ≡ length xs) ↔ IsUnique xs
unfolding distinct
told_apart_iff [] = (λ _. tt, λ _. refl)
told_apart_iff (x ∷ xs) = (
  λ h. ground (arith, (told_apart_iff xs).0, distinct-le xs, contains-distinct x xs, h),
  λ h. ground (arith, (told_apart_iff xs).1, distinct-le xs, contains-distinct x xs, h),
)

distinct-IsUnique : (xs : List String) → IsUnique (distinct xs)
unfolding distinct
distinct-IsUnique [] = tt
distinct-IsUnique (x ∷ xs) = elim (Bool-cases (contains x (distinct xs))) [
  | inl h ↦ rw h (distinct-IsUnique xs)
  | inr h ↦ rw h (h, distinct-IsUnique xs)
]

short_of_one : (xs : List String) → IsUnique xs → IsOne xs → length xs ≤ 1
short_of_one [] u one = ground arith
short_of_one (x ∷ []) u one = ground arith
short_of_one (x ∷ y ∷ xs) u one =
    let same : x ≡ y = one x y (ground (arith, eq_iff x x)) (ground (arith, eq_iff y y)) in
    ground (arith, eq_iff x y, same, u)

equal_of_short : (xs : List String) → length xs ≤ 1 → IsOne xs
equal_of_short [] h x y hx hy = cc hx
equal_of_short (z ∷ []) h x y hx hy = ground (arith, eq_iff x z, eq_iff y z, hx, hy)
equal_of_short (z ∷ w ∷ xs) h x y hx hy = absurd (omega arith)

-- At most one distinct text.
at_most_single_iff : (xs : List String) → (length (distinct xs) ≤ 1) ↔ IsOne xs
at_most_single_iff xs = (
  λ h x y hx hy.
      equal_of_short (distinct xs) h x y (contains-distinct x xs ∙ hx)
        (contains-distinct y xs ∙ hy),
  λ one. short_of_one (distinct xs) (distinct-IsUnique xs) (λ x y hx hy.
      one x y (sym (contains-distinct x xs) ∙ hx) (sym (contains-distinct y xs) ∙ hy)),
)

le_test : (m n : ℕ) → m ≤ n → leb m n ≡ true
le_test m n h = ground (arith, h)

module _ {W : Type 0} (d : Decimals W) (p : QualityPolicy W) where
  -- An instant no later than the evaluation and no older than the green limit.
  abbrev pub IsRecent : ℕ → ℕ → Type 0
  IsRecent as_of t = (t ≤ as_of) × (as_of ≤ t + p.green_max_age)

  -- A required field of an observation.
  pub record IsTimely (as_of : ℕ) (o : QuoteObservation W) (name : String) : Type 0 where
    pub there : has_attribute d o name ≡ true
    pub timed :
        (t : ℕ) × (get o.field_timestamps name ≡ some t) × (t ≤ o.received_ts) × IsRecent as_of t

  pub record IsTrusted (as_of : ℕ) (o : QuoteObservation W) : Type 0 where
    pub entitled : o.entitlement ≡ verified
    pub prompt : o.delayed ≡ some false
    pub received_after : o.source_ts ≤ o.received_ts
    pub low_latency : o.received_ts ≤ o.source_ts + p.max_receive_latency
    pub source_recent : IsRecent as_of o.source_ts
    pub received_recent : IsRecent as_of o.received_ts
    pub fields : All (IsTimely as_of o) p.required_fields
    pub no_negative :
        (is_negative d p o.bid ≡ false)
        × (is_negative d p o.ask ≡ false)
        × (is_negative d p o.bid_size ≡ false)
        × (is_negative d p o.ask_size ≡ false)
    pub no_empty_size :
        (is_zero_size d p o.bid_size ≡ false) × (is_zero_size d p o.ask_size ≡ false)
    pub uncrossed : is_crossed d p o.bid o.ask ≡ false

  pub record IsClean (as_of : ℕ) (os : List (QuoteObservation W)) : Type 0 where
    pub some_source : 0 < length os
    pub own_sources : IsUnique (map (λ o. o.source) os)
    pub second_source : p.require_two_sources ≡ true → 2 ≤ length os
    pub one_instrument : IsOne (map (λ o. o.instrument_id) os)
    pub trusted : All (IsTrusted as_of) os
    pub agreed : has_conflict d p os ≡ false

  timely :
      (as_of : ℕ) (o : QuoteObservation W) (name : String)
      → field_ok d p as_of o name ≡ true
      → IsTimely as_of o name
  timely as_of o name h = elim (Option-cases (get o.field_timestamps name)) [
    | inl q ↦ cc (
      (and_parts (has_attribute d o name) (time_ok d p as_of o (get o.field_timestamps name)) h).1,
      ap (time_ok d p as_of o) q,
    )
    | inr (t, q) ↦
        let (there, timed) =
          and_parts (has_attribute d o name) (time_ok d p as_of o (get o.field_timestamps name))
            h in
        let in_time : time_ok d p as_of o (some t) ≡ true =
          subst (λ x. time_ok d p as_of o x ≡ true) q timed in
        record { there = there; timed = (t, q, ground (arith, in_time), ground (arith, in_time)) }
  ]

  timely_ok :
      (as_of : ℕ) (o : QuoteObservation W) (name : String)
      → IsTimely as_of o name
      → field_ok d p as_of o name ≡ true
  timely_ok as_of o name h =
      let (t, q, received, recent) = h.timed in rw h.there (rw q (ground arith))

  trusted :
      (as_of : ℕ) (o : QuoteObservation W) → observation_ok d p as_of o ≡ true → IsTrusted as_of o
  trusted as_of o h =
      let (r, h1) = and_parts (receipt_ok d p o) _ h in
      let (f, h2) = and_parts (all (field_ok d p as_of o) p.required_fields) _ h1 in
      let (a, q) = and_parts (ages_ok d p as_of o) (quote_ok d p o) h2 in
      record {
        entitled = entitled_of o.entitlement (and_parts (is_verified o.entitlement) _ r).0;
        prompt = prompt_of o.delayed (ground (arith, r));
        received_after = ground (arith, r);
        low_latency = ground (arith, r);
        source_recent = ground (arith, a);
        received_recent = ground (arith, a);
        fields = All_of_all _ _ (timely as_of o) p.required_fields f;
        no_negative = ground (arith, q);
        no_empty_size = ground (arith, q);
        uncrossed = ground (arith, q);
      }

  trusted_ok :
      (as_of : ℕ) (o : QuoteObservation W) → IsTrusted as_of o → observation_ok d p as_of o ≡ true
  trusted_ok as_of o t =
      let fields : all (field_ok d p as_of o) p.required_fields ≡ true =
        all_of_All' _ _ (timely_ok as_of o) p.required_fields t.fields in
      ground (arith, fields, t.entitled, t.prompt, t.no_negative, t.no_empty_size)

  sources_sound :
      (os : List (QuoteObservation W))
      → sources_ok d p os ≡ true
      → (0 < length os)
        × (length (sources_of d p os) ≡ length os)
        × (p.require_two_sources ≡ true → 2 ≤ length os)
        × (length (instruments_of d p os) ≤ 1)
  sources_sound os h =
      (ground (arith, h), ground (arith, h), λ two. ground (arith, h, two), ground (arith, h))

  sources_enough :
      (os : List (QuoteObservation W))
      → 0 < length os
      → length (sources_of d p os) ≡ length os
      → (p.require_two_sources ≡ true → 2 ≤ length os)
      → length (instruments_of d p os) ≤ 1
      → sources_ok d p os ≡ true
  sources_enough os a b c e = elim (Bool-cases p.require_two_sources) [
    | inl two ↦ ground (arith, c two)
    | inr one ↦ ground (arith, one)
  ]

  length-map :
      (f : QuoteObservation W → String) (os : List (QuoteObservation W))
      → length (map f os) ≡ length os
  length-map f [] = refl
  length-map f (o ∷ os) = ap suc (length-map f os)

  -- Under a policy whose amber limit is at least its green one, a report permits a decision exactly
  -- when there are sources, no source stands twice, there are two where the policy asks for two, all
  -- observations are of one instrument and in agreement, and each observation is entitled, known not
  -- to be delayed, received promptly, recent with all its required fields and times, without a
  -- negative value, an empty size or a crossed quote.
  pub permits_exactly :
      (as_of : ℕ) (os : List (QuoteObservation W))
      → p.green_max_age ≤ p.amber_max_age
      → (permits_decision (evaluate_at d p as_of os) ≡ true) ↔ IsClean as_of os
  permits_exactly as_of os h =
      let sources = map (λ (o : QuoteObservation W). o.source) os in
      let instruments = map (λ (o : QuoteObservation W). o.instrument_id) os in
      let same = permits-evaluate_at d p as_of os (le_test p.green_max_age p.amber_max_age h) in
      (
        λ ok.
            let (agreed, rest) = and_parts (not (has_conflict d p os)) _ (sym same ∙ ok) in
            let (good, named) = and_parts (all (observation_ok d p as_of) os) _ rest in
            let (some_source, own, two, one) = sources_sound os named in
            record {
              some_source = some_source;
              own_sources = (told_apart_iff sources).0 (own ∙ sym (length-map _ os));
              second_source = two;
              one_instrument = (at_most_single_iff instruments).0 one;
              trusted = All_of_all _ _ (trusted as_of) os good;
              agreed = ground (arith, agreed);
            },
        λ clean.
            same
            ∙ rw clean.agreed (
                rw (all_of_All' _ _ (trusted_ok as_of) os clean.trusted) (
                  sources_enough os clean.some_source
                    ((told_apart_iff sources).1 clean.own_sources ∙ length-map _ os)
                    clean.second_source ((at_most_single_iff instruments).1 clean.one_instrument))),
      )
