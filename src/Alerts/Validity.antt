-- ===== src/Alerts/Validity.antt =====
-- What the alerts of the engine keep from call to call.
use marketpilot.Base.{
  IsKeyed, IsKeyed-put, text_key, Bool-cases, Dict, String, ap, arith, eq_iff, false, get, get-put,
  if◌then◌else◌, inl, inr, put, refl, some, subst, true, ℕ, ◌+◌, ◌==◌, ◌∙◌, ◌≡◌, ◌≢◌, ◌≤◌, ◌⊎◌,
}
use marketpilot.Alerts.Records.{AlertRecord}

-- The later versions of one alert.
pub record IsVersion (a b : AlertRecord) : Type 0 where
  pub same_id : a.alert_id ≡ b.alert_id
  pub same_candidate : a.candidate ≡ b.candidate
  pub same_creation : a.created_at ≡ b.created_at

abbrev pub IsNamed : Dict String AlertRecord → Type 0
IsNamed alerts = (i : String) (a : AlertRecord) → get alerts i ≡ some a → a.alert_id ≡ i

-- The latest alert of a fingerprint is there, and carries the fingerprint.
abbrev pub IsLinkedBy : Dict String String → Dict String AlertRecord → Type 0
IsLinkedBy latest alerts =
    (f i : String)
    → get latest f ≡ some i
    → (a : AlertRecord) × (get alerts i ≡ some a) × (a.candidate.fingerprint ≡ f)

-- No alert is newer than the latest of its fingerprint.
abbrev pub HasNewest : Dict String String → Dict String AlertRecord → Type 0
HasNewest latest alerts =
    (i : String) (a : AlertRecord)
    → get alerts i ≡ some a
    → (j : String) × (b : AlertRecord) × (get latest a.candidate.fingerprint ≡ some j)
      × (get alerts j ≡ some b)
      × (a.created_at ≤ b.created_at)

-- Two alerts of one fingerprint are a cooldown apart.
abbrev pub IsSpaced : ℕ → Dict String AlertRecord → Type 0
IsSpaced cooldown alerts =
    (i j : String) (a b : AlertRecord)
    → get alerts i ≡ some a
    → get alerts j ≡ some b
    → i ≢ j
    → a.candidate.fingerprint ≡ b.candidate.fingerprint
    → (a.created_at + cooldown ≤ b.created_at) ⊎ (b.created_at + cooldown ≤ a.created_at)

pub record IsValid (cooldown : ℕ) (latest : Dict String String) (alerts : Dict String AlertRecord)
    : Type 0 where
  pub keyed : IsKeyed alerts
  pub named : IsNamed alerts
  pub linked : IsLinkedBy latest alerts
  pub newest : HasNewest latest alerts
  pub spaced : IsSpaced cooldown alerts

pub put_hit :
    {V : Type 0} (d : Dict String V) (k i : String) (v : V)
    → (k == i) ≡ true
    → get (put d k v) i ≡ some v
put_hit d k i v h = get-put d k i v ∙ ap (λ c. if c then some v else get d i) h

pub put_miss :
    {V : Type 0} (d : Dict String V) (k i : String) (v : V)
    → (k == i) ≡ false
    → get (put d k v) i ≡ get d i
put_miss d k i v h = get-put d k i v ∙ ap (λ c. if c then some v else get d i) h

pub same_text : (k i : String) → (k == i) ≡ true → k ≡ i
same_text k i h = ground (arith, eq_iff k i)

-- A version put in the place of an alert leaves versions everywhere.
put_old :
    (alerts : Dict String AlertRecord) (k i : String) (a b c : AlertRecord)
    → get alerts k ≡ some a
    → IsVersion b a
    → get (put alerts k b) i ≡ some c
    → (d : AlertRecord) × (get alerts i ≡ some d) × IsVersion c d
put_old alerts k i a b c ha v h = elim (Bool-cases (k == i)) [
  | inl e ↦
      let q : b ≡ c = cc (put_hit alerts k i b e, h) in
      (a, cc (ha, same_text k i e), subst (λ z. IsVersion z a) q v)
  | inr e ↦ (
    c,
    cc (put_miss alerts k i b e, h),
    record { same_id = refl; same_candidate = refl; same_creation = refl },
  )
]

pub put_new :
    (alerts : Dict String AlertRecord) (k i : String) (a b d : AlertRecord)
    → get alerts k ≡ some a
    → IsVersion b a
    → get alerts i ≡ some d
    → (c : AlertRecord) × (get (put alerts k b) i ≡ some c) × IsVersion c d
put_new alerts k i a b d ha v h = elim (Bool-cases (k == i)) [
  | inl e ↦
      let q : a ≡ d = cc (ha, same_text k i e, h) in
      (b, put_hit alerts k i b e, subst (IsVersion b) q v)
  | inr e ↦ (
    d,
    cc (put_miss alerts k i b e, h),
    record { same_id = refl; same_candidate = refl; same_creation = refl },
  )
]

-- Versions everywhere keep what is valid.
pub versions-IsValid :
    (cooldown : ℕ) (latest : Dict String String) (alerts after : Dict String AlertRecord)
    → IsValid cooldown latest alerts
    → IsKeyed after
    → ((i : String) (c : AlertRecord)
        → get after i ≡ some c
        → (d : AlertRecord) × (get alerts i ≡ some d) × IsVersion c d)
    → ((i : String) (d : AlertRecord)
        → get alerts i ≡ some d
        → (c : AlertRecord) × (get after i ≡ some c) × IsVersion c d)
    → IsValid cooldown latest after
versions-IsValid cooldown latest alerts after valid keyed old new = record {
  keyed = keyed;
  named = λ i c h. let (d, hd, w) = old i c h in w.same_id ∙ valid.named i d hd;
  linked = λ f i h.
      let (d, hd, q) = valid.linked f i h in
      let (c, hc, w) = new i d hd in (c, hc, cc (w.same_candidate, q));
  newest = λ i c h.
      let (d, hd, w) = old i c h in
      let (j, e, l, he, le) = valid.newest i d hd in
      let (e', he', w') = new j e he in
      (j, e', cc (w.same_candidate, l), he', ground (arith, w.same_creation, w'.same_creation));
  spaced = λ i j c e hc he ne q.
      let (d, hd, w) = old i c hc in
      let (g, hg, w') = old j e he in
      ground (
        arith,
        w.same_creation,
        w'.same_creation,
        valid.spaced i j d g hd hg ne (cc (w.same_candidate, w'.same_candidate, q)),
      );
}

pub put-IsValid :
    (cooldown : ℕ) (latest : Dict String String) (alerts : Dict String AlertRecord) (k : String)
    (a b : AlertRecord)
    → IsValid cooldown latest alerts
    → get alerts k ≡ some a
    → IsVersion b a
    → IsValid cooldown latest (put alerts k b)
put-IsValid cooldown latest alerts k a b valid ha v =
    versions-IsValid cooldown latest alerts (put alerts k b) valid
      (IsKeyed-put alerts k b valid.keyed) (λ i c h. put_old alerts k i a b c ha v h)
      (λ i d h. put_new alerts k i a b d ha v h)
