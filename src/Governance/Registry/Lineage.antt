-- ===== src/Governance/Registry/Lineage.antt =====
-- `lineage` ends, without a cycle, at a version with no parent.
use marketpilot.Base.{
  text_key, pair_key, All, Bool-cases, Dict, List, Option-cases, String, [], arith, contains,
  eq_iff, false, get, get-put, if◌then◌else◌, inl, inr, is_some, length, none, ok, put, refl, some,
  some_of, suc, sym, true, zero, ℕ, ◌&&◌, ◌<◌, ◌==◌, ◌∷◌, ◌≡◌,
}
use mathlib.Core.Path.{subst}
use marketpilot.Domain.Snapshot.{Platform}
use marketpilot.Domain.Governance.{ModelVersion}
use marketpilot.Governance.Registry.{
  Registry, empty, find, versions_of, get_version, register_challenger, freeze_session, lineage,
  lineage_loop, is_missing,
}
use marketpilot.Governance.Registry.Actions.{approved}
use marketpilot.Governance.Registry.Steps.{
  Call, registering, promoting, rolling_back, freezing, apply, run, run_induction,
}
use marketpilot.Governance.Registry.Valid.{
  accepts, versions_of-register, promote_result, rollback_result, versions-freeze,
}

-- The place of a version in the order of registration.
abbrev rank : Dict String ModelVersion → String → ℕ
rank [] k = 0
rank ((j, x) ∷ d) k = if j == k then 0 else suc (rank d k)

rank-lt-length :
    (d : Dict String ModelVersion) (k : String) (x : ModelVersion)
    → get d k ≡ some x
    → rank d k < length d
unfolding get
rank-lt-length [] k x h = cc
rank-lt-length ((j, y) ∷ d) k x h = ground (arith, rank-lt-length d k x)

rank-put_kept :
    (d : Dict String ModelVersion) (k j : String) (x y : ModelVersion)
    → get d j ≡ some y
    → rank (put d k x) j ≡ rank d j
unfolding get put
rank-put_kept [] k j x y h = cc
rank-put_kept ((i, z) ∷ d) k j x y h =
    ground (arith, rank-put_kept d k j x y, eq_iff i k, eq_iff i j)

rank-put_new :
    (d : Dict String ModelVersion) (k : String) (x : ModelVersion)
    → get d k ≡ none
    → rank (put d k x) k ≡ length d
unfolding get put
rank-put_new [] k x h = ground (arith, eq_iff k k)
rank-put_new ((i, z) ∷ d) k x h = ground (arith, rank-put_new d k x, eq_iff i k)

-- Every version stands under its own name, and its parent was registered before it.
record IsRooted (d : Dict String ModelVersion) : Type 0 where
  keyed : (v : String) (x : ModelVersion) → get d v ≡ some x → x.version ≡ v
  parent_first :
      (v p : String) (x : ModelVersion)
      → get d v ≡ some x
      → x.parent_version ≡ some p
      → (is_some (get d p) ≡ true) × (rank d p < rank d v)

module _ (d : Dict String ModelVersion) (model : ModelVersion) (rooted : IsRooted d) where
  abbrev extended : Dict String ModelVersion
  extended = put d model.version model

  module _ (p : String) (y : ModelVersion) (there : get d p ≡ some y)
      (new : get d model.version ≡ none) where
    parent_of_new :
        (is_some (get extended p) ≡ true) × (rank extended p < rank extended model.version)
    parent_of_new = ground (
      arith,
      get-put d model.version p model,
      rank-put_kept d model.version p model y,
      rank-put_new d model.version model,
      rank-lt-length d p y,
    )

    parent_of_old :
        (v : String) (x : ModelVersion)
        → get d v ≡ some x
        → rank d p < rank d v
        → (is_some (get extended p) ≡ true) × (rank extended p < rank extended v)
    parent_of_old v x h lt = ground (
      arith,
      get-put d model.version p model,
      rank-put_kept d model.version p model y,
      rank-put_kept d model.version v model x,
    )

  module _ (new : get d model.version ≡ none)
      (known : is_missing model.parent_version d ≡ false) where
    parents :
        (v p : String) (x : ModelVersion)
        → get extended v ≡ some x
        → x.parent_version ≡ some p
        → (is_some (get extended p) ≡ true) × (rank extended p < rank extended v)
    parents v p x h hp = elim (Bool-cases (model.version == v)) [
      | inl same ↦
          let (y, there) = some_of (get d p) (ground (arith, get-put d model.version v model)) in
          rw (← (eq_iff model.version v).0 same) (parent_of_new p y there new)
      | inr other ↦
          let old : get d v ≡ some x = ground (arith, get-put d model.version v model) in
          let (present, lt) = rooted.parent_first v p x old hp in
          let (y, there) = some_of (get d p) present in parent_of_old p y there new v x old lt
    ]

    put-IsRooted : IsRooted extended
    put-IsRooted = record {
      keyed = λ v x h.
          ground (arith, get-put d model.version v model, rooted.keyed v x, eq_iff model.version v);
      parent_first = parents;
    }

abbrev AllRooted : Registry → Type 0
AllRooted s = (m : String) → IsRooted (versions_of s m)

accepted_parts :
    (model : ModelVersion) (s : Registry) (m : String)
    → (accepts model s && (model.model_id == m)) ≡ true
    → (get (versions_of s m) model.version ≡ none)
      × (is_missing model.parent_version (versions_of s m) ≡ false)
      × (model.model_id ≡ m)
unfolding find
accepted_parts model s m h = ground (arith, eq_iff model.model_id m)

register-AllRooted :
    (model : ModelVersion) (s : Registry) → AllRooted s → AllRooted (register_challenger model s).1
unfolding find
register-AllRooted model s rooted m = elim (Bool-cases (accepts model s && (model.model_id == m))) [
  | inl accepted ↦
      let (new, known, same) = accepted_parts model s m accepted in
      rw (versions_of-register model s m)
        (rw accepted (put-IsRooted (versions_of s m) model (rooted m) new known))
  | inr refused ↦ rw (versions_of-register model s m) (rw refused (rooted m))
]

same_versions : (s t : Registry) → t.versions ≡ s.versions → AllRooted s → AllRooted t
unfolding versions_of
same_versions s t e rooted m = rw e (rooted m)

apply-AllRooted : (py : Platform) (c : Call) (s : Registry) → AllRooted s → AllRooted (apply py c s)
unfolding apply
apply-AllRooted py (registering model) s h = register-AllRooted model s h
apply-AllRooted py (promoting m v a) s h = elim (promote_result py m v a s) [
  | inl e ↦ rw e h
  | inr e ↦ rw e (same_versions s (approved a m v s) refl h)
]
apply-AllRooted py (rolling_back m v a) s h = elim (rollback_result py m v a s) [
  | inl e ↦ rw e h
  | inr e ↦ rw e (same_versions s (approved a m v s) refl h)
]
apply-AllRooted py (freezing m session) s h =
    same_versions s (freeze_session m session s).1 (versions-freeze m session s) h

empty-AllRooted : AllRooted empty
unfolding versions_of get
empty-AllRooted m = record { keyed = λ v x h. cc; parent_first = λ v p x h hp. cc }

-- A chain of parents from a version to one that has none.
pub data Descends (s : Registry) (m : String) : ModelVersion → List ModelVersion → Type 0 where
  root : {x : ModelVersion} → x.parent_version ≡ none → Descends s m x (x ∷ [])
  from :
      {x y : ModelVersion} {p : String} {l : List ModelVersion}
      → x.parent_version ≡ some p
      → find s m p ≡ some y
      → Descends s m y l
      → Descends s m x (x ∷ l)

not_seen :
    (d : Dict String ModelVersion) (k : String) (seen : List String)
    → All (λ w. rank d k < rank d w) seen
    → contains k seen ≡ false
not_seen d k [] h = refl
not_seen d k (w ∷ seen) h = ground (arith, eq_iff k w, not_seen d k seen h.1)

All-lt :
    (d : Dict String ModelVersion) (i j : String) (seen : List String)
    → rank d i < rank d j
    → All (λ w. rank d j < rank d w) seen
    → All (λ w. rank d i < rank d w) seen
All-lt d i j [] lt h = tt
All-lt d i j (w ∷ seen) lt h = (omega arith, All-lt d i j seen lt h.1)

module _ (s : Registry) (m : String) (rooted : IsRooted (versions_of s m)) where
  loop_root :
      (fuel : ℕ) (seen : List String) (x : ModelVersion)
      → contains x.version seen ≡ false
      → x.parent_version ≡ none
      → lineage_loop s m (suc fuel) seen x ≡ ok (x ∷ [])
  unfolding lineage_loop
  loop_root fuel seen x apart e = ground arith

  loop_step :
      (fuel : ℕ) (seen : List String) (x y : ModelVersion) (p : String) (l : List ModelVersion)
      → contains x.version seen ≡ false
      → x.parent_version ≡ some p
      → find s m p ≡ some y
      → lineage_loop s m fuel (x.version ∷ seen) y ≡ ok l
      → lineage_loop s m (suc fuel) seen x ≡ ok (x ∷ l)
  unfolding lineage_loop
  loop_step fuel seen x y p l apart e there runs = ground arith

  lineage_loop_ends :
      (fuel : ℕ) (seen : List String) (k : String) (x : ModelVersion)
      → find s m k ≡ some x
      → rank (versions_of s m) k < fuel
      → All (λ w. rank (versions_of s m) k < rank (versions_of s m) w) seen
      → (l : List ModelVersion) × (lineage_loop s m fuel seen x ≡ ok l) × Descends s m x l
  unfolding find
  lineage_loop_ends zero seen k x here lt apart = absurd (omega arith)
  lineage_loop_ends (suc fuel) seen k x here lt apart =
      let name = rooted.keyed k x here in
      let fresh : contains x.version seen ≡ false =
        subst (λ w. contains w seen ≡ false) (sym name) (not_seen (versions_of s m) k seen apart) in
      elim (Option-cases x.parent_version) [
        | inl none_left ↦ (x ∷ [], loop_root fuel seen x fresh none_left, root none_left)
        | inr (p, e) ↦
            let (present, below) = rooted.parent_first k p x here e in
            let (y, there) = some_of (get (versions_of s m) p) present in
            let marked =
              subst (λ w. All (λ u. rank (versions_of s m) p < rank (versions_of s m) u) (w ∷ seen))
                (sym name) (below, All-lt (versions_of s m) p k seen below apart) in
            let (l, runs, chain) =
              lineage_loop_ends fuel (x.version ∷ seen) p y there (omega arith) marked in
            (x ∷ l, loop_step fuel seen x y p l fresh e there runs, from e there chain)
      ]

-- After any calls on a new registry `lineage` of a registered version returns: no cycle is met and
-- the loop ends within its fuel. The list begins at that version, goes on from each version to its
-- registered parent, and ends at one that has none.
pub lineage_reaches_root :
    (py : Platform) (cs : List Call) (m v : String) (x : ModelVersion)
    → find (run py cs empty) m v ≡ some x
    → (l : List ModelVersion) × (lineage m v (run py cs empty) ≡ (ok l, run py cs empty))
      × Descends (run py cs empty) m x l
unfolding lineage get_version find
lineage_reaches_root py cs m v x h =
    let s = run py cs empty in
    let rooted = run_induction py AllRooted (apply-AllRooted py) cs empty empty-AllRooted m in
    let (l, runs, chain) =
      lineage_loop_ends s m rooted (suc (length (versions_of s m))) [] v x h
        (omega (arith, rank-lt-length (versions_of s m) v x h)) tt in
    (l, ground (arith, h, runs), chain)
