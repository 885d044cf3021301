-- ===== src/RunManifest/Stages.antt =====
-- What `with_stage` and `with_status` make of a manifest, of run_manifest.py.
use paper_live.Base.{
  ◌≡◌, ◌≢◌, refl, ap, true, some, List, [], ◌∷◌, String, ◌==◌, ok, is_some, arith, eq_iff, eq_refl,
  Bool-cases, inl, inr,
}
use paper_live.RunManifest.{
  RunArtifact, RunManifest, names, is_unique, check_stages, find_stage, stage, replace_stage,
  with_stage, with_status,
}

-- No stage stands twice.
pub record IsUnique (m : RunManifest) : Type 0 where
  pub unique : is_unique (names m.stages) ≡ true

names-replace_stage : (a : RunArtifact) (l : List RunArtifact) → names (replace_stage a l) ≡ names l
names-replace_stage a [] = refl
names-replace_stage a (b ∷ l) = elim (Bool-cases (b.stage == a.stage)) [
  | inl same ↦
      rw (same, names-replace_stage a l)
        (ap (λ k. k ∷ names l) (ground (arith, eq_iff b.stage a.stage)))
  | inr other ↦ rw (other, names-replace_stage a l) refl
]

find-replace_same :
    (a : RunArtifact) (l : List RunArtifact)
    → is_some (find_stage a.stage l) ≡ true
    → find_stage a.stage (replace_stage a l) ≡ some a
find-replace_same a [] h = absurd (ground arith)
find-replace_same a (b ∷ l) h = elim (Bool-cases (b.stage == a.stage)) [
  | inl same ↦ ground (arith, same, eq_refl a.stage)
  | inr other ↦ ground (arith, other, find-replace_same a l)
]

find-replace_other :
    (a : RunArtifact) (name : String) (l : List RunArtifact)
    → a.stage ≢ name
    → find_stage name (replace_stage a l) ≡ find_stage name l
find-replace_other a name [] n = refl
find-replace_other a name (b ∷ l) n = elim (Bool-cases (b.stage == a.stage)) [
  | inl same ↦ ground (
    arith,
    same,
    eq_iff b.stage a.stage,
    eq_iff a.stage name,
    eq_iff b.stage name,
    find-replace_other a name l n,
  )
  | inr other ↦ ground (arith, other, find-replace_other a name l n)
]

-- What an update that returned has done.
pub with_stage_inv :
    (a : RunArtifact) (m : RunManifest) {m' : RunManifest}
    → IsUnique m
    → with_stage a m ≡ ok m'
    → (is_some (stage a.stage m) ≡ true)
      × (m' ≡ record m { stages = replace_stage a m.stages })
      × IsUnique m'
unfolding with_stage check_stages stage
with_stage_inv a m {m'} u h =
    let e : m' ≡ record m { stages = replace_stage a m.stages } = ground arith in
    (ground arith, e, rw e (record { unique = rw (names-replace_stage a m.stages) u.unique }))

-- An update of a stage that a manifest with no stage twice has returns, whatever the artifact: it
-- is then found under its stage, every other stage is as it was, so are the run's id, status and
-- time, and still no stage stands twice.
pub with_stage_lem :
    (a : RunArtifact) (m : RunManifest)
    → IsUnique m
    → is_some (stage a.stage m) ≡ true
    → (m' : RunManifest) × (with_stage a m ≡ ok m')
      × (stage a.stage m' ≡ some a)
      × ((name : String) → a.stage ≢ name → stage name m' ≡ stage name m)
      × (m' ≡ record m { stages = m'.stages })
      × IsUnique m'
unfolding with_stage check_stages stage
with_stage_lem a m u known = (
  record m { stages = replace_stage a m.stages },
  ground (arith, u.unique, names-replace_stage a m.stages),
  find-replace_same a m.stages known,
  λ name n. find-replace_other a name m.stages n,
  refl,
  record { unique = rw (names-replace_stage a m.stages) u.unique },
)

pub with_status_lem :
    (status : String) (m : RunManifest)
    → IsUnique m
    → with_status status m ≡ ok (record m { status = status })
unfolding with_status check_stages
with_status_lem status m u = ground (arith, u.unique)
