-- ===== src/SelfUpgrade/Start/Laws.antt =====
-- What an upgrade that may start has passed.
use nudo.Prelude.{
  ◌≡◌, true, false, some, Text, arith, find, ◌==◌, text_eq, ok, Elem, find-eq-some, Option-cases,
  eq_of_==, inl, inr, sym, ◌∙◌,
}
use nudo.Updates.Version.{is_newer}
use nudo.Updates.Ladder.{Release, Manifest}
use nudo.SelfUpgrade.Start.{
  Gate, Plan, start, artifact_filename, version_of_latest, digest_of, download_url,
}

pub record IsAllowed (gate : Gate) (target : Text) (plan : Plan) : Type 0 where
  pub switched_on : gate.enabled ≡ true
  pub is_managed : gate.managed ≡ true
  pub free : gate.busy ≡ false
  pub upwards : is_newer target gate.running ≡ true
  pub same_version : plan.version ≡ target
  pub same_url : plan.url ≡ download_url gate.download_base target
  pub permitted : gate.url_allowed plan.url ≡ true
  pub manifest : Manifest
  pub release : Release
  pub recorded : gate.manifest ≡ some manifest
  pub listed : Elem release manifest.releases
  pub named : release.version ≡ target
  pub latest : version_of_latest manifest ≡ target
  pub published : digest_of release (artifact_filename target) ≡ some plan.expected_digest

module _ (gate : Gate) (target : Text) {plan : Plan} where
  at_digest :
      (m : Manifest) (r : Release) (d : Text)
      → gate.manifest ≡ some m
      → find (λ r. r.version == target) m.releases ≡ some r
      → digest_of r (artifact_filename target) ≡ some d
      → start gate target ≡ ok plan
      → IsAllowed gate target plan
  unfolding start
  at_digest m r d e f p h =
      let (listed, named) = find-eq-some (λ r. r.version == target) m.releases f in
      let same : r.version ≡ target = eq_of_== r.version target named in
      record {
        switched_on = ground arith;
        is_managed = ground arith;
        free = ground arith;
        upwards = ground arith;
        same_version = ground arith;
        same_url = ground arith;
        permitted = ground arith;
        manifest = m;
        release = r;
        recorded = e;
        listed = listed;
        named = same;
        latest = sym (eq_of_== r.version (version_of_latest m) (ground arith)) ∙ same;
        published = p ∙ ground arith;
      }

  -- An upgrade that may start was switched on, belongs to a managed install and finds the slot free;
  -- its version is newer than the running one, listed in the recorded manifest and the one that
  -- `Manifest::latest` chooses there; its digest is the one that the manifest lists for its file, and its address is built from
  -- the configured base and the version, and permitted.
  pub start-IsAllowed : start gate target ≡ ok plan → IsAllowed gate target plan
  unfolding start
  start-IsAllowed h = elim (Option-cases gate.manifest) [
    | inl missing ↦ absurd (ground arith)
    | inr (m, e) ↦ elim (Option-cases (find (λ r. r.version == target) m.releases)) [
      | inl unlisted ↦ absurd (ground arith)
      | inr (r, f) ↦ elim (Option-cases (digest_of r (artifact_filename target))) [
        | inl unpublished ↦ absurd (ground arith)
        | inr (d, p) ↦ at_digest m r d e f p h
      ]
    ]
  ]
