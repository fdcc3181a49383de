-- ===== src/HostKeys/Answered.antt =====
-- Connections that succeed or fail by the host's key alone.
use nudo.Prelude.{
  ℕ, ◌≡◌, refl, ap, ◌∙◌, true, false, some, Text, text_eq, if◌then◌else◌, is_empty, ok, err, arith,
}
use nudo.Text.Trim.{trim}
use nudo.HostKeys.{Format, matched, changed, parse_host_key, judge, judged, verdict_for}
use nudo.HostKeys.Connect.{
  Attempt, host_key_changed, verdict_on, accepts, shake, authenticate, ssh_connect,
}

-- A connection in which nothing fails but what the host's key makes fail.
abbrev pub answered : {K : Type 0} → K → ℕ → Attempt K
answered k now = record {
  prepares = true;
  key_decodes = true;
  in_time = true;
  presented = some k;
  connects = true;
  authenticates = true;
  writes = true;
  now = now;
}

-- A text that is read as a key is not blank.
pub parsed_named :
    {K D : Type 0} (format : Format K D) (t : Text) (k : K)
    → parse_host_key format t ≡ some k
    → is_empty (trim t) ≡ false
unfolding parse_host_key
parsed_named format t k e = ground (arith, e)

module _ {K D : Type 0} (format : Format K D) (k : K) (t : Text) where
  verdict_for_known :
      (expected : Text) (known : K)
      → parse_host_key format expected ≡ some known
      → format.to_openssh (format.key_data k) ≡ some t
      → verdict_for format expected k
        ≡ some (
            if format.same_data (format.key_data known) (format.key_data k)
            then matched (format.fingerprint k)
            else changed (format.fingerprint known) t (format.fingerprint k))
  unfolding verdict_for judged judge
  verdict_for_known expected known parses encodes =
      ap (judged format expected k) encodes ∙ ap (λ o. some (judge format expected o k t)) parses

  pub ssh_connect_changed :
      (expected : Text) (known : K) (now : ℕ)
      → parse_host_key format expected ≡ some known
      → format.to_openssh (format.key_data k) ≡ some t
      → format.same_data (format.key_data known) (format.key_data k) ≡ false
      → ssh_connect format expected (answered k now)
        ≡ (false, err (host_key_changed (format.fingerprint known) t (format.fingerprint k)))
  unfolding ssh_connect verdict_on shake
  ssh_connect_changed expected known now parses encodes differs =
      ap (shake (answered k now)) (verdict_for_known expected known parses encodes)
      ∙ simp differs refl

  pub ssh_connect_matched :
      (expected : Text) (known : K) (now : ℕ)
      → parse_host_key format expected ≡ some known
      → format.to_openssh (format.key_data k) ≡ some t
      → format.same_data (format.key_data known) (format.key_data k) ≡ true
      → ssh_connect format expected (answered k now) ≡ (true, ok (matched (format.fingerprint k)))
  unfolding ssh_connect verdict_on shake authenticate accepts
  ssh_connect_matched expected known now parses encodes same =
      ap (shake (answered k now)) (verdict_for_known expected known parses encodes) ∙ simp same refl
