-- ===== src/Tests/Routing.antt =====
-- One domain and one path.
use nudo.Prelude.{◌≡◌, refl, codes, All, ok, text_beq}
use nudo.Text.Trim.{
  trim, starts_with, ends_with, strip_prefix, trim_start_matches, trim_end_matches, is_whitespace,
}
use nudo.Text.Split.{split}
use nudo.Routes.{
  validate_domain, normalize_path, has_infix, check_label, check_labels, is_ascii_alphanumeric,
  is_path_char,
}
use nudo.Routes.Laws.{IsDomainChar, validate_domain-IsSafe}

passes :
    (validate_domain (codes " *.a-b.example ") ≡ ok tt)
    × (normalize_path (codes "api/v1/ ") ≡ ok (codes "/api/v1"))
unfolding validate_domain normalize_path trim starts_with ends_with strip_prefix trim_start_matches
    trim_end_matches is_whitespace split has_infix check_label check_labels is_ascii_alphanumeric
    is_path_char text_beq
passes = (refl, refl)

validate_domain-IsSafe_example : All IsDomainChar (trim (codes " *.a-b.example "))
validate_domain-IsSafe_example = validate_domain-IsSafe (codes " *.a-b.example ") passes.0
