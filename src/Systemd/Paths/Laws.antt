-- ===== src/Systemd/Paths/Laws.antt =====
-- Where the paths lie.
use nudo.Prelude.{◌≡◌, refl, ◌∙◌, true, false, [], ◌∷◌, ◌++◌, Text, codes, arith}
use nudo.Text.Trim.{starts_with}
use nudo.Systemd.Paths.{
  ReleasePaths, releases_dir, release_dir, current_link, env_file, staging_dir,
}

starts_with-append : (p a b : Text) → starts_with (p ++ a) (p ++ b) ≡ starts_with a b
unfolding starts_with
starts_with-append [] a b = refl
starts_with-append (c ∷ p) a b = ground (arith, starts_with-append p a b)

-- Whatever the root and the id, every release directory lies under `releases`, and the environment
-- file, the link and the staging directory do not: no sweep or link there can reach them.
pub record IsLaidOut (paths : ReleasePaths) (id : Text) : Type 0 where
  pub release_inside : starts_with (releases_dir paths) (release_dir paths id) ≡ true
  pub env_outside : starts_with (releases_dir paths) (env_file paths) ≡ false
  pub link_outside : starts_with (releases_dir paths) (current_link paths) ≡ false
  pub staging_outside : starts_with (releases_dir paths) (staging_dir paths id) ≡ false

-- Under any root and for any release, the release's directory lies inside the releases directory,
-- and the environment file, the link and the staging directory do not.
pub paths-IsLaidOut : (paths : ReleasePaths) (id : Text) → IsLaidOut paths id
unfolding releases_dir release_dir current_link env_file staging_dir
paths-IsLaidOut paths id = record {
  release_inside =
      starts_with-append paths.root (codes "/releases") (codes "/releases/" ++ id)
      ∙ (unfold starts_with in refl);
  env_outside =
      starts_with-append paths.root (codes "/releases") (codes "/env")
      ∙ (unfold starts_with in refl);
  link_outside =
      starts_with-append paths.root (codes "/releases") (codes "/current")
      ∙ (unfold starts_with in refl);
  staging_outside =
      starts_with-append paths.root (codes "/releases") (codes "/.staging-" ++ id)
      ∙ (unfold starts_with in refl);
}
