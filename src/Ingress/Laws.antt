-- ===== src/Ingress/Laws.antt =====
-- What a reload does to the files and to what is served.
use nudo.Prelude.{
  ◌≡◌, refl, ◌⊎◌, inl, inr, Bool, true, false, Option, none, some, Text, arith, Bool-cases,
}
use nudo.BootGuard.Dir.{Fault, fine, early, late}
use nudo.Ingress.{ProxyHost, Env, is_running, apply, install_config, validated, stage, reload}

-- A part of the host is as it was, or it is a configuration that the proxy has found valid.
abbrev pub IsSound : Env → Text → Option Text → Option Text → Type 0
IsSound env config before after =
    (after ≡ before) ⊎ ((after ≡ some config) × (env.validate config ≡ some true))

module _ (env : Env) (config : Text) where
  abbrev Sound : ProxyHost → ProxyHost → Type 0
  Sound host after =
      IsSound env config host.live after.live × IsSound env config host.serving after.serving

  apply-serving :
      (host : ProxyHost)
      → ((apply env config host).0.live ≡ host.live)
        × (((apply env config host).0.serving ≡ host.serving)
            ⊎ ((apply env config host).0.serving ≡ some config))
  unfolding apply is_running
  apply-serving host = ground arith

  install_config-Sound :
      (f : Fault) (host : ProxyHost)
      → env.validate config ≡ some true
      → Sound host (install_config env config f host).0
  unfolding install_config
  install_config-Sound fine host v =
      let (live, serving) = apply-serving (record host { staged = none; live = some config }) in
      (inr (live, v), elim serving [ inl same ↦ inl same | inr new ↦ inr (new, v) ])
  install_config-Sound late host v = (inr (refl, v), inl refl)
  install_config-Sound early host v = (inl refl, inl refl)

  validated-Sound :
      (o : Option Bool) (host : ProxyHost)
      → env.validate config ≡ o
      → Sound host (validated env config o host).0
  unfolding validated
  validated-Sound none host v = (inl refl, inl refl)
  validated-Sound (some false) host v = elim (Bool-cases env.removes) [
    | inl e ↦ simp e (inl refl, inl refl)
    | inr e ↦ simp e (inl refl, inl refl)
  ]
  validated-Sound (some true) host v = install_config-Sound env.move host v

  stage-Sound : (f : Fault) (host : ProxyHost) → Sound host (stage env config f host).0
  unfolding stage
  stage-Sound fine host =
      validated-Sound (env.validate config) (record host { staged = some config }) refl
  stage-Sound late host = (inl refl, inl refl)
  stage-Sound early host = (inl refl, inl refl)

  -- Whatever fails in between, the live file and what the proxy serves are as they were, or are the new
  -- configuration, which the proxy has found valid before anything live changed.
  pub reload-IsSound :
      (host : ProxyHost)
      → IsSound env config host.live (reload env config host).0.live
        × IsSound env config host.serving (reload env config host).0.serving
  unfolding reload
  reload-IsSound host = stage-Sound env.write host

  -- A reload that reports success has installed the new configuration, and the proxy serves it, if the
  -- host could say whether the proxy was up.
  pub reload-ok :
      (host : ProxyHost)
      → env.asks ≡ true
      → (reload env config host).1 ≡ some true
      → ((reload env config host).0.live ≡ some config)
        × ((reload env config host).0.serving ≡ some config)
  unfolding reload stage validated install_config apply is_running
  reload-ok host asks e = ground (arith, asks, e)

  -- When the host cannot say whether a proxy that is up is up, a reload reports success and the proxy
  -- goes on serving what it served.
  pub reload_unasked :
      (host : ProxyHost) (old : Text)
      → env.asks ≡ false
      → env.write ≡ fine
      → env.move ≡ fine
      → env.validate config ≡ some true
      → env.starts config ≡ some true
      → host.serving ≡ some old
      → ((reload env config host).1 ≡ some true) × ((reload env config host).0.serving ≡ some old)
  unfolding reload stage validated install_config apply is_running
  reload_unasked host old asks w m v s up = ground (arith, asks, w, m, v, s, up)
