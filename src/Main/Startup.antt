-- ===== src/Main/Startup.antt =====
-- What has happened when `main` returns.
use eks_financial_orchestrat.Common.{◌≡◌, refl, ap, ◌∙◌, String, Option, none, some}
use eks_financial_orchestrat.Common.Result.{Result, ok, err}
use eks_financial_orchestrat.Main.{
  Flags, default_flags, Runtime, Ending, returned, options_of, registered_fields, or_exit,
  run_manager, with_manager, main,
}

or_exit-returned :
    {S : Type 0} (message : String) (r : Option String × S) (rest : S → Ending × S) (s' : S)
    → or_exit message r rest ≡ (returned, s')
    → (s1 : S) × (r ≡ (none, s1)) × (rest s1 ≡ (returned, s'))
or_exit-returned message (some e, s) rest s' h = cc
or_exit-returned message (none, s) rest s' h = (s, refl, h)

module _ {Mgr S : Type 0} (rt : Runtime Mgr S) where
  with_manager-returned :
      (r : Result String Mgr × S) (s' : S)
      → with_manager rt r ≡ (returned, s')
      → (mgr : Mgr) × (s1 : S) × (r ≡ (ok mgr, s1)) × (run_manager rt mgr s1 ≡ (returned, s'))
  with_manager-returned (err e, s) s' h = cc
  with_manager-returned (ok mgr, s) s' h = (mgr, s, refl, h)

  -- When `main` returns, the manager was made with the options of the flags, both controllers and both
  -- checks were added to it without an error, in this order, and it ran until it stopped without one.
  pub main-returned :
      (parse : Flags → Flags) (s s' : S)
      → main rt parse s ≡ (returned, s')
      → (mgr : Mgr) × (s1 : S) × (s2 : S) × (s3 : S) × (s4 : S) × (s5 : S) × (rt.new_manager
            (options_of (parse default_flags))
            s
          ≡ (ok mgr, s1))
        × (rt.setup_policy mgr s1 ≡ (none, s2))
        × (rt.setup_orchestrator registered_fields mgr s2 ≡ (none, s3))
        × (rt.add_healthz_check "healthz" mgr s3 ≡ (none, s4))
        × (rt.add_readyz_check "readyz" mgr s4 ≡ (none, s5))
        × (rt.start mgr s5 ≡ (none, s'))
  unfolding main run_manager
  main-returned parse s s' h =
      let (mgr, s1, made, h1) = with_manager-returned _ s' h in
      let (s2, policy, h2) = or_exit-returned _ _ _ s' h1 in
      let (s3, orchestrator, h3) = or_exit-returned _ _ _ s' h2 in
      let (s4, healthz, h4) = or_exit-returned _ _ _ s' h3 in
      let (s5, readyz, h5) = or_exit-returned _ _ _ s' h4 in
      let (s6, started, h6) = or_exit-returned _ _ _ s' h5 in
      (
        mgr,
        s1,
        s2,
        s3,
        s4,
        s5,
        made,
        policy,
        orchestrator,
        healthz,
        readyz,
        started ∙ ap (λ r. (none, r.1)) h6,
      )
