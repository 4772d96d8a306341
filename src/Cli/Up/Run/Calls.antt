-- ===== src/Cli/Up/Run/Calls.antt =====
-- The calls that the loops over the proxies make.
use localcloud.Base.{
  Bool-cases, Option-cases, All, String, ◌≡◌, refl, sym, ap, ◌∙◌, inl, inr, Bool, true, some, List,
  [], ◌∷◌, ◌++◌, map,
}
use mathlib.Core.List.{append-nil, append_assoc}
use localcloud.Agent.Lifecycle.Order.{Call, started, stopped}
use localcloud.Cli.Up.Run.{Listener, start_proxies, stop_proxies}

abbrev pub proxy_names : {W : Type 0} → List (Listener W) → List String
proxy_names proxies = map (λ p. p.name) proxies

module _ {W : Type 0} (log : W → List Call) where
  -- The log gains the call that starts a proxy, whether it fails or not, and the call that stops it.
  pub record IsListed (p : Listener W) : Type 0 where
    pub on_start : (w : W) → log (p.start w).1 ≡ log w ++ started p.name ∷ []
    pub on_stop : (w w' : W) → p.stop w ≡ some w' → log w' ≡ log w ++ stopped p.name ∷ []

  pub stop_proxies-log :
      (proxies : List (Listener W)) (w w' : W)
      → All IsListed proxies
      → stop_proxies proxies w ≡ some w'
      → log w' ≡ log w ++ map stopped (proxy_names proxies)
  unfolding stop_proxies
  stop_proxies-log [] w w' h ran = cc (ran, append-nil (log w))
  stop_proxies-log (p ∷ proxies) w w' h ran = elim (Option-cases (p.stop w)) [
    | inl e ↦ cc (rw e at ran)
    | inr (v, e) ↦
        stop_proxies-log proxies v w' h.1 (rw e at ran)
        ∙ ap (λ l. l ++ map stopped (proxy_names proxies)) (h.0.on_stop w v e)
        ∙ append_assoc (log w) (stopped p.name ∷ []) (map stopped (proxy_names proxies))
  ]

  -- The first proxies are started once, in order, and no other; all are, where no start fails.
  pub record Tried (proxies : List (Listener W)) (ok : Bool) (w w' : W) : Type 0 where
    pub tried : List String
    pub rest : List String
    pub split : proxy_names proxies ≡ tried ++ rest
    pub whole : ok ≡ true → rest ≡ []
    pub calls : log w' ≡ log w ++ map started tried

  pub start_proxies-Tried :
      (proxies : List (Listener W)) (w : W)
      → All IsListed proxies
      → Tried proxies (start_proxies proxies w).0 w (start_proxies proxies w).1
  unfolding start_proxies
  start_proxies-Tried [] w h = record {
    tried = [];
    rest = [];
    split = refl;
    whole = λ _. refl;
    calls = sym (append-nil (log w));
  }
  start_proxies-Tried (p ∷ proxies) w h = elim (Bool-cases (p.start w).0) [
    | inl e ↦
        let r = start_proxies-Tried proxies (p.start w).1 h.1 in
        rw e (record {
          tried = p.name ∷ r.tried;
          rest = r.rest;
          split = ap (◌∷◌ p.name) r.split;
          whole = r.whole;
          calls =
              r.calls
              ∙ ap (λ l. l ++ map started r.tried) (h.0.on_start w)
              ∙ append_assoc (log w) (started p.name ∷ []) (map started r.tried);
        })
    | inr e ↦ rw e (record {
      tried = p.name ∷ [];
      rest = proxy_names proxies;
      split = refl;
      whole = λ t. cc;
      calls = h.0.on_start w;
    })
  ]
