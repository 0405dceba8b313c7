-- ===== src/Frp/Tunnels.antt =====
-- kubefwd/kube/utils.go and frp/frpc_client.go together: the configuration of the frp client for the
-- pairs of a service.
use k8s_explore.Base.{
  keep, All-keep, All-map, ℕ, String, Bool, true, false, ◌||◌, some, none, List, [], ◌∷◌, map, ◌≡◌,
  ◌≢◌, sym, subst, ap, ◌∙◌, arith, All, Bool-cases, inl, inr,
}
use k8s_explore.Base.Dict.{Dict, lookup, IsMap}
use Prim.Native.Char.{code}
use Prim.Native.String.{◌++◌ as text_append}
use text.Mathlib.TextLemmas.{append_cancel_left, cons-append, nil-append}
use k8s_explore.Base.{◌==◌}
use k8s_explore.KubeFwd.{ServiceContext, ServicePair, to_frp_client_pairs}
use k8s_explore.KubeFwd.Tunnelled.{Tunnels, has_local, to_frp_client_pairs_lem}
use k8s_explore.Frp.Config.{Common, common, frp_config, frp_config_lem, Distinct, Without, Listed}

has_dash : String → Bool
has_dash String.[] = false
has_dash (String.◌∷◌ c s) = code c == b'-' || has_dash s

or_true : (b : Bool) → (b || true) ≡ true
or_true b = ground arith

has_dash-append : (s t : String) → has_dash (text_append s t) ≡ has_dash s || has_dash t
unfolding has_dash
has_dash-append String.[] t = rw (nil-append t)
has_dash-append (String.◌∷◌ c s) t = rw (cons-append c s t) (ground (arith, has_dash-append s t))

has_dash_name : (s t : String) → has_dash (text_append s (text_append "-" t)) ≡ true
unfolding has_dash
has_dash_name s t =
    has_dash-append s (text_append "-" t)
    ∙ ap (λ b. has_dash s || b) (has_dash-append "-" t)
    ∙ or_true (has_dash s)

name-ne-common : (s t : String) → text_append s (text_append "-" t) ≢ "common"
unfolding has_dash
name-ne-common s t same = cc (has_dash_name s t, ap has_dash same)

-- No two of the texts are equal.
abbrev pub NoDup : List String → Type 0
NoDup [] = Unit
NoDup (x ∷ xs) = All (λ y. y ≢ x) xs × NoDup xs

keep-NoDup : (p : String → Bool) (xs : List String) → NoDup xs → NoDup (keep p xs)
keep-NoDup p [] h = tt
keep-NoDup p (x ∷ xs) h = elim (Bool-cases (p x)) [
  | inl yes_x ↦ rw yes_x (All-keep _ p xs (All-map _ _ xs (λ y h _. h) h.0), keep-NoDup p xs h.1)
  | inr no_x ↦ rw no_x (keep-NoDup p xs h.1)
]

module _ (itoa : ℕ → String) (local_ip : String) (remote_port_by_local : Dict String)
    (ctx : ServiceContext) (m : IsMap remote_port_by_local)
    (no_blank : lookup "" remote_port_by_local ≡ none) where
  abbrev Pairs : List ServicePair → Type 0
  Pairs = All (Tunnels itoa local_ip remote_port_by_local ctx m no_blank)

  remotes : List ServicePair → List String
  remotes = map (λ pair. pair.service.remote_port)

  Pairs-Without :
      (p : ServicePair) (ps : List ServicePair)
      → Tunnels itoa local_ip remote_port_by_local ctx m no_blank p
      → Pairs ps
      → All (λ y. y ≢ p.service.remote_port) (remotes ps)
      → Without p.name ps
  unfolding remotes
  Pairs-Without p [] good goods h = tt
  Pairs-Without p (q ∷ qs) good goods h = (
    λ same. h.0 (
        append_cancel_left "-" _ _
          (append_cancel_left ctx.service_name _ _ (sym goods.0.3 ∙ same ∙ good.3))),
    Pairs-Without p qs good goods.1 h.1,
  )

  Pairs-Distinct : (ps : List ServicePair) → Pairs ps → NoDup (remotes ps) → Distinct ps
  unfolding remotes
  Pairs-Distinct [] goods h = tt
  Pairs-Distinct (p ∷ ps) goods h = (
    λ same. name-ne-common ctx.service_name p.service.remote_port (sym goods.0.3 ∙ same),
    Pairs-Without p ps goods.0 goods.1 h.0,
    Pairs-Distinct ps goods.1 h.1,
  )

  -- For a map of local ports without a blank one, and where the ports of a service have different
  -- texts: the configuration of the frp client for the pairs of the service has the common section and
  -- the service of every pair under its name: no section overwrites another.
  pub tunnels_configured :
      (c : Common)
      → NoDup (map itoa ctx.ports)
      → let pairs = to_frp_client_pairs itoa local_ip remote_port_by_local ctx in
        (lookup "common" (frp_config c pairs) ≡ some (common c)) × Listed (frp_config c pairs) pairs
  unfolding remotes
  tunnels_configured c distinct =
      let pairs = to_frp_client_pairs itoa local_ip remote_port_by_local ctx in
      let (ports, goods) =
        to_frp_client_pairs_lem itoa local_ip remote_port_by_local ctx m no_blank in
      frp_config_lem c pairs (
        Pairs-Distinct pairs goods (
          subst NoDup (sym ports)
            (keep-NoDup (has_local remote_port_by_local) (map itoa ctx.ports) distinct)))
