-- ===== src/KubeFwd/Order.antt =====
-- kubefwd/kube/utils.go: `ToFRPClientPairs` inverts the map of local ports, which it visits in an order
-- that Go leaves open.
use mathlib.Core.Option.{some-injective}
use mathlib.Core.List.{Memᴰ}
use k8s_explore.Base.{
  ℕ, String, str_eq, eq_iff, true, some, none, Option, List, [], ◌∷◌, ◌++◌, map, ◌≡◌, ◌≢◌, refl,
  sym, ◌∙◌, ap, arith, inl, inr, ◌↔◌, Bool-cases, if◌then◌else◌,
}
use k8s_explore.Base.Dict.{Dict, lookup, insert, delete, IsMap, String-cases, lookup-insert_self}
use k8s_explore.Base.Orders.{OneMap, visited_last, visited_last-OneMap}
use k8s_explore.KubeFwd.{
  ServiceContext, ServicePair, read, invert, keep_some, pair_of, to_frp_client_pairs,
}
use k8s_explore.KubeFwd.Tunnelled.{has_local, invert-cases}

-- At most one local port is mapped to the remote port.
abbrev pub OneLocal : Dict String → String → Type 0
OneLocal es remote =
    (l l' : String) → lookup l es ≡ some remote → lookup l' es ≡ some remote → l ≡ l'

lookup-has_local :
    (l remote : String) (es : Dict String) → lookup l es ≡ some remote → has_local es remote ≡ true
lookup-has_local l remote [] h = cc
lookup-has_local l remote (e ∷ es) h = elim (String-cases l e.0) [
  | inl here ↦
      let it : e.1 ≡ remote = some-injective e.1 remote (ground (arith, eq_iff l e.0)) in
      ground (arith, eq_iff remote e.1)
  | inr other ↦
      let later = lookup-has_local l remote es (ground (arith, eq_iff l e.0)) in
      ground (arith, later)
]

invert-order :
    (es es' : Dict String) (remote : String)
    → OneMap es es'
    → OneLocal es remote
    → lookup remote (invert es []) ≡ lookup remote (invert es' [])
invert-order es es' remote o one = elim (invert-cases es [] remote o.keys) [
  | inl (l, found, at, known) ↦ elim (invert-cases es' [] remote o.other_keys) [
    | inl (l', found', at', known') ↦ found ∙ ap some (one l l' at (o.same l' ∙ at')) ∙ sym found'
    | inr (unknown, _) ↦ absurd (cc (unknown, lookup-has_local l remote es' (sym (o.same l) ∙ at)))
  ]
  | inr (unknown, missing) ↦ elim (invert-cases es' [] remote o.other_keys) [
    | inl (l', found', at', known') ↦
        absurd (cc (unknown, lookup-has_local l' remote es (o.same l' ∙ at')))
    | inr (_, missing') ↦ missing ∙ sym missing'
  ]
]

-- The entry that is visited last wins.
invert-last :
    (l remote : String) (es done : Dict String)
    → lookup remote (invert (es ++ (l, remote) ∷ []) done) ≡ some l
unfolding invert
invert-last l remote [] done = lookup-insert_self remote l done
invert-last l remote (e ∷ es) done = invert-last l remote es (insert e.1 e.0 done)

-- The local port of the first pair for the remote port.
abbrev local_of : String → List ServicePair → Option String
local_of remote [] = none
local_of remote (p ∷ ps) =
    let rest = local_of remote ps in
    if str_eq p.service.remote_port remote then some p.service.local_port else rest

module _ (itoa : ℕ → String) (local_ip : String) (ctx : ServiceContext) where
  pair_of-order :
      (es es' : Dict String) (port : ℕ)
      → OneMap es es'
      → OneLocal es (itoa port)
      → pair_of itoa local_ip (invert es []) ctx port
        ≡ pair_of itoa local_ip (invert es' []) ctx port
  unfolding pair_of
  pair_of-order es es' port o one = rw (read, invert-order es es' (itoa port) o one) refl

  map-pair_of :
      (es es' : Dict String) (ports : List ℕ)
      → OneMap es es'
      → ((port : ℕ) → Memᴰ port ports → OneLocal es (itoa port))
      → map (pair_of itoa local_ip (invert es []) ctx) ports
        ≡ map (pair_of itoa local_ip (invert es' []) ctx) ports
  map-pair_of es es' [] o one = refl
  map-pair_of es es' (port ∷ ports) o one = cc (
    pair_of-order es es' port o (one port (Memᴰ.head refl)),
    map-pair_of es es' ports o (λ p m. one p (Memᴰ.tail m)),
  )

  module _ (inverted : Dict String) (l : String) (port : ℕ)
      (found : lookup (itoa port) inverted ≡ some l) (ne : l ≢ "") where
    local_of-here :
        (p : ℕ) (os : List (Option ServicePair))
        → itoa p ≡ itoa port
        → local_of (itoa port) (keep_some (pair_of itoa local_ip inverted ctx p ∷ os)) ≡ some l
    unfolding pair_of
    local_of-here p os same =
        let here : read (itoa p) inverted ≡ l =
          ap (λ text. read text inverted) same ∙ rw (found, read) refl in
        ground (arith, here, ne, eq_iff (read (itoa p) inverted) "", eq_iff (itoa p) (itoa port))

    local_of-later :
        (p : ℕ) (os : List (Option ServicePair))
        → itoa p ≢ itoa port
        → local_of (itoa port) (keep_some (pair_of itoa local_ip inverted ctx p ∷ os))
          ≡ local_of (itoa port) (keep_some os)
    unfolding pair_of
    local_of-later p os other = elim (Bool-cases (str_eq (read (itoa p) inverted) "")) [
      | inl blank ↦ rw blank refl
      | inr there ↦ rw there (ground (arith, eq_iff (itoa p) (itoa port)))
    ]

    pairs-local_of :
        (ports : List ℕ)
        → Memᴰ port ports
        → local_of (itoa port) (keep_some (map (pair_of itoa local_ip inverted ctx) ports)) ≡ some l
    pairs-local_of [] m = elim m [ ]
    pairs-local_of (p ∷ ports) m = elim (String-cases (itoa p) (itoa port)) [
      | inl same ↦ local_of-here p (map (pair_of itoa local_ip inverted ctx) ports) same
      | inr other ↦
          local_of-later p (map (pair_of itoa local_ip inverted ctx) ports) other
          ∙ pairs-local_of ports (later p ports m other)
    ]
      where
        later :
            (p : ℕ) (ports : List ℕ) → Memᴰ port (p ∷ ports) → itoa p ≢ itoa port → Memᴰ port ports
        later p ports (Memᴰ.head same) other = absurd (other (ap itoa (sym same)))
        later p ports (Memᴰ.tail m) other = m

  -- The pairs are the same for every order of the map.
  abbrev pub Settled : Dict String → Type 0
  Settled es =
      (es' : Dict String)
      → OneMap es es'
      → to_frp_client_pairs itoa local_ip es ctx ≡ to_frp_client_pairs itoa local_ip es' ctx

  -- No two local ports are mapped to one port of the service.
  abbrev pub Unshared : Dict String → Type 0
  Unshared es = (port : ℕ) → Memᴰ port ctx.ports → OneLocal es (itoa port)

  Unshared-Settled : (es : Dict String) → Unshared es → Settled es
  unfolding to_frp_client_pairs
  Unshared-Settled es one es' o = ap keep_some (map-pair_of es es' ctx.ports o one)

  -- A local port of the map can be the one that is tunnelled.
  last-wins :
      (es : Dict String) (l : String) (port : ℕ)
      → IsMap es
      → l ≢ ""
      → Memᴰ port ctx.ports
      → lookup l es ≡ some (itoa port)
      → Settled es
      → local_of (itoa port) (to_frp_client_pairs itoa local_ip es ctx) ≡ some l
  unfolding to_frp_client_pairs
  last-wins es l port k ne m found settled =
      let es' = visited_last l (itoa port) es in
      ap (local_of (itoa port)) (settled es' (visited_last-OneMap l (itoa port) es k found))
      ∙ pairs-local_of (invert es' []) l port (invert-last l (itoa port) (delete l es) []) ne
          ctx.ports m

  Settled-Unshared : (es : Dict String) → IsMap es → lookup "" es ≡ none → Settled es → Unshared es
  Settled-Unshared es k no_blank settled port m l l' at at' = some-injective l l' (
      sym (last-wins es l port k (ne l at) m at settled)
      ∙ last-wins es l' port k (ne l' at') m at' settled)
    where
      ne : (l : String) → lookup l es ≡ some (itoa port) → l ≢ ""
      ne l at blank = cc (no_blank, at, ap (λ j. lookup j es) blank)

  -- For a map of local ports without a blank one: the pairs do not depend on the order in which the
  -- map is visited exactly if no two local ports are mapped to one port of the service.
  pub to_frp_client_pairs-Settled :
      (es : Dict String) → IsMap es → lookup "" es ≡ none → Settled es ↔ Unshared es
  to_frp_client_pairs-Settled es k no_blank = (Settled-Unshared es k no_blank, Unshared-Settled es)
