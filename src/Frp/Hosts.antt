-- ===== src/Frp/Hosts.antt =====
-- frp/utils/tcphelper.go and `ChangeHostToKubeTunnel` of frp/manager.go: changes of the hosts file.
-- The library that reads and writes the file is the parameter `HostsLibrary`. `IsAvailable`, which
-- opens a socket, is a reading of the environment in the models of the loops.
use k8s_explore.Base.{
  keep, keep-keep, keep_congr, keep-true, ◌+◌, String, str_eq, Bool, true, false, not, ◌&&◌, ◌||◌,
  Option, none, some, List, [], ◌∷◌, ◌≡◌, sym, ap, ◌∙◌, arith, if◌then◌else◌, Bool-cases, inl, inr,
}
use Prim.Native.String.{◌++◌ as text_append, slice, len}
use text.Mathlib.Text.{find?}
use k8s_explore.KubeFwd.{kubetunnel_slug}

-- A line of the hosts file.
pub record Line : Type 0 where
  pub address : String
  pub hostnames : List String

-- `txeh.Hosts`, and `strings.EqualFold`. `save` returns whether the file could be written. `lines` is
-- a value: the lines that a `range` visits are those of its start, which a later change of the file
-- does not overwrite.
pub record HostsLibrary : Type 1 where
  pub Hosts : Type 0
  pub lines : Hosts → List Line
  pub host_address_lookup : String → Hosts → Option String
  pub remove_address : String → Hosts → Hosts
  pub add_hosts : String → List String → Hosts → Hosts
  pub save : Hosts → Bool
  pub equal_fold : String → String → Bool

-- `strings.Contains`
abbrev pub contains : String → String → Bool
contains s part = elim (find? s part) [ none ↦ false | some _ ↦ true ]

abbrev pub any {ℓ} : {A : Type ℓ} → (A → Bool) → List A → Bool
any p [] = false
any p (x ∷ xs) = p x || any p xs

-- A line with a host of the tunnel.
abbrev pub is_tunnel_line : Line → Bool
is_tunnel_line line = any (λ hostname. contains hostname kubetunnel_slug) line.hostnames

-- `strings.Replace(dns, "kubetunnel-", "", 1)`
unfoldable pub original_service_dns : String → String
original_service_dns dns = elim (find? dns "kubetunnel-") [
  | none ↦ dns
  | some i ↦ text_append (slice dns 0 i) (slice dns (i + 11) (len dns))
]

module _ (lib : HostsLibrary) where
  -- The loop of `HostsCleanup`, over the lines that the file had at its start.
  unfoldable pub cleanup_lines : List Line → lib.Hosts → lib.Hosts
  cleanup_lines [] hosts = hosts
  cleanup_lines (line ∷ rest) hosts =
      cleanup_lines rest
        (if is_tunnel_line line then lib.remove_address line.address hosts else hosts)

  -- `HostsCleanup`
  unfoldable pub hosts_cleanup : lib.Hosts → lib.Hosts
  unfolding cleanup_lines
  hosts_cleanup hosts = cleanup_lines (lib.lines hosts) hosts

  -- The loop of `ReplaceAddressForHost`; `none` is the panic of a failed save.
  unfoldable pub replace_lines : String → String → List Line → lib.Hosts → Option lib.Hosts
  replace_lines src_host new_addr [] hosts = some hosts
  replace_lines src_host new_addr (line ∷ rest) hosts =
      elim (any (λ hostname. lib.equal_fold src_host hostname) line.hostnames) [
        | false ↦ replace_lines src_host new_addr rest hosts
        | true ↦
            let hosts' =
              lib.add_hosts new_addr line.hostnames (lib.remove_address line.address hosts) in
            elim (lib.save hosts') [
              | false ↦ none
              | true ↦ replace_lines src_host new_addr rest hosts'
            ]
      ]

  -- `ReplaceAddressForHost`; `none` is also the panic for an unknown target.
  unfoldable pub replace_address_for_host : String → String → lib.Hosts → Option lib.Hosts
  unfolding replace_lines
  replace_address_for_host src_host dst_host hosts = elim (lib.host_address_lookup dst_host hosts) [
    | none ↦ none
    | some new_addr ↦ replace_lines src_host new_addr (lib.lines hosts) hosts
  ]

  -- `ChangeHostToKubeTunnel`
  unfoldable pub change_host_to_kube_tunnel : String → lib.Hosts → Option lib.Hosts
  unfolding replace_address_for_host original_service_dns
  change_host_to_kube_tunnel dns hosts =
      replace_address_for_host (original_service_dns dns) dns hosts

-- What is documented of `RemoveAddress`: it takes out every line of the address, and no other.
pub record RemovesAddress (lib : HostsLibrary) : Type 0 where
  pub lines_removed :
      (address : String) (hosts : lib.Hosts)
      → lib.lines (lib.remove_address address hosts)
        ≡ keep (λ line. not (str_eq line.address address)) (lib.lines hosts)

-- The address has a line with a host of the tunnel.
abbrev pub is_tunnel_address : List Line → String → Bool
is_tunnel_address lines address =
    any (λ line. is_tunnel_line line && str_eq address line.address) lines

de_morgan : (a b : Bool) → (not a && not b) ≡ not (a || b)
de_morgan a b = ground arith

module _ (lib : HostsLibrary) (laws : RemovesAddress lib) where
  cleanup_lines_lem :
      (rest : List Line) (hosts : lib.Hosts)
      → lib.lines (cleanup_lines lib rest hosts)
        ≡ keep (λ line. not (is_tunnel_address rest line.address)) (lib.lines hosts)
  unfolding cleanup_lines
  cleanup_lines_lem [] hosts = sym (keep-true (lib.lines hosts))
  cleanup_lines_lem (line ∷ rest) hosts = elim (Bool-cases (is_tunnel_line line)) [
    | inl tunnel ↦ rw tunnel (
        cleanup_lines_lem rest (lib.remove_address line.address hosts)
        ∙ ap (keep _) (laws.lines_removed line.address hosts)
        ∙ keep-keep _ _ (lib.lines hosts)
        ∙ keep_congr _ _ (lib.lines hosts) (λ x. de_morgan (str_eq x.address line.address) _))
    | inr other ↦ rw other (cleanup_lines_lem rest hosts)
  ]

  -- `HostsCleanup` keeps, in order, the lines of the addresses that have no line with a host of the
  -- tunnel, and takes out every other line: also one without such a host, if it shares its address
  -- with one that has it.
  pub hosts_cleanup_lem :
      (hosts : lib.Hosts)
      → lib.lines (hosts_cleanup lib hosts)
        ≡ keep (λ line. not (is_tunnel_address (lib.lines hosts) line.address)) (lib.lines hosts)
  unfolding hosts_cleanup
  hosts_cleanup_lem hosts = cleanup_lines_lem (lib.lines hosts) hosts
