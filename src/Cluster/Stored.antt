-- ===== src/Cluster/Stored.antt =====
-- kubefwd/kube/kube.go: what `CreateKubeTunnelResource` leaves on the API server.
use k8s_explore.Base.{
  ◌⊎◌, String, Option, none, some, ◌≡◌, ◌≢◌, refl, sym, ◌∙◌, ap, subst, ok, err, inl, inr,
  Result-cases,
}
use k8s_explore.Cluster.Upsert.{
  KubeTunnelResource, Rest, Fault, foreign, unreadable, as_fault, resources_url, resource_url,
  new_resource, create_kube_tunnel_resource,
}

-- What the API server documents. Behind a URL stands no resource, or one with a version and the body of
-- the write that made it. A POST that succeeds has made a resource that was not there, with a version
-- of its own; a PUT that succeeds has replaced one of the version that the body carries. A write,
-- whether it succeeds or not, changes no URL but that of its resource. Any read or write may fail.
pub record RestLaws (rest : Rest) : Type 0 where
  pub view : String → rest.Store → Option (String × rest.Bytes)
  pub post_creates :
      (url : String) (s s' : rest.Store) (r : KubeTunnelResource rest.Spec) (body : rest.Bytes)
      → rest.marshal r ≡ ok body
      → rest.post url body s ≡ (none, s')
      → (view (resource_url url r.name) s ≡ none)
        × (version : String) × (view (resource_url url r.name) s' ≡ some (version, body))
  pub post_others :
      (url : String) (s : rest.Store) (r : KubeTunnelResource rest.Spec) (body : rest.Bytes)
      (other : String)
      → rest.marshal r ≡ ok body
      → other ≢ resource_url url r.name
      → view other (rest.post url body s).1 ≡ view other s
  pub put_replaces :
      (path : String) (s s' : rest.Store) (r : KubeTunnelResource rest.Spec) (body : rest.Bytes)
      → rest.marshal r ≡ ok body
      → rest.put path body s ≡ (none, s')
      → (old : rest.Bytes) × (view path s ≡ some (r.resource_version, old))
        × (version : String) × (view path s' ≡ some (version, body))
  pub put_others :
      (path : String) (s : rest.Store) (body : rest.Bytes) (other : String)
      → other ≢ path
      → view other (rest.put path body s).1 ≡ view other s

module _ (rest : Rest) (laws : RestLaws rest) (namespace : String) (spec : rest.Spec)
    (s : rest.Store) where
  abbrev url : String
  url = resources_url namespace

  abbrev name : String
  name = rest.service_name spec

  abbrev path : String
  path = resource_url url name

  -- The new resource, with the version that the old one had.
  abbrev versioned : String → KubeTunnelResource rest.Spec
  versioned v = record (new_resource rest spec) { resource_version = v }

  -- The version is that of the resource that was read.
  abbrev pub IsRead : String → Type 0
  IsRead v =
      (data_ : rest.Bytes) × (old : KubeTunnelResource rest.Spec) × (rest.get path s ≡ ok data_)
      × (rest.unmarshal data_ ≡ ok old)
      × (v ≡ old.resource_version)

  -- Without an error, the new resource stands behind the URL, where there was none, or one of the
  -- version that was read and sent.
  abbrev pub Written : rest.Store → Type 0
  Written s' =
      (sent : String) × (body : rest.Bytes) × (version : String) × (rest.marshal (versioned sent)
        ≡ ok body)
      × (laws.view path s' ≡ some (version, body))
      × (((sent ≡ "") × (laws.view path s ≡ none))
          ⊎ (IsRead sent × ((old : rest.Bytes) × (laws.view path s ≡ some (sent, old)))))

  -- An error is that of an encoding or a write, or says that the resource read cannot be decoded; in
  -- that case, and where the encoding fails, nothing has been written.
  abbrev pub Failed : Fault rest.Failure → rest.Store → Type 0
  Failed (foreign e) s' =
      ((sent : String) × (rest.marshal (versioned sent) ≡ err e) × (s' ≡ s))
      ⊎ ((body : rest.Bytes) × (rest.marshal (versioned "") ≡ ok body)
          × (rest.post url body s ≡ (some e, s')))
      ⊎ ((sent : String) × (body : rest.Bytes) × IsRead sent
          × (rest.marshal (versioned sent) ≡ ok body)
          × (rest.put path body s ≡ (some e, s')))
  Failed (unreadable n) s' =
      (n ≡ name)
      × (s' ≡ s)
      × ((data_ : rest.Bytes) × (e : rest.Failure) × (rest.get path s ≡ ok data_)
          × (rest.unmarshal data_ ≡ err e))

  abbrev pub Explained : Option (Fault rest.Failure) × rest.Store → Type 0
  Explained (none, s') = Written s'
  Explained (some fault, s') = Failed fault s'

  -- No URL but that of the resource has changed.
  abbrev pub OthersKept : Option (Fault rest.Failure) × rest.Store → Type 0
  OthersKept r = (other : String) → other ≢ path → laws.view other r.1 ≡ laws.view other s

  posted :
      (body : rest.Bytes) (r : Option rest.Failure × rest.Store)
      → rest.marshal (versioned "") ≡ ok body
      → rest.post url body s ≡ r
      → Explained (as_fault r) × OthersKept (as_fault r)
  posted body (none, s') made sends =
      let (absent, version, stored) = laws.post_creates url s s' (versioned "") body made sends in
      (
        ("", body, version, made, stored, inl (refl, absent)),
        λ other ne.
            ap (λ r. laws.view other r.1) (sym sends)
            ∙ laws.post_others url s (versioned "") body other made ne,
      )
  posted body (some e, s') made sends = (
    inr (inl (body, made, sends)),
    λ other ne.
        ap (λ r. laws.view other r.1) (sym sends)
        ∙ laws.post_others url s (versioned "") body other made ne,
  )

  put_back :
      (v : String) (body : rest.Bytes) (r : Option rest.Failure × rest.Store)
      → IsRead v
      → rest.marshal (versioned v) ≡ ok body
      → rest.put path body s ≡ r
      → Explained (as_fault r) × OthersKept (as_fault r)
  put_back v body (none, s') read made sends =
      let (old, present, version, stored) =
        laws.put_replaces path s s' (versioned v) body made sends in
      (
        (v, body, version, made, stored, inr (read, (old, present))),
        λ other ne.
            ap (λ r. laws.view other r.1) (sym sends) ∙ laws.put_others path s body other ne,
      )
  put_back v body (some e, s') read made sends = (
    inr (inr (v, body, read, made, sends)),
    λ other ne. ap (λ r. laws.view other r.1) (sym sends) ∙ laws.put_others path s body other ne,
  )

  outcome :
      (r : Option (Fault rest.Failure) × rest.Store)
      → create_kube_tunnel_resource rest namespace spec s ≡ r
      → Explained r × OthersKept r
      → Explained (create_kube_tunnel_resource rest namespace spec s)
        × OthersKept (create_kube_tunnel_resource rest namespace spec s)
  outcome r same = subst (λ x. Explained x × OthersKept x) (sym same)

  -- On a server that keeps to its documentation, whatever its reads and writes and the encoder
  -- return: if `CreateKubeTunnelResource` returns no error, the new resource stands behind its URL,
  -- with some version, and there was none there before, or one of the version that was read and
  -- sent with the new one; an error that it returns is that of an encoding, of the POST, or of the
  -- PUT with the version that was read, or says that the resource that was read cannot be decoded,
  -- and where nothing was sent nothing has changed; and in any case no other resource has changed.
  pub create_kube_tunnel_resource_lem :
      Explained (create_kube_tunnel_resource rest namespace spec s)
      × OthersKept (create_kube_tunnel_resource rest namespace spec s)
  unfolding create_kube_tunnel_resource
  create_kube_tunnel_resource_lem = elim (Result-cases (rest.get path s)) [
    | inr (e, missing) ↦ elim (Result-cases (rest.marshal (versioned ""))) [
      | inr (e', fails) ↦
          outcome (some (foreign e'), s) (rw (missing, fails, create_kube_tunnel_resource) refl)
            (inl ("", fails, refl), λ other ne. refl)
      | inl (body, made) ↦
          outcome (as_fault (rest.post url body s))
            (rw (missing, made, create_kube_tunnel_resource) refl)
            (posted body (rest.post url body s) made refl)
    ]
    | inl (data_, found) ↦ elim (Result-cases (rest.unmarshal data_)) [
      | inr (e, bad) ↦
          outcome (some (unreadable name), s) (rw (found, bad, create_kube_tunnel_resource) refl)
            ((refl, refl, (data_, e, found, bad)), λ other ne. refl)
      | inl (old, decoded) ↦ elim (Result-cases (rest.marshal (versioned old.resource_version))) [
        | inr (e', fails) ↦
            outcome (some (foreign e'), s)
              (rw (found, decoded, fails, create_kube_tunnel_resource) refl)
              (inl (old.resource_version, fails, refl), λ other ne. refl)
        | inl (body, made) ↦
            outcome (as_fault (rest.put path body s))
              (rw (found, decoded, made, create_kube_tunnel_resource) refl)
              (put_back old.resource_version body (rest.put path body s)
                (data_, old, found, decoded, refl) made refl)
      ]
    ]
  ]
