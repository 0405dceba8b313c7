-- ===== src/Watch/Serving.antt =====
-- api/stream/rpc/kube/objects/watch.go: what a watch call asks for, and what it sends.
use k8s_explore.Base.{
  take, ℕ, String, str_eq, eq_iff, Bool, none, some, List, [], ◌∷◌, map, ◌≡◌, refl, arith, ◌⊎◌, ◌↔◌,
  inl, inr, Error, message, foreign, ok, if◌then◌else◌, Bool-cases, Result-cases,
}
use k8s_explore.Base.Dict.{String-cases}
use Prim.Native.String.{◌++◌ as text_append}
use text.Mathlib.TextLemmas.{nil-append}
use k8s_explore.KubeClient.{Api, ClientPool, context}
use k8s_explore.KubeClient.Valid.{IsValid}
use k8s_explore.KubeClient.Caching.{ClientOf, context-ready}
use k8s_explore.Rpc.{Call}
use k8s_explore.Watch.{
  watch, ParamsWatch, ListOptions, Informers, Event, added, updated, deleted, Response, plain,
  tweak, Informer, returned, encode_response, on_event, on_events, all_synced, handle, refused,
}

-- The requirements that a call names, and a selector of several requirements.
abbrev pub requirements : ParamsWatch → List String
requirements params =
    let by_name =
      if str_eq params.name "" then [] else text_append "metadata.name=" params.name ∷ [] in
    if str_eq params.field_selector "" then by_name else params.field_selector ∷ by_name

abbrev pub selector : List String → String
selector [] = ""
selector (r ∷ []) = r
selector (r ∷ s ∷ rest) = text_append (text_append r ",") (selector (s ∷ rest))

-- The list options have the selector of the requirements that the call names, and its labels,
-- whatever they were before.
pub tweak_lem :
    (params : ParamsWatch) (options : ListOptions)
    → tweak params options ≡ record {
      field_selector = selector (requirements params);
      label_selector = params.label_selector;
    }
unfolding tweak
tweak_lem params options = elim (String-cases params.field_selector "") [
  | inl blank ↦ ground (
    arith,
    blank,
    eq_iff params.field_selector "",
    nil-append (text_append "metadata.name=" params.name),
  )
  | inr ne ↦ ground (arith, eq_iff params.field_selector "")
]

module _ {api : Api} (informers : Informers api) where
  -- A reply to a change has the id of the call and the printed object. It has an error exactly if one
  -- of the two printers fails, and then the object stands beside the error.
  pub encode_response_lem :
      (call : Call) (obj : informers.Object) (event : String)
      → let response = encode_response informers call obj event none in
        (response.id ≡ call.id)
        × (response.result
            ≡ some (record {
              yaml = (informers.print_yaml obj).0;
              json = (informers.print_json obj).0;
              event = event;
            }))
        × ((response.error ≡ none)
            ↔ (((informers.print_yaml obj).1 ≡ none) × ((informers.print_json obj).1 ≡ none)))
  unfolding encode_response
  encode_response_lem call obj event = (refl, refl, (λ h. ground arith, λ h. ground arith))

  -- The objects of the events, with the kind of change; what is not unstructured is passed over.
  abbrev pub changes : List (Event informers.Object) → List (String × informers.Object)
  changes [] = []
  changes (added obj ∷ es) =
      let rest = changes es in if informers.is_unstructured obj then ("added", obj) ∷ rest else rest
  changes (updated _ obj ∷ es) =
      let rest = changes es in
      if informers.is_unstructured obj then ("updated", obj) ∷ rest else rest
  changes (deleted obj ∷ es) =
      let rest = changes es in
      if informers.is_unstructured obj then ("deleted", obj) ∷ rest else rest

  abbrev pub replies_to : Call → List (Event informers.Object) → List Response
  replies_to call es = map (λ c. encode_response informers call c.1 c.0 none) (changes es)

  pub on_events_lem :
      (call : Call) (es : List (Event informers.Object))
      → on_events informers call es ≡ replies_to call es
  unfolding on_events on_event
  on_events_lem call [] = refl
  on_events_lem call (added obj ∷ es) = ground (arith, on_events_lem call es)
  on_events_lem call (updated old obj ∷ es) = ground (arith, on_events_lem call es)
  on_events_lem call (deleted obj ∷ es) = ground (arith, on_events_lem call es)

  -- The informer that a call with these parameters starts.
  abbrev pub informer : api.DynamicClient → ParamsWatch → Informer api
  informer d params = record {
    client = d;
    namespace = params.namespace;
    options = tweak params;
    group = params.group;
    version = params.version;
    resource = params.resource;
  }

  plain-context : (params : ParamsWatch) → (plain params).context ≡ params.context
  plain-context params = ground (arith)

  module _ (call : Call) (raw : informers.RawMessage) (events : List (Event informers.Object))
      (received : ℕ) (p : ClientPool api) (v : IsValid p) where
    -- A watch call for a context of a valid pool starts one informer with the client that the pool has
    -- for that context. If the informer syncs, the replies that are received before the call closes its
    -- channel are the first ones of those for the changes, one for each, in the order of the changes, and
    -- else there are none; it ends without an error, and the pool stays as it is.
    pub handle_serves :
        (oks : List Bool) (params : ParamsWatch) (r : ℕ)
        → call.method ≡ watch
        → informers.unmarshal raw ≡ ok params
        → context params.context p ≡ ok r
        → (d : api.DynamicClient) × ClientOf params.context p d
          × (handle informers call raw oks events received p ≡ record {
            end = returned none;
            pool = p;
            started = some (informer d (plain params));
            replies =
                if all_synced informers oks then take received (replies_to call events) else [];
          })
    unfolding handle
    handle_serves oks params r m decoded known =
        let (c, d, at, named, ready) = context-ready params.context r p v known in
        (
          d,
          (r, c, known, at, named, ready),
          ground (
            arith,
            eq_iff call.method watch,
            plain-context params,
            at,
            ready,
            on_events_lem call events,
          ),
        )

    -- On a valid pool a watch call does not panic and leaves the pool as it is; where it ends with an
    -- error, no informer has been started and nothing has been sent.
    pub handle_safe :
        (oks : List Bool)
        → let run = handle informers call raw oks events received p in
          (run.pool ≡ p)
          × ((run.end ≡ returned none) ⊎ ((e : Error api.ApiError) × (run ≡ refused informers e p)))
    unfolding handle
    handle_safe oks = elim (Bool-cases (str_eq call.method watch)) [
      | inr other ↦ rw other (refl, inr (message "call has been miss dispatched", refl))
      | inl same ↦ elim (Result-cases (informers.unmarshal raw)) [
        | inr (e, failed) ↦ rw (same, failed) (refl, inr (foreign e, refl))
        | inl (params, decoded) ↦ elim (Result-cases (context params.context p)) [
          | inr (e, unknown) ↦
              rw (same, decoded, plain-context params, unknown) (refl, inr (e, refl))
          | inl (r, known) ↦
              let (d, its_client, done) =
                handle_serves oks params r ((eq_iff call.method watch).0 same) decoded known in
              rw done (refl, inl refl)
        ]
      ]
    ]
