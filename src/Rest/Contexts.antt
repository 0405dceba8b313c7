-- ===== src/Rest/Contexts.antt =====
-- api/rest/kube/contexts/contexts.go: `List`, the contexts of the pool.
pub mod Listing
pub mod Order
use k8s_explore.Base.{ℕ, String, str_eq, Bool, some, List, [], ◌∷◌, ◌++◌}
use k8s_explore.KubeClient.{Api, Context}
use k8s_explore.Rest.Gin.{M, pure, json, all_contexts, find_current, load, ◌>>=◌, ◌>>◌}

-- The package's type `Context`
pub record ContextInfo : Type 0 where
  pub name : String
  pub user : String
  pub cluster : String
  pub cluster_uid : String
  pub namespace : String
  pub current : Bool

module _ {api : Api} where
  -- `current` is the name of the pool's current context.
  abbrev pub describe : Context api → String → ContextInfo
  describe c current = record {
    name = c.name;
    user = c.user;
    cluster = c.cluster;
    cluster_uid = c.cluster_uid;
    namespace = c.namespace;
    current = str_eq c.name current;
  }

  -- The loop over `Contexts()`; it asks for the current context in every round.
  unfoldable pub collect :
      List ContextInfo → List ℕ → M api (List ContextInfo) (Unit {0}) (List ContextInfo)
  collect cs [] = pure cs
  collect cs (r ∷ rs) = do
    kcxt ← load (some r)
    p ← find_current
    current ← load p
    collect (cs ++ describe kcxt current.name ∷ []) rs

  -- `Handler.List`
  unfoldable pub handle_list : M api (List ContextInfo) (Unit {0}) (Unit {0})
  handle_list = do rs ← all_contexts; cs ← collect [] rs; json 200 cs
