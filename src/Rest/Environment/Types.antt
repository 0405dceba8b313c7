-- ===== src/Rest/Environment/Types.antt =====
-- api/rest/environment/environment.go: the type `Environment`, whose two kinds of metadata are types
-- of the Kubernetes libraries.
use k8s_explore.Base.{String, Bool, Option, List}
use k8s_explore.Base.Dict.{Dict}

pub record Frontend : Type 0 where
  pub debug : Bool

pub record Parameters : Type 0 where
  pub install_infra : Bool
  pub frontend : Frontend

pub record CompositionSelector : Type 0 where
  pub match_labels : Dict String

pub record WriteConnectionSecretToRef : Type 0 where
  pub name : String

pub record Condition : Type 0 where
  pub status : String
  pub type : String
  pub reason : String

pub record EnvironmentStatus : Type 0 where
  pub conditions : List Condition

pub record ResourceRef : Type 0 where
  pub name : String

-- `resource_ref` is a pointer, which may be nil.
pub record EnvironmentSpec : Type 0 where
  pub write_connection_secret_to_ref : WriteConnectionSecretToRef
  pub parameters : Parameters
  pub composition_selector : CompositionSelector
  pub resource_ref : Option ResourceRef

pub record Environment (TypeMeta ObjectMeta : Type 0) : Type 0 where
  pub type_meta : TypeMeta
  pub object_meta : ObjectMeta
  pub spec : EnvironmentSpec
  pub status : EnvironmentStatus
