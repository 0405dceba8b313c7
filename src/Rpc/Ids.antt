-- ===== src/Rpc/Ids.antt =====
-- api/stream/rpc/rpc.go: the ids of the calls in flight.
use k8s_explore.Base.{
  update, ℕ, String, str_eq, Option, none, some, ◌≡◌, ◌≢◌, sym, ◌∙◌, arith, if◌then◌else◌,
  ℕ_discrete,
}
use k8s_explore.Rpc.{Call, Task, decoded, registering, running, finishing, call_method_cancel}

-- The id that a call in flight has taken; a cancel request takes none.
abbrev pub claims : Task → Option String
claims (decoded call) = if str_eq call.method call_method_cancel then none else some call.id
claims (registering _ call) = some call.id
claims (running _ call) = some call.id
claims (finishing _ call) = some call.id
claims _ = none

-- No two tasks have taken the same id.
abbrev pub IsUnique : (ℕ → Task) → Type 0
IsUnique f = (i j : ℕ) (id : String) → claims (f i) ≡ some id → claims (f j) ≡ some id → i ≡ j

pub IsUnique-update :
    (f : ℕ → Task) (i : ℕ) (t : Task)
    → ((id : String) → claims t ≡ some id → claims (f i) ≡ some id)
    → IsUnique f
    → IsUnique (update f i t)
IsUnique-update f i t same u j k id hj hk = elim (ℕ_discrete i j) [
  | yes ej ↦ elim (ℕ_discrete i k) [
    | yes ek ↦ sym ej ∙ ek
    | no nk ↦ sym ej ∙ u i k id (same id (ground arith)) (ground arith)
  ]
  | no nj ↦ elim (ℕ_discrete i k) [
    | yes ek ↦ u j i id (ground arith) (same id (ground arith)) ∙ ek
    | no nk ↦ u j k id (ground arith) (ground arith)
  ]
]

pub IsUnique-new :
    (f : ℕ → Task) (i : ℕ) (t : Task)
    → ((j : ℕ) (id : String) → claims t ≡ some id → claims (f j) ≢ some id)
    → IsUnique f
    → IsUnique (update f i t)
IsUnique-new f i t fresh u j k id hj hk = elim (ℕ_discrete i j) [
  | yes ej ↦ elim (ℕ_discrete i k) [
    | yes ek ↦ sym ej ∙ ek
    | no nk ↦ absurd (fresh k id (ground arith) (ground arith))
  ]
  | no nj ↦ elim (ℕ_discrete i k) [
    | yes ek ↦ absurd (fresh j id (ground arith) (ground arith))
    | no nk ↦ u j k id (ground arith) (ground arith)
  ]
]

-- A task whose step does not start to run leaves the others as they were.
pub running-update :
    (f : ℕ → Task) (i j ctx : ℕ) (t : Task) (call : Call)
    → t ≢ running ctx call
    → update f i t j ≡ running ctx call
    → (f j ≡ running ctx call) × (i ≢ j)
running-update f i j ctx t call ne h = elim (ℕ_discrete i j) [
  | yes e ↦ absurd (ne (ground arith))
  | no n ↦ (ground arith, n)
]
