-- ===== src/Base/Dict.antt =====
-- A Go map with string keys, as its entries in some order of iteration.
use Prim.Native.String.{String}
use mathlib.Core.Path.{◌≡◌, refl, sym, ◌∙◌}
use mathlib.Core.Logic.{◌≢◌, ◌⊎◌, inl, inr}
use mathlib.Core.Option.{Option, none, some}
use mathlib.Core.List.{List, [], ◌∷◌}
use native.Mathlib.Omega.{arith}
use text.Mathlib.Text.{◌==◌}
use text.Mathlib.TextEquality.{eq_iff}
use k8s_explore.Base.Tests.{if◌then◌else◌, Bool-cases}

pub String-cases : (s t : String) → (s ≡ t) ⊎ (s ≢ t)
String-cases s t = elim (Bool-cases (s == t)) [
  | inl same ↦ inl ((eq_iff s t).0 same)
  | inr other ↦ inr (λ e. cc (other, (eq_iff s t).1 e))
]

abbrev pub Dict {ℓ} : Type ℓ → Type ℓ
Dict V = List (String × V)

module _ {ℓ} {V : Type ℓ} where
  -- `v, found := m[key]`
  abbrev pub lookup : String → Dict V → Option V
  lookup key [] = none
  lookup key (e ∷ m) = if key == e.0 then some e.1 else lookup key m

  -- `m[key] = v`
  abbrev pub insert : String → V → Dict V → Dict V
  insert key v [] = (key, v) ∷ []
  insert key v (e ∷ m) = if key == e.0 then (key, v) ∷ m else e ∷ insert key v m

  -- `delete(m, key)`
  abbrev pub delete : String → Dict V → Dict V
  delete key [] = []
  delete key (e ∷ m) = let rest = delete key m in if key == e.0 then rest else e ∷ rest

  pub lookup-insert_self :
      (key : String) (v : V) (m : Dict V) → lookup key (insert key v m) ≡ some v
  lookup-insert_self key v [] = ground (arith, eq_iff key key)
  lookup-insert_self key v (e ∷ m) =
      ground (arith, eq_iff key key, eq_iff key e.0, lookup-insert_self key v m)

  pub lookup-insert_ne :
      (key j : String) (v : V) (m : Dict V) → j ≢ key → lookup j (insert key v m) ≡ lookup j m
  lookup-insert_ne key j v [] h = ground (arith, eq_iff j key)
  lookup-insert_ne key j v (e ∷ m) h =
      ground (arith, eq_iff j key, eq_iff key e.0, eq_iff j e.0, lookup-insert_ne key j v m h)

  pub lookup-delete_self : (key : String) (m : Dict V) → lookup key (delete key m) ≡ none
  lookup-delete_self key [] = refl
  lookup-delete_self key (e ∷ m) = ground (arith, lookup-delete_self key m)

  pub lookup-delete_ne :
      (key j : String) (m : Dict V) → j ≢ key → lookup j (delete key m) ≡ lookup j m
  lookup-delete_ne key j [] h = refl
  lookup-delete_ne key j (e ∷ m) h =
      ground (arith, eq_iff j key, eq_iff key e.0, eq_iff j e.0, lookup-delete_ne key j m h)

  -- Each key stands once, as in every Go map.
  abbrev pub IsMap : Dict V → Type ℓ
  IsMap [] = Unit
  IsMap (e ∷ m) = (lookup e.0 m ≡ none) × IsMap m

  pub lookup-cons-none :
      (key : String) (e : String × V) (m : Dict V)
      → lookup key (e ∷ m) ≡ none
      → (key ≢ e.0) × (lookup key m ≡ none)
  lookup-cons-none key e m h =
      (λ same. ground (arith, eq_iff key e.0), ground (arith, eq_iff key e.0))

  pub insert-IsMap : (key : String) (v : V) (m : Dict V) → IsMap m → IsMap (insert key v m)
  insert-IsMap key v [] h = (refl, tt)
  insert-IsMap key v (e ∷ m) h = ground (
    arith,
    eq_iff key e.0,
    eq_iff e.0 key,
    insert-IsMap key v m h.1,
    lookup-insert_ne key e.0 v m,
  )

  pub insert-ne-nil : (key : String) (v : V) (m : Dict V) → insert key v m ≢ []
  insert-ne-nil key v [] h = cc
  insert-ne-nil key v (e ∷ m) h = ground arith

  -- What is found after `m[key] = v` is `v` under `key`, and what was there under any other key.
  pub lookup-insert-cases :
      (key j : String) (v : V) (m : Dict V) {w : V}
      → lookup j (insert key v m) ≡ some w
      → ((j ≡ key) × (v ≡ w)) ⊎ ((j ≢ key) × (lookup j m ≡ some w))
  lookup-insert-cases key j v m h = elim (String-cases j key) [
    | inl same ↦ inl (same, cc (lookup-insert_self key v m))
    | inr other ↦ inr (other, sym (lookup-insert_ne key j v m other) ∙ h)
  ]

  -- No key is lost by `m[key] = v`.
  pub lookup-insert_kept :
      (key j : String) (v : V) (m : Dict V) {w : V}
      → lookup j m ≡ some w
      → (u : V) × (lookup j (insert key v m) ≡ some u)
  lookup-insert_kept key j v m {w} h = elim (String-cases j key) [
    | inl same ↦ (v, rw same (lookup-insert_self key v m))
    | inr other ↦ (w, lookup-insert_ne key j v m other ∙ h)
  ]

  -- What is found after `delete(m, key)` is under another key, and was there before.
  pub lookup-delete-cases :
      (key j : String) (m : Dict V) {w : V}
      → lookup j (delete key m) ≡ some w
      → (j ≢ key) × (lookup j m ≡ some w)
  lookup-delete-cases key j m h = elim (String-cases j key) [
    | inl same ↦ absurd (cc (lookup-delete_self key m))
    | inr other ↦ (other, sym (lookup-delete_ne key j m other) ∙ h)
  ]
