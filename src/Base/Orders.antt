-- ===== src/Base/Orders.antt =====
-- Go's `range` over a map visits the entries in an order that is left open: two lists of entries of
-- one map.
use mathlib.Core.Path.{◌≡◌, refl, sym, ◌∙◌}
use mathlib.Core.Logic.{◌≢◌, inl, inr}
use mathlib.Core.Option.{none, some, some-injective}
use mathlib.Core.List.{[], ◌∷◌, ◌++◌}
use mathlib.Core.List.Permᴰ
use mathlib.Core.List.{Permᴰ}
use native.Mathlib.Omega.{arith}
use text.Mathlib.Text.{◌==◌}
use k8s_explore.Base.Tests.{if◌then◌else◌}
use text.Mathlib.TextEquality.{eq_iff}
use Prim.Native.String.{String}
use k8s_explore.Base.Dict.{
  Dict, lookup, delete, IsMap, String-cases, lookup-delete_self, lookup-delete_ne, lookup-cons-none,
}

module _ {ℓ} {V : Type ℓ} where
  -- Two orders of the entries of one map.
  pub record OneMap (m m' : Dict V) : Type ℓ where
    pub keys : IsMap m
    pub other_keys : IsMap m'
    pub same : (key : String) → lookup key m ≡ lookup key m'

  pub swapped : {m m' : Dict V} → OneMap m m' → OneMap m' m
  swapped o = record { keys = o.other_keys; other_keys = o.keys; same = λ key. sym (o.same key) }

  delete_absent : (key : String) (m : Dict V) → lookup key m ≡ none → delete key m ≡ m
  delete_absent key [] h = refl
  delete_absent key (e ∷ m) h = ground (arith, delete_absent key m)

  delete-IsMap : (key : String) (m : Dict V) → IsMap m → IsMap (delete key m)
  delete-IsMap key [] h = tt
  delete-IsMap key (e ∷ m) h = elim (String-cases key e.0) [
    | inl same ↦ ground (arith, eq_iff key e.0, delete-IsMap key m h.1)
    | inr other ↦
        ground (
          arith,
          eq_iff key e.0,
          eq_iff e.0 key,
          delete-IsMap key m h.1,
          lookup-delete_ne key e.0 m,
        )
  ]

  delete_first :
      (key : String) (e : String × V) (m : Dict V)
      → IsMap (e ∷ m)
      → key ≡ e.0
      → delete key (e ∷ m) ≡ m
  delete_first key e m h same = ground (arith, eq_iff key e.0, delete_absent key m)

  delete_later :
      (key : String) (e : String × V) (m : Dict V)
      → key ≢ e.0
      → delete key (e ∷ m) ≡ e ∷ delete key m
  delete_later key e m other = ground (arith, eq_iff key e.0)

  first_found :
      (key : String) (e : String × V) (m : Dict V) (v : V)
      → key ≡ e.0
      → lookup key (e ∷ m) ≡ some v
      → e ≡ (key, v)
  first_found key e m v same found =
      λ i. (sym same i, some-injective e.1 v (ground (arith, eq_iff key e.0)) i)

  -- Any entry can be visited first.
  entry_first :
      (key : String) (v : V) (m : Dict V)
      → IsMap m
      → lookup key m ≡ some v
      → Permᴰ m ((key, v) ∷ delete key m)
  entry_first key v [] h found = cc
  entry_first key v (e ∷ m) h found = elim (String-cases key e.0) [
    | inl same ↦
        rw (delete_first key e m h same)
          (Permᴰ.cons (first_found key e m v same found) (Permᴰ.refl m))
    | inr other ↦ rw (delete_later key e m other) (
        Permᴰ.trans (Permᴰ.cons refl (entry_first key v m h.1 (ground (arith, eq_iff key e.0))))
          (Permᴰ.swap refl refl))
  ]

  pub no_entry : (m : Dict V) → ((key : String) → lookup key m ≡ none) → m ≡ []
  no_entry [] h = refl
  no_entry (e ∷ m) h = absurd (ground (arith, h e.0, eq_iff e.0 e.0))

  rest_same :
      (e : String × V) (m m' : Dict V)
      → IsMap (e ∷ m)
      → ((key : String) → lookup key (e ∷ m) ≡ lookup key m')
      → (key : String) → lookup key m ≡ lookup key (delete e.0 m')
  rest_same e m m' h same key = elim (String-cases key e.0) [
    | inl here ↦ rw here (h.0 ∙ sym (lookup-delete_self e.0 m'))
    | inr other ↦ ground (arith, same key, eq_iff key e.0, lookup-delete_ne e.0 key m' other)
  ]

  -- Two orders of one map have the same entries.
  pub OneMap-perm : (m m' : Dict V) → OneMap m m' → Permᴰ m m'
  OneMap-perm [] m' o = rw (no_entry m' (λ key. sym (o.same key))) Permᴰ.nil
  OneMap-perm (e ∷ m) m' o =
      Permᴰ.trans
        (Permᴰ.cons refl (
          OneMap-perm m (delete e.0 m') (record {
            keys = o.keys.1;
            other_keys = delete-IsMap e.0 m' o.other_keys;
            same = rest_same e m m' o.keys o.same;
          })))
        (Permᴰ.symm
          (entry_first e.0 e.1 m' o.other_keys (sym (o.same e.0) ∙ ground (arith, eq_iff e.0 e.0))))

  -- The entries of the map, that of the key visited last.
  abbrev pub visited_last : String → V → Dict V → Dict V
  visited_last key v m = delete key m ++ (key, v) ∷ []

  lookup-append :
      (key j : String) (v : V) (m : Dict V)
      → lookup key m ≡ none
      → lookup j (m ++ (key, v) ∷ []) ≡ (if j == key then some v else lookup j m)
  lookup-append key j v [] h = refl
  lookup-append key j v (e ∷ m) h = elim (String-cases j e.0) [
    | inl here ↦ ground (arith, eq_iff j e.0, eq_iff key e.0, eq_iff j key)
    | inr other ↦ ground (
      arith,
      eq_iff j e.0,
      eq_iff key e.0,
      lookup-append key j v m (lookup-cons-none key e m h).1,
    )
  ]

  append-IsMap :
      (key : String) (v : V) (m : Dict V)
      → IsMap m
      → lookup key m ≡ none
      → IsMap (m ++ (key, v) ∷ [])
  append-IsMap key v [] h fresh = (refl, tt)
  append-IsMap key v (e ∷ m) h fresh =
      let (other, later) = lookup-cons-none key e m fresh in
      (
        lookup-append key e.0 v m later ∙ ground (arith, eq_iff e.0 key, h.0),
        append-IsMap key v m h.1 later,
      )

  pub visited_last-OneMap :
      (key : String) (v : V) (m : Dict V)
      → IsMap m
      → lookup key m ≡ some v
      → OneMap m (visited_last key v m)
  visited_last-OneMap key v m h found = record {
    keys = h;
    other_keys = append-IsMap key v (delete key m) (delete-IsMap key m h) gone;
    same = λ j. elim (String-cases j key) [
      | inl here ↦ rw here (found ∙ sym (lookup-append key key v (delete key m) gone ∙ found_self))
      | inr other ↦ sym (
          lookup-append key j v (delete key m) gone
          ∙ ground (arith, eq_iff j key, lookup-delete_ne key j m other))
    ];
  }
    where
      gone : lookup key (delete key m) ≡ none
      gone = lookup-delete_self key m

      found_self : (if key == key then some v else lookup key (delete key m)) ≡ some v
      found_self = ground (arith, eq_iff key key)
