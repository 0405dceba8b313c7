-- ===== src/KubeClient/Races.antt =====
-- kubeclient/pool.go: the lock of the pool, and which methods it keeps apart. A call is inside from its
-- `Lock` or `RLock`, or from its start where it takes no lock, to its end. `sync.RWMutex` admits a
-- writer to no other holder, and a reader to no writer.
use k8s_explore.Base.{
  Bool, true, false, not, ◌&&◌, ◌||◌, List, [], ◌∷◌, ◌++◌, ◌≡◌, ◌⊎◌, inl, inr, refl, arith, All,
  All-map, Bool-cases, subst,
}

-- The methods of `ClientPool`.
pub data Method : Type 0 where
  add set_current current_context contexts context : Method

pub data Lock : Type 0 where
  exclusive shared unlocked : Lock

pub data Field : Type 0 where
  contexts_field current_field : Field

-- The lock that a method takes on `p.mux`.
abbrev pub lock_of : Method → Lock
lock_of add = exclusive
lock_of set_current = shared
lock_of current_context = unlocked
lock_of contexts = shared
lock_of context = shared

-- The fields of the pool that a method reads or writes.
abbrev pub reads : Method → Field → Bool
reads add current_field = true
reads set_current contexts_field = true
reads current_context current_field = true
reads contexts contexts_field = true
reads context contexts_field = true
reads _ _ = false

abbrev pub writes : Method → Field → Bool
writes add contexts_field = true
writes add current_field = true
writes set_current current_field = true
writes _ _ = false

-- Two calls touch a field and one of them writes it.
abbrev pub conflict : Method → Method → Field → Bool
conflict m n f = writes m f && (reads n f || writes n f) || writes n f && reads m f

-- Whether two locks can be held at once.
abbrev pub compatible : Lock → Lock → Bool
compatible exclusive exclusive = false
compatible exclusive shared = false
compatible shared exclusive = false
compatible _ _ = true

-- The calls that are inside, of any goroutines.
pub data Step (inside : List Method) : List Method → Type 0 where
  enters :
      (m : Method)
      → All (λ n. compatible (lock_of m) (lock_of n) ≡ true) inside
      → Step inside (m ∷ inside)
  leaves :
      (before after : List Method) (m : Method)
      → inside ≡ before ++ m ∷ after
      → Step inside (before ++ after)

pub data Reach : List Method → Type 0 where
  idle : Reach []
  later : {xs ys : List Method} → Reach xs → Step xs ys → Reach ys

module _ (R : Method → Method → Type 0) where
  -- Any two calls of the list.
  abbrev pub Pairwise : List Method → Type 0
  Pairwise [] = Unit
  Pairwise (m ∷ ms) = All (R m) ms × Pairwise ms

  All-leaves :
      (k m : Method) (before after : List Method)
      → All (R k) (before ++ m ∷ after)
      → All (R k) (before ++ after)
  All-leaves k m [] after h = h.1
  All-leaves k m (x ∷ before) after h = (h.0, All-leaves k m before after h.1)

  Pairwise-leaves :
      (m : Method) (before after : List Method)
      → Pairwise (before ++ m ∷ after)
      → Pairwise (before ++ after)
  Pairwise-leaves m [] after h = h.1
  Pairwise-leaves m (x ∷ before) after h =
      (All-leaves x m before after h.0, Pairwise-leaves m before after h.1)

Pairwise-map :
    (R S : Method → Method → Type 0) (ms : List Method)
    → ((m n : Method) → R m n → S m n)
    → Pairwise R ms
    → Pairwise S ms
Pairwise-map R S [] f h = tt
Pairwise-map R S (m ∷ ms) f h = (All-map _ _ ms (f m) h.0, Pairwise-map R S ms f h.1)

abbrev Held : Method → Method → Type 0
Held m n = compatible (lock_of m) (lock_of n) ≡ true

Reach-Held : (inside : List Method) → Reach inside → Pairwise Held inside
Reach-Held _ idle = tt
Reach-Held ys (later {xs} before (enters m admitted)) = (admitted, Reach-Held xs before)
Reach-Held ys (later {xs} reached (leaves before after m split)) =
    Pairwise-leaves Held m before after (subst (Pairwise Held) split (Reach-Held xs reached))

-- Two methods whose accesses of `p.current` the lock does not order.
abbrev pub unguarded : Method → Method → Bool
unguarded set_current set_current = true
unguarded set_current current_context = true
unguarded current_context set_current = true
unguarded add current_context = true
unguarded current_context add = true
unguarded _ _ = false

-- Every method.
every : (Method → Bool) → Bool
every p = p add && p set_current && p current_context && p contexts && p context

every-holds : (p : Method → Bool) (m : Method) → every p ≡ true → p m ≡ true
unfolding every
every-holds p add h = ground arith
every-holds p set_current h = ground arith
every-holds p current_context h = ground arith
every-holds p contexts h = ground arith
every-holds p context h = ground arith

-- What holds of two calls that are inside.
abbrev apart : Method → Method → Bool
apart m n =
    not (compatible (lock_of m) (lock_of n))
    || (not (conflict m n contexts_field) && (not (conflict m n current_field) || unguarded m n))

all_apart : every (λ m. every (λ n. apart m n)) ≡ true
unfolding every
all_apart = refl

abbrev pub RaceFree : Method → Method → Type 0
RaceFree m n =
    (conflict m n contexts_field ≡ false)
    × ((conflict m n current_field ≡ false) ⊎ (unguarded m n ≡ true))

Held-RaceFree : (m n : Method) → Held m n → RaceFree m n
Held-RaceFree m n held =
    let here =
      every-holds (λ n. apart m n) n (every-holds (λ m. every (λ n. apart m n)) m all_apart) in
    (
      ground arith,
      elim (Bool-cases (conflict m n current_field)) [
        | inr apart_ ↦ inl apart_
        | inl meets ↦ inr (ground arith)
      ],
    )

-- Whenever two calls of the pool's methods are inside, neither writes the map of contexts
-- while the other touches it; and neither writes the current context while the other touches it, unless both are
-- `SetCurrent`, or one is `CurrentContext` and the other `SetCurrent` or `Add`.
pub races_lem : (inside : List Method) → Reach inside → Pairwise RaceFree inside
races_lem inside reached =
    Pairwise-map Held RaceFree inside Held-RaceFree (Reach-Held inside reached)
