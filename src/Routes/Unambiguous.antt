-- ===== src/Routes/Unambiguous.antt =====
-- main.go: which routes of the table a request fits.
use k8s_explore.Base.{
  ◌≤◌, String, str_eq, eq_iff, Bool, true, false, not, ◌&&◌, ◌||◌, some, List, [], ◌∷◌, ◌≡◌, ◌≢◌,
  refl, sym, ◌∙◌, arith, length, Bool-cases, Option-cases, inl, inr,
}
use k8s_explore.Base.Dict.{Dict}
use k8s_explore.Routes.{
  Verb, get, put, delete, Segment, literal, param, Route, routes, bind, same_verb, matching, Target,
  One,
}

-- Two patterns of different lengths, or with different literals at one place.
abbrev pub clash : List Segment → List Segment → Bool
clash [] [] = false
clash [] (t ∷ q) = true
clash (s ∷ p) [] = true
clash (literal a ∷ p) (literal b ∷ q) = not (str_eq a b) || clash p q
clash (literal a ∷ p) (param n ∷ q) = clash p q
clash (param n ∷ p) (literal b ∷ q) = clash p q
clash (param n ∷ p) (param m ∷ q) = clash p q

pub bind-literal :
    (a : String) (p : List Segment) (x : String) (path : List String) {v : Dict String}
    → bind (literal a ∷ p) (x ∷ path) ≡ some v
    → (a ≡ x) × (bind p path ≡ some v)
bind-literal a p x path h = elim (Bool-cases (str_eq a x)) [
  | inl same ↦ ((eq_iff a x).0 same, rw same at h)
  | inr other ↦ ground (arith, other)
]

pub bind-param :
    (name : String) (p : List Segment) (x : String) (path : List String) {v : Dict String}
    → bind (param name ∷ p) (x ∷ path) ≡ some v
    → (w : Dict String) × (bind p path ≡ some w) × (x ≢ "") × (v ≡ (name, x) ∷ w)
bind-param name p x path h = elim (Bool-cases (str_eq x "")) [
  | inl blank ↦ ground (arith, blank)
  | inr full ↦ elim (Option-cases (bind p path)) [
    | inl none_ ↦ ground (arith, full, none_)
    | inr (w, rest) ↦ (w, rest, λ e. cc (full, (eq_iff x "").1 e), ground (arith, full, rest))
  ]
]

clash-bind :
    (p q : List Segment) (path : List String) {a b : Dict String}
    → clash p q ≡ true
    → bind p path ≡ some a
    → bind q path ≢ some b
clash-bind [] [] path c h k = cc
clash-bind [] (t ∷ q) [] c h k = cc
clash-bind [] (t ∷ q) (x ∷ path) c h k = cc
clash-bind (s ∷ p) [] [] c h k = cc
clash-bind (s ∷ p) [] (x ∷ path) c h k = cc
clash-bind (s ∷ p) (t ∷ q) [] c h k = cc
clash-bind (literal a ∷ p) (literal b ∷ q) (x ∷ path) c h k = elim (Bool-cases (str_eq a b)) [
  | inl same ↦
      clash-bind p q path (ground (arith, same)) (bind-literal a p x path h).1
        (bind-literal b q x path k).1
  | inr other ↦
      cc (other, (eq_iff a b).1 ((bind-literal a p x path h).0 ∙ sym (bind-literal b q x path k).0))
]
clash-bind (literal a ∷ p) (param n ∷ q) (x ∷ path) c h k =
    let (w, rest, _, _) = bind-param n q x path k in
    clash-bind p q path c (bind-literal a p x path h).1 rest
clash-bind (param n ∷ p) (literal b ∷ q) (x ∷ path) c h k =
    let (w, rest, _, _) = bind-param n p x path h in
    clash-bind p q path c rest (bind-literal b q x path k).1
clash-bind (param n ∷ p) (param m ∷ q) (x ∷ path) c h k =
    let (w, rest, _, _) = bind-param n p x path h in
    let (w', rest', _, _) = bind-param m q x path k in clash-bind p q path c rest rest'

-- Two routes of different verbs, or whose patterns clash.
abbrev pub apart : Route → Route → Bool
apart r t = not (same_verb r.verb t.verb) || clash r.pattern t.pattern

abbrev pub apart_from : Route → List Route → Bool
apart_from r [] = true
apart_from r (t ∷ table) = apart r t && apart_from r table

abbrev pub all_apart : List Route → Bool
all_apart [] = true
all_apart (r ∷ table) = apart_from r table && all_apart table

same_verb-eq : (a b : Verb) → same_verb a b ≡ true → a ≡ b
same_verb-eq get get h = refl
same_verb-eq put put h = refl
same_verb-eq delete delete h = refl
same_verb-eq get put h = cc
same_verb-eq get delete h = cc
same_verb-eq put get h = cc
same_verb-eq put delete h = cc
same_verb-eq delete get h = cc
same_verb-eq delete put h = cc

pub same_verb_refl : (a : Verb) → same_verb a a ≡ true
same_verb_refl get = refl
same_verb_refl put = refl
same_verb_refl delete = refl

same_verb_both : (a b c : Verb) → same_verb a c ≡ true → same_verb b c ≡ true → same_verb a b ≡ true
same_verb_both a b c h k =
    let e : a ≡ b = same_verb-eq a c h ∙ sym (same_verb-eq b c k) in rw e (same_verb_refl b)

-- Two routes that are apart do not both fit.
apart-bind :
    (r t : Route) (verb : Verb) (path : List String) {a b : Dict String}
    → apart r t ≡ true
    → same_verb r.verb verb ≡ true
    → same_verb t.verb verb ≡ true
    → bind r.pattern path ≡ some a
    → bind t.pattern path ≢ some b
apart-bind r t verb path far same too =
    clash-bind r.pattern t.pattern path (ground (arith, same_verb_both r.verb t.verb verb same too))

apart_from-matching :
    (r : Route) (table : List Route) (verb : Verb) (path : List String) {a : Dict String}
    → apart_from r table ≡ true
    → same_verb r.verb verb ≡ true
    → bind r.pattern path ≡ some a
    → matching table verb path ≡ []
unfolding matching
apart_from-matching r [] verb path far same fits = refl
apart_from-matching r (t ∷ table) verb path far same fits =
    let rest = apart_from-matching r table verb path (ground arith) same fits in
    elim (Bool-cases (same_verb t.verb verb)) [
      | inr other ↦ rw other rest
      | inl too ↦ elim (Option-cases (bind t.pattern path)) [
        | inl misses ↦ rw (too, misses) rest
        | inr (b, fits') ↦ absurd (apart-bind r t verb path (ground arith) same too fits fits')
      ]
    ]

matching-length :
    (table : List Route) (verb : Verb) (path : List String)
    → all_apart table ≡ true
    → length (matching table verb path) ≤ 1
unfolding matching
matching-length [] verb path far = omega arith
matching-length (r ∷ table) verb path far =
    let rest = matching-length table verb path (ground arith) in
    elim (Bool-cases (same_verb r.verb verb)) [
      | inr other ↦ rw other rest
      | inl same ↦ elim (Option-cases (bind r.pattern path)) [
        | inl misses ↦ rw (same, misses) rest
        | inr (a, fits) ↦
            rw (same, fits, apart_from-matching r table verb path (ground arith) same fits)
              (omega arith)
      ]
    ]

-- No request fits two routes of the table.
pub routes-length : (verb : Verb) (path : List String) → length (matching routes verb path) ≤ 1
routes-length verb path = matching-length routes verb path refl

pub only : (m : Target) (xs : List Target) → One m xs → length xs ≤ 1 → xs ≡ m ∷ []
only m [] h few = absurd h
only m (x ∷ []) (inl same) few = rw same refl
only m (x ∷ y ∷ xs) h few = absurd (omega arith)
only m (x ∷ []) (inr h) few = absurd h
