-- ===== src/Ports/RoundTrip.antt =====
-- kubetunnel/kubetunnel_resource.go: `Ports` through JSON and back.
use k8s_explore.Base.{
  ℕ, List, [], ◌∷◌, ◌++◌, map, append_assoc, ◌≡◌, ◌≢◌, refl, ap, ◌∙◌, arith, All,
}
use k8s_explore.Ports.{
  Bytes, comma, quote, join, push_first, split, trim_left, put_back, trim_right, trim, Ports,
  to_string, marshal_json, unmarshal_json,
}

-- No comma and no quotation mark, as in every port number.
abbrev pub IsPlain : Bytes → Type 0
IsPlain = All (λ c. (c ≢ comma) × (c ≢ quote))

split_last : (v : Bytes) → IsPlain v → split (v ++ quote ∷ []) ≡ (v ++ quote ∷ []) ∷ []
unfolding split
split_last [] plain = refl
split_last (c ∷ v) (ne, plain) = ground (arith, split_last v plain)

split_part : (v s : Bytes) → IsPlain v → split (v ++ comma ∷ s) ≡ v ∷ split s
unfolding split
split_part [] s plain = refl
split_part (c ∷ v) s (ne, plain) = ground (arith, split_part v s plain)

-- The values with a quotation mark behind the last.
abbrev close_last : List Bytes → List Bytes
close_last [] = (quote ∷ []) ∷ []
close_last (v ∷ []) = (v ++ quote ∷ []) ∷ []
close_last (v ∷ w ∷ rest) = v ∷ close_last (w ∷ rest)

split-join : (vs : List Bytes) → All IsPlain vs → split (join vs ++ quote ∷ []) ≡ close_last vs
unfolding join
split-join [] plain = split_last [] tt
split-join (v ∷ []) (plain, _) = split_last v plain
split-join (v ∷ w ∷ rest) (plain, plains) =
    rw append_assoc (split_part v (join (w ∷ rest) ++ quote ∷ []) plain)
    ∙ ap (λ ps. v ∷ ps) (split-join (w ∷ rest) plains)

trim_left-IsPlain : (v : Bytes) → IsPlain v → trim_left v ≡ v
trim_left-IsPlain [] plain = refl
trim_left-IsPlain (c ∷ v) (ne, plain) = ground arith

put_back_ne : (c : ℕ) (v : Bytes) → c ≢ quote → put_back c v ≡ c ∷ v
put_back_ne c [] ne = ground arith
put_back_ne c (d ∷ v) ne = refl

trim_right-IsPlain : (v : Bytes) → IsPlain v → trim_right v ≡ v
trim_right-IsPlain [] plain = refl
trim_right-IsPlain (c ∷ v) (ne, plain) =
    ap (put_back c) (trim_right-IsPlain v plain) ∙ put_back_ne c v ne.1

trim_right-quote : (v : Bytes) → IsPlain v → trim_right (v ++ quote ∷ []) ≡ v
trim_right-quote [] plain = refl
trim_right-quote (c ∷ v) (ne, plain) =
    ap (put_back c) (trim_right-quote v plain) ∙ put_back_ne c v ne.1

trim-IsPlain : (v : Bytes) → IsPlain v → trim v ≡ v
unfolding trim
trim-IsPlain v plain = ap trim_right (trim_left-IsPlain v plain) ∙ trim_right-IsPlain v plain

-- A quotation mark in front is taken off, whatever plain text or single mark follows.
trim_quoted : (v : Bytes) → IsPlain v → trim (v ++ quote ∷ []) ≡ v
unfolding trim
trim_quoted [] plain = refl
trim_quoted (c ∷ v) (ne, plain) = ground (arith, trim_right-quote (c ∷ v))

trim_front : (v : Bytes) → trim (quote ∷ v) ≡ trim v
unfolding trim
trim_front v = refl

map-trim-close_last :
    (v : Bytes) (vs : List Bytes) → All IsPlain (v ∷ vs) → map trim (close_last (v ∷ vs)) ≡ v ∷ vs
map-trim-close_last v [] (plain, _) = ap (λ x. x ∷ []) (trim_quoted v plain)
map-trim-close_last v (w ∷ rest) (plain, plains) =
    ground (arith, trim-IsPlain v plain, map-trim-close_last w rest plains)

map-trim-push_first : (parts : List Bytes) → map trim (push_first quote parts) ≡ map trim parts
map-trim-push_first [] = refl
map-trim-push_first (p ∷ ps) = ap (λ x. x ∷ map trim ps) (trim_front p)

split-quote : (s : Bytes) → split (quote ∷ s) ≡ push_first quote (split s)
unfolding split
split-quote s = refl

map-trim-close :
    (vs : List Bytes)
    → All IsPlain vs
    → map trim (close_last vs) ≡ elim vs [ [] ↦ [] ∷ [] | v ∷ vs ↦ v ∷ vs ]
map-trim-close [] h = ap (λ x. x ∷ []) (trim_quoted [] tt)
map-trim-close (v ∷ vs) h = map-trim-close_last v vs h

-- Values without commas and quotation marks come back from their JSON form in order, behind the
-- values that the receiver had; but no value comes back as one empty value.
pub unmarshal_json-marshal_json :
    (p old : Ports)
    → All IsPlain p.values
    → (unmarshal_json (marshal_json p) old).values
      ≡ old.values ++ elim p.values [ [] ↦ [] ∷ [] | v ∷ vs ↦ v ∷ vs ]
unfolding unmarshal_json marshal_json to_string
unmarshal_json-marshal_json p old plain =
    ap (λ vs. old.values ++ vs)
      (ap (map trim) (
          split-quote (join p.values ++ quote ∷ [])
          ∙ ap (push_first quote) (split-join p.values plain))
        ∙ map-trim-push_first (close_last p.values)
        ∙ map-trim-close p.values plain)
