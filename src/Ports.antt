-- ===== src/Ports.antt =====
-- kubetunnel/kubetunnel_resource.go: the text and the JSON form of `Ports`. A text is the list of its
-- bytes. `strings.Join`, `strings.Split` (by one byte) and `strings.Trim` (of one byte) are written
-- out as the standard library documents them.
pub mod RoundTrip
use k8s_explore.Base.{ℕ, ◌==◌, List, [], ◌∷◌, ◌++◌, map, if◌then◌else◌}

abbrev pub Bytes : Type 0
Bytes = List ℕ

abbrev pub comma : ℕ
comma = b','

abbrev pub quote : ℕ
quote = b'"'

-- `strings.Join(values, ",")`
unfoldable pub join : List Bytes → Bytes
join [] = []
join (v ∷ []) = v
join (v ∷ w ∷ rest) = v ++ comma ∷ join (w ∷ rest)

-- A byte in front of the first part.
abbrev pub push_first : ℕ → List Bytes → List Bytes
push_first c [] = []
push_first c (p ∷ ps) = (c ∷ p) ∷ ps

-- `strings.Split(s, ",")`: one part more than the text has commas.
unfoldable pub split : Bytes → List Bytes
split [] = [] ∷ []
split (c ∷ s) = let parts = split s in if c == comma then [] ∷ parts else push_first c parts

-- The two halves of `strings.Trim(s, "\"")`.
abbrev pub trim_left : Bytes → Bytes
trim_left [] = []
trim_left (c ∷ s) = let rest = trim_left s in if c == quote then rest else c ∷ s

abbrev pub put_back : ℕ → Bytes → Bytes
put_back c [] = if c == quote then [] else c ∷ []
put_back c (d ∷ s) = c ∷ d ∷ s

abbrev pub trim_right : Bytes → Bytes
trim_right [] = []
trim_right (c ∷ s) = put_back c (trim_right s)

unfoldable pub trim : Bytes → Bytes
trim s = trim_right (trim_left s)

pub record Ports : Type 0 where
  pub values : List Bytes

-- `Ports.String`
unfoldable pub to_string : Ports → Bytes
unfolding join
to_string p = join p.values

-- `Ports.MarshalJSON`; `MarshalYAML` returns the same text.
unfoldable pub marshal_json : Ports → Bytes
unfolding to_string
marshal_json p = quote ∷ (to_string p ++ quote ∷ [])

-- `Ports.UnmarshalJSON`, which appends to the values of its receiver and returns no error.
unfoldable pub unmarshal_json : Bytes → Ports → Ports
unfolding split trim
unmarshal_json b p = record { values = p.values ++ map trim (split b) }
