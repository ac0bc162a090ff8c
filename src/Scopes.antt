-- ===== src/Scopes.antt =====
-- pkg/scopes/scopes.go: the scopes of API keys. A text is the list of its code points.
pub mod Words
use fintech_ecosystem.Base.{
  ℕ, String, Bool, true, false, not, ◌&&◌, ◌||◌, Option, none, some, List, [], ◌∷◌, ◌++◌, map,
  select, exists, leb, ◌==◌, if◌then◌else◌,
}
use Prim.Native.Char.{code}

abbrev pub Text : Type 0
Text = List ℕ

abbrev pub runes : String → Text
runes String.[] = []
runes (String.◌∷◌ first others) = code first ∷ runes others

abbrev pub text_eq : Text → Text → Bool
text_eq [] [] = true
text_eq [] (d ∷ t) = false
text_eq (c ∷ s) [] = false
text_eq (c ∷ s) (d ∷ t) = (c == d) && text_eq s t

-- `strings.HasPrefix`, with the text in front
abbrev pub has_prefix : Text → Text → Bool
has_prefix s [] = true
has_prefix [] (d ∷ t) = false
has_prefix (c ∷ s) (d ∷ t) = (c == d) && has_prefix s t

abbrev pub comma : ℕ
comma = 44

abbrev pub space : ℕ
space = 32

-- `unicode.IsSpace`
unfoldable pub is_space : ℕ → Bool
is_space c =
    (leb 9 c && leb c 13)
    || c == 32
    || c == 133
    || c == 160
    || c == 5760
    || (leb 8192 c && leb c 8202)
    || c == 8232
    || c == 8233
    || c == 8239
    || c == 8287
    || c == 12288

abbrev pub end_word : Text → List Text → List Text
end_word [] ws = ws
end_word (c ∷ w) ws = (c ∷ w) ∷ ws

-- The words of a text behind the part `word` of one that was read.
abbrev pub words_after : Text → Text → List Text
words_after word [] = end_word word []
words_after word (c ∷ s) = elim (is_space c) [
  | true ↦ end_word word (words_after [] s)
  | false ↦ words_after (word ++ c ∷ []) s
]

-- `strings.Fields`
unfoldable pub fields : Text → List Text
fields s = words_after [] s

abbrev pub trim_left : Text → Text
trim_left [] = []
trim_left (c ∷ s) = let rest = trim_left s in if is_space c then rest else c ∷ s

abbrev pub cons_unless_last : ℕ → Text → Text
cons_unless_last c [] = if is_space c then [] else c ∷ []
cons_unless_last c (d ∷ s) = c ∷ d ∷ s

abbrev pub trim_right : Text → Text
trim_right [] = []
trim_right (c ∷ s) = cons_unless_last c (trim_right s)

-- `strings.TrimSpace`
unfoldable pub trim_space : Text → Text
trim_space s = trim_right (trim_left s)

abbrev pub is_some_text : Text → Bool
is_some_text [] = false
is_some_text (c ∷ s) = true

abbrev pub comma_to_space : ℕ → ℕ
comma_to_space c = if c == comma then space else c

-- `ParseScopes`
unfoldable pub parse_scopes : Text → List Text
parse_scopes s =
    if is_some_text s
    then select is_some_text (map trim_space (fields (map comma_to_space s)))
    else []

-- `JoinScopes`
unfoldable pub join_scopes : List Text → Text
join_scopes [] = []
join_scopes (w ∷ []) = w
join_scopes (w ∷ v ∷ vs) = w ++ space ∷ join_scopes (v ∷ vs)

abbrev pub all_scope : Text
all_scope = runes "*"

abbrev pub add_front : ℕ → Option Text → Option Text
add_front c none = none
add_front c (some s) = some (c ∷ s)

-- The text without the suffix ":*", if it has that.
abbrev pub stem_of : Text → Option Text
stem_of [] = none
stem_of (c ∷ s) =
    let rest = stem_of s in if text_eq (c ∷ s) (runes ":*") then some [] else add_front c rest

abbrev pub covers : Option Text → Text → Bool
covers none required = false
covers (some stem) required = has_prefix required (stem ++ runes ":")

-- Whether the loop of `HasScope` ends at a scope.
unfoldable pub grants : Text → Text → Bool
grants required s = text_eq s all_scope || text_eq s required || covers (stem_of s) required

-- `HasScope`
unfoldable pub has_scope : Text → Text → Bool
has_scope scopes required =
    if is_some_text required then exists (grants required) (parse_scopes scopes) else true

-- The keys of `ValidScopes`
abbrev pub valid_scopes : List Text
valid_scopes =
    runes "payments:read"
    ∷ runes "payments:write"
    ∷ runes "ledger:read"
    ∷ runes "ledger:write"
    ∷ runes "*"
    ∷ []

abbrev pub is_valid_scope : Text → Bool
is_valid_scope s = exists (text_eq s) valid_scopes

-- `ValidateScopes`: the valid ones and the others
unfoldable pub validate_scopes : Text → List Text × List Text
validate_scopes scopes =
    let list = parse_scopes scopes in
    (select is_valid_scope list, select (λ s. not (is_valid_scope s)) list)

pub record EndpointScope : Type 0 where
  pub path_prefix : Text
  pub method : Text
  pub scope : Text

abbrev pub endpoint : String → String → String → EndpointScope
endpoint path method scope = record {
  path_prefix = runes path;
  method = runes method;
  scope = runes scope;
}

-- `EndpointScopes`
abbrev pub endpoint_scopes : List EndpointScope
endpoint_scopes =
    endpoint "/payments" "GET" "payments:read"
    ∷ endpoint "/payments" "POST" "payments:write"
    ∷ endpoint "/payments" "PUT" "payments:write"
    ∷ endpoint "/payments" "DELETE" "payments:write"
    ∷ endpoint "/ledger" "GET" "ledger:read"
    ∷ endpoint "/ledger" "POST" "ledger:write"
    ∷ endpoint "/ledger" "PUT" "ledger:write"
    ∷ endpoint "/ledger" "DELETE" "ledger:write"
    ∷ []

abbrev pub applies : Text → Text → EndpointScope → Bool
applies path method e =
    has_prefix path e.path_prefix && (text_eq e.method (runes "*") || text_eq e.method method)

abbrev pub first_scope : Text → Text → List EndpointScope → Text
first_scope path method [] = []
first_scope path method (e ∷ es) =
    let rest = first_scope path method es in if applies path method e then e.scope else rest

-- `GetRequiredScope`: the empty text if no scope is required
unfoldable pub get_required_scope : Text → Text → Text
get_required_scope path method = first_scope path method endpoint_scopes
