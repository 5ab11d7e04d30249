-- ===== src/Contracts/Decode.antt =====
-- services/control-plane/internal/contracts/contracts.go: how encoding/json fills the structs of the
-- protocol. A member goes to the field with its name, up to case; the members are taken in order, so
-- the last one stands; a null leaves a string, a number and a Boolean alone; an unknown member fails.
use harness_forge.Base.{
  ℕ, String, Bool, true, false, ◌&&◌, Option, none, some, List, [], ◌∷◌, if◌then◌else◌,
}
use harness_forge.Base.Text.{parse_uint}
use harness_forge.Base.Maybe.{◌>>=◌, ◌>>◌, ensure}
use harness_forge.Base.Json.{
  Json, null, bool, number, text, arr, obj, Items, nil, cons, Fields, done, field, same_key,
  last_field, plain_fields,
}
use harness_forge.Contracts.{ArtifactCandidate}

-- A member into a field of a struct; `none` is a member that does not fit.
abbrev pub text_into : Json → String → Option String
text_into null old = some old
text_into (text s) old = some s
text_into _ old = none

abbrev pub bool_into : Json → Bool → Option Bool
bool_into null old = some old
bool_into (bool b) old = some b
bool_into _ old = none

abbrev pub uint_into : Json → ℕ → Option ℕ
uint_into null old = some old
uint_into (number n) old = parse_uint n
uint_into _ old = none

-- into a *string
abbrev pub pointer_into : Json → Option (Option String)
pointer_into null = some none
pointer_into (text s) = some (some s)
pointer_into _ = none

abbrev pub or_done : Option Fields → Fields
or_done none = done
or_done (some fields) = fields

-- into a map[string]any, which keeps the keys that it has
abbrev pub map_into : Json → Option Fields → Option (Option Fields)
map_into null old = some none
map_into (obj fields) old = some (some (plain_fields fields (or_done old)))
map_into _ old = none

-- the members of an object, one by one
unfoldable pub decode_members {ℓ} :
    {A : Type ℓ} → (String → Json → A → Option A) → Fields → A → Option A
decode_members step done a = some a
decode_members step (field k v rest) a = step k v a >>= decode_members step rest

-- decodeStrict into a struct
unfoldable pub decode_struct {ℓ} :
    {A : Type ℓ} → (String → Json → A → Option A) → Json → A → Option A
decode_struct step null a = some a
decode_struct step (obj fields) a = decode_members step fields a
decode_struct step _ a = none

abbrev pub not_null : Option Json → Bool
not_null none = false
not_null (some null) = false
not_null (some _) = true

unfoldable pub has_fields : List String → Fields → Bool
has_fields [] fields = true
has_fields (name ∷ names) fields = not_null (last_field name fields) && has_fields names fields

-- requireObjectFields
unfoldable pub require_fields : List String → Json → Option Fields
unfolding has_fields
require_fields names (obj fields) = do ensure (has_fields names fields); some fields
require_fields names _ = none

abbrev pub candidate_step : String → Json → ArtifactCandidate → Option ArtifactCandidate
candidate_step k v a =
    if same_key k "name"
    then (do s ← text_into v a.name; some (record a { name = s }))
    else if same_key k "title"
    then (do s ← text_into v a.title; some (record a { title = s }))
    else if same_key k "type"
    then (do s ← text_into v a.kind; some (record a { kind = s }))
    else if same_key k "entry"
    then (do s ← text_into v a.entry; some (record a { entry = s }))
    else if same_key k "primary"
    then (do b ← bool_into v a.primary; some (record a { primary = b }))
    else none

abbrev pub zero_candidate : ArtifactCandidate
zero_candidate = record { name = ""; title = ""; kind = ""; entry = ""; primary = false }

abbrev pub candidate_names : List String
candidate_names = "name" ∷ "title" ∷ "type" ∷ "entry" ∷ "primary" ∷ []

-- UnmarshalJSON of an ArtifactCandidate
unfoldable pub decode_candidate : Json → Option ArtifactCandidate
unfolding require_fields decode_struct
decode_candidate v = do
  require_fields candidate_names v
  decode_struct candidate_step v zero_candidate

unfoldable pub decode_candidates : Items → Option (List ArtifactCandidate)
unfolding decode_candidate
decode_candidates nil = some []
decode_candidates (cons v rest) = do
  a ← decode_candidate v
  as' ← decode_candidates rest
  some (a ∷ as')

-- into a []ArtifactCandidate; `none` inside is the nil slice
abbrev pub candidates_into : Json → Option (Option (List ArtifactCandidate))
candidates_into null = some none
candidates_into (arr items) = do as' ← decode_candidates items; some (some as')
candidates_into _ = none
