-- ===== src/Objects.antt =====
-- services/control-plane/internal/objectstore: the object store in memory (memory.go). A lock is held for
-- a whole operation, so each is one function; the map is a list of entries. A DeletePrefix that fails
-- part-way is that of minio.go.
pub mod Lookup
use Prim.Native.Char.{code}
use harness_forge.Base.{
  ℕ, String, Bool, true, false, not, ◌&&◌, ◌||◌, Option, none, some, List, [], ◌∷◌, if◌then◌else◌,
  same_text, ◌==◌, is_some,
}
use harness_forge.Base.Tables.{exists, where_rows}
use harness_forge.Base.Text.{cut_prefix, concat, empty_text}
use harness_forge.Artifacts.Outputs.{Contents}
use harness_forge.Artifacts.Paths.{is_valid_path, contains_text}

-- memoryObject; the size of its info is the number of its bytes
pub record Object : Type 0 where
  pub data' : Contents
  pub content_type : String
  pub last_modified : ℕ

pub record Entry : Type 0 where
  pub key : String
  pub object : Object

abbrev pub Memory : Type 0
Memory = List Entry

-- Open and Stat: s.objects[key]
unfoldable pub lookup : String → Memory → Option Object
lookup key [] = none
lookup key (e ∷ rest) =
    let later = lookup key rest in if same_text e.key key then some e.object else later

-- Delete
unfoldable pub delete_object : String → Memory → Memory
delete_object key s = where_rows (λ (e : Entry). not (same_text e.key key)) s

-- Put, of bytes that were read
unfoldable pub put_object : String → Object → Memory → Memory
unfolding delete_object
put_object key object s = record { key = key; object = object } ∷ delete_object key s

abbrev pub has_prefix : String → String → Bool
has_prefix prefix key = is_some (cut_prefix prefix key)

-- strings.TrimSuffix(s, "/"), for a text that ends in a slash
unfoldable pub trim_slash : String → Option String
trim_slash String.[] = none
trim_slash (String.◌∷◌ c s) =
    let rest = trim_slash s in
    if empty_text s
    then if code c == b'/' then some String.[] else none
    else elim rest [ none ↦ none | some t ↦ some (String.◌∷◌ c t) ]

-- validPrefix
unfoldable pub valid_prefix : String → Bool
unfolding trim_slash
valid_prefix prefix = elim (trim_slash prefix) [
  | none ↦ false
  | some trimmed ↦ is_valid_path trimmed && not (contains_text "\\" prefix)
]

-- DeletePrefix
unfoldable pub delete_prefix : String → Memory → Option Memory
unfolding valid_prefix
delete_prefix prefix s =
    if valid_prefix prefix
    then some (where_rows (λ (e : Entry). not (has_prefix prefix e.key)) s)
    else none

-- What becomes of a DeletePrefix of any store: it works, or it ends with an error when the keys that
-- pass a test are gone, as minio.go does, which deletes one object after the other.
pub data Deletion : Type 0 where
  deletes : Deletion
  stops : (String → Bool) → Deletion

abbrev pub is_complete : Deletion → Bool
is_complete deletes = true
is_complete (stops gone) = false

abbrev or_refused : Memory → Option Memory → Bool × Memory
or_refused s none = (false, s)
or_refused s (some s') = (true, s')

-- whether DeletePrefix worked, and the store after it
unfoldable pub try_delete_prefix : Deletion → String → Memory → Bool × Memory
try_delete_prefix deletes prefix s = or_refused s (delete_prefix prefix s)
try_delete_prefix (stops gone) prefix s = (
  false,
  if valid_prefix prefix
      then where_rows (λ (e : Entry). not (has_prefix prefix e.key && gone e.key)) s
      else s,
)

-- rest[:strings.IndexByte(rest, '/')+1]
unfoldable through_slash : String → Option String
through_slash String.[] = none
through_slash (String.◌∷◌ c s) =
    let later = through_slash s in
    if code c == b'/'
    then some (String.◌∷◌ c String.[])
    else elim later [ none ↦ none | some t ↦ some (String.◌∷◌ c t) ]

-- the child of a prefix that a key is under
unfoldable child_of : String → String → Option String
unfolding through_slash
child_of prefix key = elim (cut_prefix prefix key) [
  | none ↦ none
  | some rest ↦ elim (through_slash rest) [ none ↦ none | some t ↦ some (concat prefix t) ]
]

abbrev add_child : Option String → List String → List String
add_child none children = children
add_child (some c) children = if exists (same_text c) children then children else c ∷ children

unfoldable pub children : String → Memory → List String
unfolding child_of
children prefix [] = []
children prefix (e ∷ rest) = add_child (child_of prefix e.key) (children prefix rest)

-- ListPrefixes; the order of the answer is left out
unfoldable pub list_prefixes : String → Memory → Option (List String)
unfolding children
list_prefixes prefix s = if valid_prefix prefix then some (children prefix s) else none
