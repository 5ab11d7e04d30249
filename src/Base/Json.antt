-- ===== src/Base/Json.antt =====
-- JSON documents, as encoding/json and PostgreSQL's jsonb see them once the text is parsed.
pub mod Plain
use Prim.Native.Nat.{ℕ, ◌-◌}
use Prim.Native.Char.{code}
use Prim.Native.String.{String}
use mathlib.Core.Bool.{Bool, true, false, ◌&&◌}
use harness_forge.Base.Tests.{same_text, leb, ◌==◌, if◌then◌else◌, is_some}
use mathlib.Core.List.{List, [], ◌∷◌}
use mathlib.Core.Option.{Option, none, some}

mutual
  pub data Json : Type 0 where
    null : Json
    bool : Bool → Json
    number : String → Json
    text : String → Json
    arr : Items → Json
    obj : Fields → Json

  pub data Items : Type 0 where
    nil : Items
    cons : Json → Items → Items

  pub data Fields : Type 0 where
    done : Fields
    field : String → Json → Fields → Fields

-- json.RawMessage: bytes that are no JSON text, or a document.
pub data RawMessage : Type 0 where
  malformed : RawMessage
  document : Json → RawMessage

abbrev pub is_object : Json → Bool
is_object (obj _) = true
is_object _ = false

-- foldName of encoding/json, on the characters that can stand in the keys of this program: the
-- long s and the Kelvin sign are the only others that fold to an ASCII letter.
fold_char : ℕ → ℕ
fold_char c =
    if leb b'a' c && leb c b'z'
    then c - 32
    else if c == 0x17f
    then b'S'
    else if c == 0x212a
    then b'K'
    else c

abbrev codes : String → List ℕ
codes String.[] = []
codes (String.◌∷◌ c s) = code c ∷ codes s

same_folded : List ℕ → List ℕ → Bool
unfolding fold_char
same_folded [] [] = true
same_folded (a ∷ as') (b ∷ bs) = (fold_char a == fold_char b) && same_folded as' bs
same_folded _ _ = false

unfoldable pub same_key : String → String → Bool
unfolding same_folded
same_key a b = same_folded (codes a) (codes b)

-- jsonb_set(o, '{key}', value): replace the member, or add it
unfoldable pub set_field : String → Json → Fields → Fields
set_field key value done = field key value done
set_field key value (field k v rest) =
    if same_text k key then field k value rest else field k v (set_field key value rest)

-- the members of an object that encoding/json puts into a map: the last one with the key
unfoldable pub last_field : String → Fields → Option Json
last_field key done = none
last_field key (field k v rest) =
    let later = last_field key rest in
    if is_some later then later else if same_text k key then some v else none

unfoldable pub append_fields : Fields → Fields → Fields
append_fields done more = more
append_fields (field k v rest) more = field k v (append_fields rest more)

-- A document as map[string]any, []any and the scalars hold it: an object keeps one member for a key.
unfoldable mutual
  pub plain : Json → Json
  plain null = null
  plain (bool b) = bool b
  plain (number n) = number n
  plain (text s) = text s
  plain (arr items) = arr (plain_items items)
  plain (obj fields) = obj (plain_fields fields done)

  pub plain_items : Items → Items
  plain_items nil = nil
  plain_items (cons v rest) = cons (plain v) (plain_items rest)

  -- the members put one by one into a map that holds `known`
  pub plain_fields : Fields → Fields → Fields
  plain_fields done known = known
  plain_fields (field k v rest) known = plain_fields rest (set_field k (plain v) known)
