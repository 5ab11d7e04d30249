-- ===== src/Base/Json/Plain.antt =====
-- Lemmas on documents as Go's maps hold them.
use harness_forge.Base.Json.{
  Json, null, bool, number, text, arr, obj, Items, nil, cons, Fields, done, field, last_field,
  append_fields, plain, plain_items, plain_fields, set_field,
}
use Prim.Native.String.{String}
use mathlib.Core.Path.{◌≡◌, refl, sym, ap, ◌∙◌}
use mathlib.Core.Logic.{inl, inr}
use mathlib.Core.Bool.{false}
use mathlib.Core.Option.{none}
use native.Mathlib.Omega.{arith}
use package.text.Mathlib.TextEquality.{eq_iff}
use harness_forge.Base.Tests.{same_text, Bool-cases}

abbrev mutual
  pub IsPlain : Json → Type 0
  IsPlain null = Unit
  IsPlain (bool b) = Unit
  IsPlain (number n) = Unit
  IsPlain (text s) = Unit
  IsPlain (arr items) = ArePlain items
  IsPlain (obj fields) = IsMap fields

  pub ArePlain : Items → Type 0
  ArePlain nil = Unit
  ArePlain (cons v rest) = IsPlain v × ArePlain rest

  pub IsMap : Fields → Type 0
  IsMap done = Unit
  IsMap (field k v rest) = IsPlain v × (last_field k rest ≡ none) × IsMap rest

last_field-set_field :
    (j k : String) (v : Json) (fs : Fields)
    → last_field j fs ≡ none
    → same_text k j ≡ false
    → last_field j (set_field k v fs) ≡ none
unfolding last_field set_field
last_field-set_field j k v done h e = ground arith
last_field-set_field j k v (field i w fs) h e =
    ground (arith, last_field-set_field j k v fs, eq_iff i k, eq_iff i j, eq_iff k j)

set_field-IsMap :
    (k : String) (v : Json) (fs : Fields) → IsPlain v → IsMap fs → IsMap (set_field k v fs)
unfolding set_field
set_field-IsMap k v done p h = (p, unfold last_field in refl, tt)
set_field-IsMap k v (field i w fs) p h = elim (Bool-cases (same_text i k)) [
  | inl same ↦ rw same (p, h.1, h.2)
  | inr other ↦ rw other (
    h.0,
    last_field-set_field i k v fs h.1 (ground (arith, eq_iff i k, eq_iff k i)),
    set_field-IsMap k v fs p h.2,
  )
]

mutual
  unfolding plain

  pub plain-IsPlain : (j : Json) → IsPlain (plain j)
  plain-IsPlain null = tt
  plain-IsPlain (bool b) = tt
  plain-IsPlain (number n) = tt
  plain-IsPlain (text s) = tt
  plain-IsPlain (arr items) = plain_items-ArePlain items
  plain-IsPlain (obj fields) = plain_fields-IsMap fields done tt

  plain_items-ArePlain : (items : Items) → ArePlain (plain_items items)
  plain_items-ArePlain nil = tt
  plain_items-ArePlain (cons v rest) = (plain-IsPlain v, plain_items-ArePlain rest)

  pub plain_fields-IsMap : (fields known : Fields) → IsMap known → IsMap (plain_fields fields known)
  plain_fields-IsMap done known h = h
  plain_fields-IsMap (field k v rest) known h =
      plain_fields-IsMap rest (set_field k (plain v) known)
        (set_field-IsMap k (plain v) known (plain-IsPlain v) h)

fresh-append_fields :
    (k : String) (v : Json) (known rest : Fields)
    → IsMap (append_fields known (field k v rest))
    → last_field k known ≡ none
unfolding append_fields last_field
fresh-append_fields k v done rest h = refl
fresh-append_fields k v (field i w known) rest h =
    ground (arith, fresh-append_fields k v known rest h.2, eq_iff i k, missing i known h.1)
  where
    missing :
        (i : String) (fs : Fields)
        → last_field i (append_fields fs (field k v rest)) ≡ none
        → same_text k i ≡ false
    missing i done e = ground arith
    missing i (field a b fs) e = ground (arith, missing i fs)

set_field_fresh :
    (k : String) (v : Json) (fs : Fields)
    → last_field k fs ≡ none
    → set_field k v fs ≡ append_fields fs (field k v done)
unfolding set_field last_field append_fields
set_field_fresh k v done h = refl
set_field_fresh k v (field i w fs) h = ground (arith, set_field_fresh k v fs)

append_fields_assoc :
    (k : String) (v : Json) (a b : Fields)
    → append_fields (append_fields a (field k v done)) b ≡ append_fields a (field k v b)
unfolding append_fields
append_fields_assoc k v done b = refl
append_fields_assoc k v (field i w a) b = ap (field i w) (append_fields_assoc k v a b)

IsPlain-at :
    (k : String) (v : Json) (a b : Fields) → IsMap (append_fields a (field k v b)) → IsPlain v
unfolding append_fields
IsPlain-at k v done b h = h.0
IsPlain-at k v (field i w a) b h = IsPlain-at k v a b h.2

append_fields-done : (a : Fields) → append_fields a done ≡ a
unfolding append_fields
append_fields-done done = refl
append_fields-done (field k v a) = ap (field k v) (append_fields-done a)

put_first : (fields : Fields) → IsMap fields → IsMap (append_fields done fields)
unfolding append_fields
put_first fields h = h

put_first_eq : (fields : Fields) → append_fields done fields ≡ fields
unfolding append_fields
put_first_eq fields = refl

mutual
  unfolding plain

  pub plain_fixed : (j : Json) → IsPlain j → plain j ≡ j
  plain_fixed null h = refl
  plain_fixed (bool b) h = refl
  plain_fixed (number n) h = refl
  plain_fixed (text s) h = refl
  plain_fixed (arr items) h = ap arr (plain_items_fixed items h)
  plain_fixed (obj fields) h =
      ap obj (plain_fields_fixed fields done (put_first fields h) ∙ put_first_eq fields)

  plain_items_fixed : (items : Items) → ArePlain items → plain_items items ≡ items
  plain_items_fixed nil h = refl
  plain_items_fixed (cons v rest) h = cc (plain_fixed v h.0, plain_items_fixed rest h.1)

  -- a map that is read into a map with other keys is put behind it
  pub plain_fields_fixed :
      (fields known : Fields)
      → IsMap (append_fields known fields)
      → plain_fields fields known ≡ append_fields known fields
  plain_fields_fixed done known h = sym (append_fields-done known)
  plain_fields_fixed (field k v rest) known h =
      let same : plain v ≡ v = plain_fixed v (IsPlain-at k v known rest h) in
      let put : set_field k (plain v) known ≡ append_fields known (field k v done) =
        rw same (set_field_fresh k v known (fresh-append_fields k v known rest h)) in
      ap (plain_fields rest) put
      ∙ plain_fields_fixed rest (append_fields known (field k v done))
          (rw (append_fields_assoc k v known rest) h)
      ∙ append_fields_assoc k v known rest
