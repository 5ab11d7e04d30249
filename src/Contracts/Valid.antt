-- ===== src/Contracts/Valid.antt =====
-- parseEventPayload of services/control-plane/internal/contracts/contracts.go: the rules of each payload,
-- and lemmas on them.
use harness_forge.Base.{
  String, ◌≡◌, inl, inr, refl, sym, subst, Bool, true, false, not, ◌&&◌, ◌||◌, Option, none, some,
  arith, Bool-cases, Option-cases, same_text, eq_iff, is_some,
}
use harness_forge.Base.Text.{is_blank}
use harness_forge.Base.Maybe.{◌>>=◌, ensure}
use harness_forge.Base.Json.{
  Json, null, bool, number, text, arr, obj, Fields, done, field, plain_fields, same_key,
}
use harness_forge.Base.Json.Plain.{IsMap, plain_fields-IsMap}
use harness_forge.Contracts.{
  Payload, phase_changed, assistant_delta, assistant_message, tool_started, tool_completed,
  artifact_candidate, agent_completed, agent_failed, unknown,
}
use harness_forge.Contracts.Decode.{
  text_into, decode_struct, decode_members, require_fields, map_into, or_done,
}
use harness_forge.Contracts.Parse.{
  artifacts_valid, ToolStart, tool_start_step, tool_end_step, completion_step, failure_step,
  absent_or_set, parse_phase, parse_text, parse_tool_start, parse_tool_end, parse_candidate,
  parse_completion, parse_failure, parse_unknown, parse_payload,
}

-- the event types that V1 names
abbrev pub is_named : String → Bool
is_named kind =
    same_text kind "phase.changed"
    || same_text kind "assistant.delta"
    || same_text kind "assistant.message"
    || same_text kind "tool.started"
    || same_text kind "tool.completed"
    || same_text kind "artifact.candidate"
    || same_text kind "agent.completed"
    || same_text kind "agent.failed"

-- A payload that an event of the type can carry.
abbrev pub IsPayload : String → Payload → Type 0
IsPayload kind (phase_changed p) =
    (kind ≡ "phase.changed") × ((same_text p "preparing" || same_text p "agent") ≡ true)
IsPayload kind (assistant_delta t) = kind ≡ "assistant.delta"
IsPayload kind (assistant_message t) = kind ≡ "assistant.message"
IsPayload kind (tool_started id name input) =
    (kind ≡ "tool.started") × (is_blank id ≡ false) × (is_blank name ≡ false) × IsMap input
IsPayload kind (tool_completed id name outcome output error) =
    (kind ≡ "tool.completed")
    × (is_blank id ≡ false)
    × (is_blank name ≡ false)
    × ((same_text outcome "succeeded" || same_text outcome "failed") ≡ true)
    × ((same_text outcome "failed" && not (is_some error)) ≡ false)
IsPayload kind (artifact_candidate l) = (kind ≡ "artifact.candidate") × (artifacts_valid l ≡ true)
IsPayload kind (agent_completed session l) =
    (kind ≡ "agent.completed") × (is_blank session ≡ false) × (artifacts_valid l ≡ true)
IsPayload kind (agent_failed code message retryable) =
    (kind ≡ "agent.failed") × (is_blank code ≡ false) × (is_blank message ≡ false)
IsPayload kind (unknown fields) = (is_named kind ≡ false) × IsMap fields

-- a chain that goes through: its first step did, and so did the rest
pub Option-chain {ℓ κ} :
    {Part : Type ℓ} {Whole : Type κ} (step : Option Part) (next : Part → Option Whole)
    {whole : Whole}
    → (step >>= next) ≡ some whole
    → (part : Part) × (step ≡ some part) × (next part ≡ some whole)
Option-chain none next h = absurd (cc)
Option-chain (some part) next h = (part, refl, h)

pub ensured : (b : Bool) → ensure b ≡ some tt → b ≡ true
ensured b h = ground arith

parse_phase-IsPayload :
    (v : Json) (p : Payload) → parse_phase v ≡ some p → IsPayload "phase.changed" p
unfolding parse_phase
parse_phase-IsPayload v p h =
    let (_, _, h₁) = Option-chain (require_fields _ v) _ h in
    let (s, _, h₂) = Option-chain (decode_struct _ v _) _ h₁ in
    let (_, known, h₃) = Option-chain (ensure _) _ h₂ in
    let made : p ≡ phase_changed s = ground (arith, h₃) in rw made (refl, ensured _ known)

parse_text-IsPayload :
    (payload : String → Payload) (kind : String) (v : Json) (p : Payload)
    → ((s : String) → IsPayload kind (payload s))
    → parse_text payload v ≡ some p
    → IsPayload kind p
unfolding parse_text
parse_text-IsPayload payload kind v p fits h =
    let (_, _, h₁) = Option-chain (require_fields _ v) _ h in
    let (s, _, h₂) = Option-chain (decode_struct _ v _) _ h₁ in
    let made : p ≡ payload s = ground (arith, h₂) in rw made (fits s)

-- what each member keeps, the whole object keeps
decode_struct_inv {ℓ κ} :
    {A : Type ℓ} (P : A → Type κ) (step : String → Json → A → Option A) (v : Json) (a b : A)
    → ((k : String) (w : Json) (x y : A) → step k w x ≡ some y → P x → P y)
    → decode_struct step v a ≡ some b
    → P a
    → P b
unfolding decode_struct decode_members
decode_struct_inv {A} P step v a b keeps h p = object v h
  where
    members : (fs : Fields) (x : A) → decode_members step fs x ≡ some b → P x → P b
    members done x e q = subst P (ground (arith, e)) q
    members (field k w rest) x e q =
        let (y, stepped, e') = Option-chain (step k w x) _ e in
        members rest y e' (keeps k w x y stepped q)

    object : (w : Json) → decode_struct step w a ≡ some b → P b
    object null e = subst P (ground (arith, e)) p
    object (obj fs) e = members fs a e p
    object (bool c) e = absurd (cc)
    object (number c) e = absurd (cc)
    object (text c) e = absurd (cc)
    object (arr c) e = absurd (cc)

abbrev HoldsMap : Option Fields → Type 0
HoldsMap none = Unit
HoldsMap (some fields) = IsMap fields

or_done-IsMap : (o : Option Fields) → HoldsMap o → IsMap (or_done o)
or_done-IsMap none h = tt
or_done-IsMap (some fields) h = h

map_into-HoldsMap :
    (v : Json) (o o' : Option Fields) → map_into v o ≡ some o' → HoldsMap o → HoldsMap o'
map_into-HoldsMap null o o' h p = let e : none ≡ o' = ground (arith, h) in subst HoldsMap e tt
map_into-HoldsMap (obj fields) o o' h p =
    let e : some (plain_fields fields (or_done o)) ≡ o' = ground (arith, h) in
    subst HoldsMap e (plain_fields-IsMap fields (or_done o) (or_done-IsMap o p))
map_into-HoldsMap (bool c) o o' h p = absurd (cc)
map_into-HoldsMap (number c) o o' h p = absurd (cc)
map_into-HoldsMap (text c) o o' h p = absurd (cc)
map_into-HoldsMap (arr c) o o' h p = absurd (cc)

tool_start_step-HoldsMap :
    (k : String) (v : Json) (a b : ToolStart)
    → tool_start_step k v a ≡ some b
    → HoldsMap a.input
    → HoldsMap b.input
tool_start_step-HoldsMap k v a b h p = elim (Bool-cases (same_key k "tool_call_id")) [
  | inl t ↦ elim (Option-cases (text_into v a.tool_call_id)) [
    | inl stop ↦ absurd (ground arith)
    | inr (s, e) ↦ subst HoldsMap (ground arith) p
  ]
  | inr f ↦ elim (Bool-cases (same_key k "name")) [
    | inl t ↦ elim (Option-cases (text_into v a.name)) [
      | inl stop ↦ absurd (ground arith)
      | inr (s, e) ↦ subst HoldsMap (ground arith) p
    ]
    | inr f' ↦ elim (Option-cases (map_into v a.input)) [
      | inl stop ↦ absurd (ground arith)
      | inr (m, e) ↦
          let kept : HoldsMap m = map_into-HoldsMap v a.input m e p in
          elim (Bool-cases (same_key k "input")) [
            | inl t ↦ subst HoldsMap (ground arith) kept
            | inr f'' ↦ absurd (ground arith)
          ]
    ]
  ]
]

parse_tool_start-IsPayload :
    (v : Json) (p : Payload) → parse_tool_start v ≡ some p → IsPayload "tool.started" p
unfolding parse_tool_start
parse_tool_start-IsPayload v p h =
    let (_, _, h₁) = Option-chain (require_fields _ v) _ h in
    let (a, filled, h₂) = Option-chain (decode_struct tool_start_step v _) _ h₁ in
    let (_, known, h₃) =
      Option-chain (ensure (not (is_blank a.tool_call_id || is_blank a.name))) _ h₂ in
    let (input, present, h₄) = Option-chain a.input _ h₃ in
    let made : p ≡ tool_started a.tool_call_id a.name input = ground (arith, h₄) in
    let map' : HoldsMap a.input =
      decode_struct_inv (λ (x : ToolStart). HoldsMap x.input) tool_start_step v _ a
        tool_start_step-HoldsMap filled tt in
    let blank = ensured _ known in rw made (refl, ground arith, ground arith, rw present at map')

parse_tool_end-IsPayload :
    (v : Json) (p : Payload) → parse_tool_end v ≡ some p → IsPayload "tool.completed" p
unfolding parse_tool_end
parse_tool_end-IsPayload v p h =
    let (fields, _, h₁) = Option-chain (require_fields _ v) _ h in
    let (_, _, h₂) =
      Option-chain (ensure (absent_or_set "output" fields && absent_or_set "error" fields)) _ h₁ in
    let (a, _, h₃) = Option-chain (decode_struct tool_end_step v _) _ h₂ in
    let (_, named, h₄) =
      Option-chain (ensure (not (is_blank a.tool_call_id || is_blank a.name))) _ h₃ in
    let (_, outcome, h₅) =
      Option-chain (ensure (same_text a.outcome "succeeded" || same_text a.outcome "failed")) _
        h₄ in
    let (_, failed, h₆) =
      Option-chain (ensure (not (same_text a.outcome "failed" && not (is_some a.error)))) _ h₅ in
    let made : p ≡ tool_completed a.tool_call_id a.name a.outcome a.output a.error =
      ground (arith, h₆) in
    let n = ensured _ named in
    let f = ensured _ failed in
    rw made (refl, ground arith, ground arith, ensured _ outcome, ground arith)

parse_candidate-IsPayload :
    (v : Json) (p : Payload) → parse_candidate v ≡ some p → IsPayload "artifact.candidate" p
unfolding parse_candidate
parse_candidate-IsPayload v p h =
    let (_, _, h₁) = Option-chain (require_fields _ v) _ h in
    let (l, _, h₂) = Option-chain (decode_struct _ v _) _ h₁ in
    let (artifacts, _, h₃) = Option-chain l _ h₂ in
    let (_, valid, h₄) = Option-chain (ensure (artifacts_valid artifacts)) _ h₃ in
    let made : p ≡ artifact_candidate artifacts = ground (arith, h₄) in
    rw made (refl, ensured _ valid)

parse_completion-IsPayload :
    (v : Json) (p : Payload) → parse_completion v ≡ some p → IsPayload "agent.completed" p
unfolding parse_completion
parse_completion-IsPayload v p h =
    let (_, _, h₁) = Option-chain (require_fields _ v) _ h in
    let (a, _, h₂) = Option-chain (decode_struct completion_step v _) _ h₁ in
    let (_, named, h₃) = Option-chain (ensure (not (is_blank a.session))) _ h₂ in
    let (artifacts, _, h₄) = Option-chain a.artifacts _ h₃ in
    let (_, valid, h₅) = Option-chain (ensure (artifacts_valid artifacts)) _ h₄ in
    let made : p ≡ agent_completed a.session artifacts = ground (arith, h₅) in
    let n = ensured _ named in rw made (refl, ground arith, ensured _ valid)

parse_failure-IsPayload :
    (v : Json) (p : Payload) → parse_failure v ≡ some p → IsPayload "agent.failed" p
unfolding parse_failure
parse_failure-IsPayload v p h =
    let (_, _, h₁) = Option-chain (require_fields _ v) _ h in
    let (a, _, h₂) = Option-chain (decode_struct failure_step v _) _ h₁ in
    let (_, named, h₃) = Option-chain (ensure (not (is_blank a.code || is_blank a.message))) _ h₂ in
    let made : p ≡ agent_failed a.code a.message a.retryable = ground (arith, h₃) in
    let n = ensured _ named in rw made (refl, ground arith, ground arith)

parse_unknown-IsPayload :
    (kind : String) (v : Json) (p : Payload)
    → is_named kind ≡ false
    → parse_unknown v ≡ some p
    → IsPayload kind p
unfolding parse_unknown
parse_unknown-IsPayload kind (obj fields) p n h =
    let made : p ≡ unknown (plain_fields fields done) = ground (arith, h) in
    rw made (n, plain_fields-IsMap fields done tt)
parse_unknown-IsPayload kind null p n h = absurd (cc)
parse_unknown-IsPayload kind (bool c) p n h = absurd (cc)
parse_unknown-IsPayload kind (number c) p n h = absurd (cc)
parse_unknown-IsPayload kind (text c) p n h = absurd (cc)
parse_unknown-IsPayload kind (arr c) p n h = absurd (cc)

-- a branch of parseEventPayload, on the event type that it tests
branch :
    (kind name : String) (p : Payload)
    → same_text kind name ≡ true
    → IsPayload name p
    → IsPayload kind p
branch kind name p t h = subst (λ k. IsPayload k p) (sym ((eq_iff kind name).0 t)) h

pub parse_payload-IsPayload :
    (kind : String) (v : Json) (p : Payload) → parse_payload kind v ≡ some p → IsPayload kind p
unfolding parse_payload
parse_payload-IsPayload kind v p h = elim (Bool-cases (same_text kind "phase.changed")) [
  | inl t ↦ branch kind "phase.changed" p t (parse_phase-IsPayload v p (ground arith))
  | inr a ↦ elim (Bool-cases (same_text kind "assistant.delta")) [
    | inl t ↦
        branch kind "assistant.delta" p t
          (parse_text-IsPayload assistant_delta "assistant.delta" v p (λ s. refl) (ground arith))
    | inr b ↦ elim (Bool-cases (same_text kind "assistant.message")) [
      | inl t ↦ branch kind "assistant.message" p t (
          parse_text-IsPayload assistant_message "assistant.message" v p (λ s. refl) (ground arith))
      | inr c ↦ elim (Bool-cases (same_text kind "tool.started")) [
        | inl t ↦ branch kind "tool.started" p t (parse_tool_start-IsPayload v p (ground arith))
        | inr d ↦ elim (Bool-cases (same_text kind "tool.completed")) [
          | inl t ↦ branch kind "tool.completed" p t (parse_tool_end-IsPayload v p (ground arith))
          | inr e ↦ elim (Bool-cases (same_text kind "artifact.candidate")) [
            | inl t ↦
                branch kind "artifact.candidate" p t (parse_candidate-IsPayload v p (ground arith))
            | inr f ↦ elim (Bool-cases (same_text kind "agent.completed")) [
              | inl t ↦
                  branch kind "agent.completed" p t (parse_completion-IsPayload v p (ground arith))
              | inr g ↦ elim (Bool-cases (same_text kind "agent.failed")) [
                | inl t ↦
                    branch kind "agent.failed" p t (parse_failure-IsPayload v p (ground arith))
                | inr k ↦ parse_unknown-IsPayload kind v p (ground arith) (ground arith)
              ]
            ]
          ]
        ]
      ]
    ]
  ]
]
