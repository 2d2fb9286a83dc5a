-- ===== src/Handler/Payload.antt =====
-- The payloads of the requests and responses, and how they are read and written.
use canary_gate.Prelude.{ℕ, String, Option, none, some, List}
use canary_gate.Runtime.Exec.{Exec, pure, ◌>>◌}
use canary_gate.Runtime.Dict.{Dict}
use canary_gate.Service.{HookType, Phase}
use canary_gate.Handler.Http.{
  HandlerState, Request, bad_request, write_header, write_bytes, status_internal_server_error,
}

pub record CanaryWebhookPayload : Type 0 where
  pub name : String
  pub namespace : String
  pub phase : Phase
  pub checksum : String
  pub metadata : Dict String

pub record CanaryGatePayload : Type 0 where
  pub type : HookType
  pub name : String
  pub namespace : String

pub record CanaryGateStatus : Type 0 where
  pub type : HookType
  pub name : String
  pub namespace : String
  pub status : String

-- The body of a response: `map[string][]CanaryGateStatus`.
abbrev pub StatusMap : Type 0
StatusMap = Dict (List CanaryGateStatus)

-- `encoding/json` at the types of the handlers; `none` is an error.
pub record Json : Type 0 where
  pub read_webhook : String → Option CanaryWebhookPayload
  pub read_gate : String → Option CanaryGatePayload
  pub write_statuses : StatusMap → Option String

module _ {S N : Type 0} where
  -- `readPayload`: where the body cannot be read or decoded the response is a bad request.
  unfoldable pub read_payload :
      {I : Type 0} → (String → Option I) → Request → Exec (HandlerState S N) (Option I)
  unfolding bad_request
  read_payload unmarshal r = elim r.body [
    | none ↦ do bad_request; pure none
    | some body ↦ elim (unmarshal body) [
      | none ↦ do bad_request; pure none
      | some payload ↦ pure (some payload)
    ]
  ]

  -- `writePayload`, where the encoded payload is `none` on an error.
  unfoldable pub write_encoded : Option String → ℕ → Exec (HandlerState S N) (Unit {0})
  unfolding write_header write_bytes
  write_encoded none status = write_header status_internal_server_error
  write_encoded (some r) status = write_bytes r status

  unfoldable pub write_payload :
      {I : Type 0} → (I → Option String) → I → ℕ → Exec (HandlerState S N) (Unit {0})
  unfolding write_encoded
  write_payload marshal payload status = write_encoded (marshal payload) status
