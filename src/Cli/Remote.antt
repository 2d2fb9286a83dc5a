-- ===== src/Cli/Remote.antt =====
-- cli/main.go: the configuration of a cluster, and the request that a command sends to the server.
use canary_gate.Prelude.{String, Option, none, some, List, [], ◌∷◌}
use canary_gate.Handler.Payload.{CanaryGatePayload, StatusMap}
use canary_gate.Handler.Version.{ServerVersion}
use canary_gate.Cli.{Clientset, Found, found, lost, FindError}

-- The errors of a command, without their texts.
pub data RunError : Type 0 where
  no_cluster no_deployment no_config no_clientset request_failed no_raw_body bad_payload : RunError
  no_proxy : FindError → RunError

pub data Result (A : Type 0) : Type 0 where
  got : A → Result A
  fails : RunError → Result A

-- A command acts on a world of type `W`, in which the server runs, and may stop with an error.
abbrev pub Run : Type 0 → Type 0 → Type 0
Run W A = W → Result A × W

module _ {W A : Type 0} where
  abbrev pub pure : A → Run W A
  pure a w = (got a, w)

  abbrev pub stop : RunError → Run W A
  stop e w = (fails e, w)

  abbrev pub lift : Result A → Run W A
  lift r w = (r, w)

  abbrev pub lift_found : Found A → Run W A
  lift_found (found a) w = (got a, w)
  lift_found (lost e) w = (fails (no_proxy e), w)

module _ {W A B : Type 0} where
  abbrev pub continue : Result A × W → (A → Run W B) → Result B × W
  continue (got a, w) f = f a w
  continue (fails e, w) f = (fails e, w)

  infixl 10 ◌>>=◌
  abbrev pub ◌>>=◌ : Run W A → (A → Run W B) → Run W B
  ◌>>=◌ m f w = continue (m w) f

-- `rest.Result`: what `Error` returns, and what `Raw` returns, where an error of `Raw` is `none`.
pub record Response : Type 0 where
  pub error : Option String
  pub raw : Option String

-- What a command finds on the machine that it runs on: the home directory, `filepath.Join`, the
-- configurations `K` of client-go and their clientsets, the requests of such a clientset with a verb, a
-- path and a body, `%-25s`, and `encoding/json` at the types of the command line (`none` is an error).
pub record Machine (K W : Type 0) : Type 0 where
  pub home : String
  pub join : List String → String
  pub client_config : String → String → Option K
  pub new_for_config : K → Option Clientset
  pub do_request : Clientset → String → String → String → W → Response × W
  pub pad : String → String
  pub write_gate : CanaryGatePayload → Option String
  pub read_statuses : String → Option StatusMap
  pub write_text : String → Option String
  pub read_version : String → Option ServerVersion

abbrev pub or_fails : {A : Type 0} → RunError → Option A → Result A
or_fails e none = fails e
or_fails e (some a) = got a

-- `writePayload`: a payload that cannot be encoded is an empty body.
abbrev pub write_payload : Option String → String
write_payload none = ""
write_payload (some r) = r

-- `readPayload`
abbrev pub read_payload : {R : Type 0} → (String → Option R) → String → Result R
read_payload unmarshal payload = or_fails bad_payload (unmarshal payload)

-- The response of a request as `requestAndRead` reads it.
unfoldable pub read_response : {R : Type 0} → (String → Option R) → Response → Result R
read_response unmarshal result = elim result.error [
  | some e ↦ fails request_failed
  | none ↦ elim result.raw [ none ↦ fails no_raw_body | some body ↦ read_payload unmarshal body ]
]

module _ {K W : Type 0} (m : Machine K W) where
  unfoldable pub load_kubernetes_config : String → Result Clientset
  load_kubernetes_config alias =
      elim (m.client_config (m.join (m.home ∷ ".kube" ∷ "config" ∷ [])) alias) [
        | none ↦ fails no_config
        | some config ↦ or_fails no_clientset (m.new_for_config config)
      ]

  abbrev pub read_with : {R : Type 0} → (String → Option R) → Response × W → Result R × W
  read_with unmarshal (result, w) = (read_response unmarshal result, w)

  -- `requestAndRead`, over the payload as it is encoded and the decoder of the response.
  unfoldable pub request_and_read :
      {R : Type 0} → Clientset → String → String → Option String → (String → Option R) → Run W R
  request_and_read client method proxy_path payload unmarshal w =
      read_with unmarshal (m.do_request client method proxy_path (write_payload payload) w)
