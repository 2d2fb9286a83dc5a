-- ===== src/Handler/Version.antt =====
-- handler/server.go: the version of the server.
use canary_gate.Prelude.{ℕ, String, ◌++◌, ◌⊎◌, inl, inr, if◌then◌else◌}
use canary_gate.Runtime.Exec.{Exec, pure, ◌>>=◌, ◌>>◌}
use canary_gate.Handler.Http.{
  HandlerState, Request, write_header, write, status_ok, status_internal_server_error,
}

pub record ServerVersion : Type 0 where
  pub version : String

abbrev pub version_text : String
version_text = "0.1.3"

-- `json.Marshal` with the text of an error on the left, and the text of an error of a write.
pub record VersionJson : Type 0 where
  pub marshal : ServerVersion → String ⊎ String
  pub write_error : String

module _ {S N : Type 0} where
  -- `http.Error`, without the headers
  unfoldable pub http_error : String → ℕ → Exec (HandlerState S N) (Unit {0})
  unfolding write_header write
  http_error error code = do write_header code; _ ← write (error ++ "\n"); pure tt

  -- The header is written first, so that the status of an error comes too late.
  unfoldable pub version : VersionJson → Request → Exec (HandlerState S N) (Unit {0})
  unfolding write_header write http_error
  version j r = do
    write_header status_ok
    elim (j.marshal (record { version = version_text })) [
      | inl error ↦ http_error error status_internal_server_error
      | inr body ↦ do
        failed ← write body
        if failed then http_error j.write_error status_internal_server_error else pure tt
    ]
