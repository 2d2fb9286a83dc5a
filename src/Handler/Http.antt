-- ===== src/Handler/Http.antt =====
-- `http.ResponseWriter` and `http.Request`, and the state that a handler works on.
use canary_gate.Prelude.{ℕ, String, ◌++◌, Bool, Option, none, some, if◌then◌else◌}
use canary_gate.Runtime.Exec.{Exec, Outcome, done, pure, ◌>>=◌, ◌>>◌}

-- The first header that is written stays: a later one is superfluous, and ignored. `broken` says that
-- the client is gone, so that a write of the body fails.
pub record ResponseWriter : Type 0 where
  pub status : Option ℕ
  pub body : String
  pub broken : Bool

abbrev pub new_writer : Bool → ResponseWriter
new_writer broken = record { status = none; body = ""; broken = broken }

-- A body that cannot be read is `none`.
pub record Request : Type 0 where
  pub body : Option String

-- The store's state `S`, the notification client's state `N` and the response of the request.
pub record HandlerState (S N : Type 0) : Type 0 where
  pub store : S
  pub noti : N
  pub writer : ResponseWriter

abbrev pub status_ok : ℕ
status_ok = 200

abbrev pub status_bad_request : ℕ
status_bad_request = 400

abbrev pub status_forbidden : ℕ
status_forbidden = 403

abbrev pub status_internal_server_error : ℕ
status_internal_server_error = 500

abbrev pub header_once : Option ℕ → ℕ → Option ℕ
header_once none code = some code
header_once (some c) code = some c

module _ {S N : Type 0} where
  -- `w.WriteHeader(code)`
  unfoldable pub write_header : ℕ → Exec (HandlerState S N) (Unit {0})
  write_header code s = (
    done tt,
    record s { writer = record (s.writer) { status = header_once s.writer.status code } },
  )

  -- `w.Write(payload)`: a write with no header sends 200, and the result says whether it failed.
  unfoldable pub write : String → Exec (HandlerState S N) Bool
  write payload s = (
    done (s.writer.broken),
    record s {
      writer = record (s.writer) {
        status = header_once s.writer.status status_ok;
        body = if s.writer.broken then s.writer.body else s.writer.body ++ payload;
      };
    },
  )

  -- `writeBytes`
  unfoldable pub write_bytes : String → ℕ → Exec (HandlerState S N) (Unit {0})
  unfolding write_header write
  write_bytes payload status = do
    write_header status
    failed ← write payload
    if failed then write_header status_internal_server_error else pure tt

  -- `badRequest`
  unfoldable pub bad_request : Exec (HandlerState S N) (Unit {0})
  unfolding write_header
  bad_request = write_header status_bad_request

  abbrev pub put_store :
      {A : Type 0} → HandlerState S N → Outcome A × S → Outcome A × HandlerState S N
  put_store s (r, t) = (r, record s { store = t })

  -- An action of the store.
  abbrev pub on_store : {A : Type 0} → Exec S A → Exec (HandlerState S N) A
  on_store m s = put_store s (m s.store)

-- The response that the client gets where the handler returns.
abbrev pub sent_status : ResponseWriter → ℕ
sent_status w = elim w.status [ none ↦ status_ok | some code ↦ code ]
