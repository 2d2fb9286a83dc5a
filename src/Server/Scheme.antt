-- ===== src/Server/Scheme.antt =====
-- main.go: the kinds that are registered before the server starts.
use canary_gate.Prelude.{String, Option, none, some}
use canary_gate.Runtime.Exec.{Exec, pure, raise, ◌>>=◌, ◌>>◌, failed_must}

-- The `AddToScheme` of client-go, of the custom resource and of Flagger.
pub record Registrations (S : Type 0) : Type 0 where
  pub client_go : Exec S (Option String)
  pub piggysec : Exec S (Option String)
  pub flagger : Exec S (Option String)

-- `utilruntime.Must`
unfoldable pub must : {S : Type 0} → Exec S (Option String) → Exec S (Unit {0})
must m = do e ← m; elim e [ none ↦ pure tt | some text ↦ raise failed_must ]

unfoldable pub init_scheme : {S : Type 0} → Registrations S → Exec S (Unit {0})
unfolding must
init_scheme r = do must r.client_go; must r.piggysec; must r.flagger
