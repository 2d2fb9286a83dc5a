-- ===== src/Controller/Manager.antt =====
-- main.go: how the controller is started.
use canary_gate.Prelude.{String, Option, none, some, List, [], ◌∷◌}

-- What the calls on the manager of controller-runtime answer, where `none` is no error, and its check
-- `healthz.Ping`. A check takes a request of type `R`. `ctrl.GetConfigOrDie` exits the process where it
-- finds no configuration.
pub record Manager (R : Type 0) : Type 0 where
  pub get_config_or_die : Option String
  pub new_manager : Option String
  pub setup_with_manager : Option String
  pub ping : R → Option String
  pub add_healthz_check : String → (R → Option String) → Option String
  pub add_readyz_check : String → (R → Option String) → Option String
  pub start : Option String

-- The check of the application always succeeds.
unfoldable pub app_healthz : {R : Type 0} → R → Option String
app_healthz r = none

module _ {R : Type 0} (mgr : Manager R) (livez readyz : R → Option String) where
  -- The steps of `launchController` once there is a configuration, with their answers: each is taken only after those before it.
  abbrev pub steps : List (String × Option String)
  steps =
      ("Unable to start controller: ", mgr.new_manager)
      ∷ ("Unable to create controller: ", mgr.setup_with_manager)
      ∷ ("Unable to set up health check: ", mgr.add_healthz_check "healthz" mgr.ping)
      ∷ ("Unable to set up ready check: ", mgr.add_readyz_check "readyz" mgr.ping)
      ∷ ("Unable to set up health check: ", mgr.add_healthz_check "app-healthz" livez)
      ∷ ("Unable to set up ready check: ", mgr.add_readyz_check "app-readyz" readyz)
      ∷ ("Problem running controller: ", mgr.start)
      ∷ []

-- The first error is fatal: the process ends with its message and its text.
unfoldable pub first_fatal : List (String × Option String) → Option (String × String)
first_fatal [] = none
first_fatal ((message, none) ∷ rest) = first_fatal rest
first_fatal ((message, some e) ∷ rest) = some (message, e)

-- How the process ends: in the library, or by `log.Fatal` with a message and the text of an error.
pub data Fatal : Type 0 where
  dies : String → Fatal
  logs_fatal : String → String → Fatal

abbrev pub logged : Option (String × String) → Option Fatal
logged none = none
logged (some (message, e)) = some (logs_fatal message e)

unfoldable pub launch_controller :
    {R : Type 0} → Manager R → (R → Option String) → (R → Option String) → Option Fatal
unfolding first_fatal
launch_controller mgr livez readyz = elim mgr.get_config_or_die [
  | some e ↦ some (dies e)
  | none ↦ logged (first_fatal (steps mgr livez readyz))
]

-- The controller of the server.
unfoldable pub server_controller : {R : Type 0} → Manager R → Option Fatal
server_controller mgr = launch_controller mgr app_healthz app_healthz
