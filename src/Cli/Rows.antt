-- ===== src/Cli/Rows.antt =====
-- What is printed for the statuses that the server sends.
use canary_gate.Prelude.{String, ◌≡◌, refl, false, [], ◌∷◌, eq_refl, ◌==◌}
use canary_gate.Runtime.Dict.{lookup, insert}
use canary_gate.Service.{HookType, hook_event}
use canary_gate.Handler.Flagger.{create_response}
use canary_gate.Cli.Run.{gate_row, event_row, print_statuses}

module _ (ns name : String) (t : HookType) (other : (t == hook_event) ≡ false)
    (pad : String → String) where
  pub print_statuses_one :
      (text : String)
      → print_statuses pad (create_response [] ns name t text) ≡ gate_row t text name ∷ []
  unfolding print_statuses create_response lookup insert
  print_statuses_one text = rw other refl

  pub print_statuses_two :
      (text e : String)
      → print_statuses pad
          (create_response (create_response [] ns name t text) ns name hook_event e)
        ≡ gate_row (pad t) text name ∷ event_row e name ∷ []
  unfolding print_statuses create_response lookup insert
  print_statuses_two text e = rw (eq_refl, other) refl
