-- ===== src/Cli/Tables.antt =====
-- What holds of every command of the tables in cli/main.go.
use canary_gate.Prelude.{String, ◌≡◌, refl, sym, subst, Bool, true, false, List, [], ◌∷◌, ◌==◌}
use mathlib.Core.List.{Memᴰ}
use mathlib.Core.List.Memᴰ.{head, tail}
use canary_gate.Service.{hook_event}
use canary_gate.Handler.Flagger.{gate_types}
use canary_gate.Cli.GateCommands.{GateCommand, open_gates, close_gates, status_gates}

abbrev All {ℓ} : {A : Type ℓ} → (A → Type 0) → List A → Type 0
All P [] = Unit {0}
All P (x ∷ xs) = P x × All P xs

All-Memᴰ : {A : Type 0} (P : A → Type 0) (a : A) (l : List A) → All P l → Memᴰ a l → P a
All-Memᴰ P a [] all at = elim at [ ]
All-Memᴰ P a (x ∷ l) all (head e) = subst P (sym e) all.0
All-Memᴰ P a (x ∷ l) all (tail at) = All-Memᴰ P a l all.1 at

-- The name of the command is a gate, and its action is the one given.
abbrev pub IsAction : String → GateCommand → Type 0
IsAction action g =
    (g.action ≡ action) × ((g.name == hook_event) ≡ false) × (gate_types g.name ≡ g.name ∷ [])

abbrev pub set_gates : Bool → List GateCommand
set_gates true = open_gates
set_gates false = close_gates

abbrev pub set_action : Bool → String
set_action true = "open"
set_action false = "close"

pub set_gates-IsAction :
    (o : Bool) (g : GateCommand) → Memᴰ g (set_gates o) → IsAction (set_action o) g
unfolding gate_types
set_gates-IsAction true g at =
    All-Memᴰ (IsAction "open") g open_gates
      (
        (refl, refl, refl),
        (
          (refl, refl, refl),
          (
            (refl, refl, refl),
            (
              (refl, refl, refl),
              ((refl, refl, refl), ((refl, refl, refl), ((refl, refl, refl), tt))),
            ),
          ),
        ),
      )
      at
set_gates-IsAction false g at =
    All-Memᴰ (IsAction "close") g close_gates
      (
        (refl, refl, refl),
        (
          (refl, refl, refl),
          (
            (refl, refl, refl),
            (
              (refl, refl, refl),
              ((refl, refl, refl), ((refl, refl, refl), ((refl, refl, refl), tt))),
            ),
          ),
        ),
      )
      at

pub status_gates_action : (g : GateCommand) → Memᴰ g status_gates → g.action ≡ "status"
status_gates_action g at =
    All-Memᴰ (λ c. c.action ≡ "status") g status_gates
      (refl, (refl, (refl, (refl, (refl, (refl, (refl, (refl, tt)))))))) at
