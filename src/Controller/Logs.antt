-- ===== src/Controller/Logs.antt =====
-- controller/zerolog_adapter.go: the sink that hands the logs of controller-runtime to zerolog.
use canary_gate.Prelude.{ℕ, zero, suc, String, ◌≡◌, refl, Bool, List, [], ◌∷◌, ◌==◌, if◌then◌else◌}
use canary_gate.Runtime.Int.{ℤ, pos, negsuc, int_eq}
use canary_gate.Server.Startup.{LogLevel, trace_level, logr_adapter, logging_of}

-- A line that is given to zerolog: its level, its message, and its fields.
pub data Event (V : Type 0) : Type 0 where
  trace_event info_event : String → List V → Event V
  error_event : String → String → List V → Event V

-- `Enabled`, for the number of the global level of zerolog.
unfoldable pub enabled : ℤ → ℤ → Bool
enabled global level = int_eq level global

-- `Info`
unfoldable pub info : {V : Type 0} → ℤ → String → List V → Event V
info level msg fields =
    if msg == "Response Body" then trace_event msg fields else info_event msg fields

-- `Error`
unfoldable pub error : {V : Type 0} → String → String → List V → Event V
error err msg fields = error_event err msg fields

-- What logr documents for a line of level `level`: it gives it to the sink where the sink is enabled.
abbrev pub lines : {V : Type 0} → ℤ → ℤ → String → List V → List (Event V)
lines global level msg fields = if enabled global level then info level msg fields ∷ [] else []

-- Whatever the count of `verbose` flags: where the server hands the logs of the controller to zerolog,
-- no line of information of the controller comes out, whichever its level is, since the number of the
-- level `trace` of zerolog is -1 and the levels of logr start at 0.
pub logging_of-silent :
    {V : Type 0} (number : LogLevel → ℤ) (count level : ℕ) (msg : String) (fields : List V)
    → number trace_level ≡ negsuc 0
    → (logging_of count).sink ≡ logr_adapter
    → lines (number (logging_of count).level) (pos level) msg fields ≡ []
unfolding logging_of enabled
logging_of-silent number zero level msg fields trace sink = cc
logging_of-silent number (suc zero) level msg fields trace sink = cc
logging_of-silent number (suc (suc zero)) level msg fields trace sink = rw trace refl
logging_of-silent number (suc (suc (suc n))) level msg fields trace sink = cc
