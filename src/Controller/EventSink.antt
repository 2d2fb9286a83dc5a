-- ===== src/Controller/EventSink.antt =====
-- controller/dynamicevent.go: the sink that sends the events of the recorder by the dynamic client.
use canary_gate.Prelude.{String, ◌++◌, ◌⊎◌, inl, inr}
use canary_gate.Runtime.Exec.{Exec, pure, raise, ◌>>=◌, unimplemented}

-- The converter and the client at the kind of the events, over the world `W` of the cluster, for events
-- `V` and unstructured objects `U`. An error is its text.
pub record Sink (V U W : Type 0) : Type 0 where
  pub namespace : V → String
  pub to_unstructured : V → String ⊎ U
  pub from_unstructured : U → String ⊎ V
  pub create_resource : String → U → Exec W (String ⊎ U)

module _ {V U W : Type 0} (s : Sink V U W) where
  abbrev pub converted : String ⊎ V → String ⊎ V
  converted (inl e) = inl ("failed to convert created unstructured object to event: " ++ e)
  converted (inr event) = inr event

  abbrev pub created : String ⊎ U → String ⊎ V
  created (inl e) = inl ("failed to create event with dynamic client: " ++ e)
  created (inr u) = converted (s.from_unstructured u)

  unfoldable pub create : V → Exec W (String ⊎ V)
  create event = elim (s.to_unstructured event) [
    | inl e ↦ pure (inl ("failed to convert event to unstructured: " ++ e))
    | inr u ↦ do answer ← s.create_resource (s.namespace event) u; pure (created answer)
  ]

  -- `Update` is not implemented, and `Patch` sends nothing.
  abbrev pub update : V → Exec W (String ⊎ V)
  update event = raise unimplemented

  abbrev pub patch : V → String → Exec W (String ⊎ V)
  patch event bytes = pure (inr event)
