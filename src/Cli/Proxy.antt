-- ===== src/Cli/Proxy.antt =====
-- A command that reaches the server: the proxy of the API server hands its request to the handler that
-- main.go registers for the path.
use canary_gate.Prelude.{
  ℕ, String, ◌++◌, ◌≡◌, ◌≢◌, refl, false, Option, none, some, List, [], ◌∷◌, eq-false,
}
use canary_gate.Runtime.Exec.{Exec, done}
use canary_gate.Kube.Api.{ok}
use canary_gate.Handler.Http.{HandlerState, Request, new_writer, status_ok}
use canary_gate.Handler.Payload.{StatusMap}
use canary_gate.Handler.Flagger.{FlaggerHandler}
use canary_gate.Handler.Steps.{response}
use canary_gate.Server.{Route, mux, handler_of}
use canary_gate.Cli.{
  Service, Pod, Clientset, found, service_label, service_port_name, proxy_path, find_proxy_path,
}
use canary_gate.Cli.Ports.{Resolves}
use canary_gate.Cli.Pods.{Selects, find_proxy_path_reaches}
use canary_gate.Cli.Remote.{Machine, got, load_kubernetes_config, read_response, request_and_read}
use canary_gate.Cli.Run.{Flags, namespace_of, payload_of, print_statuses, run}

-- The flags are given, and the configuration of the cluster leads to the clientset.
pub record IsConfigured {K W : Type 0} (m : Machine K W) (client : Clientset) (flags : Flags)
    : Type 0 where
  pub cluster : flags.cluster ≢ ""
  pub deployment : flags.deployment ≢ ""
  pub config : K
  pub loaded :
      m.client_config (m.join (m.home ∷ ".kube" ∷ "config" ∷ [])) flags.cluster ≡ some config
  pub connected : m.new_for_config config ≡ some client

-- The server runs in the namespace, and `pod` is the first of its running pods.
pub record IsDeployed (client : Clientset) (namespace : String) (pod : Pod) (n : ℕ) : Type 0 where
  pub service : Service
  pub more : List Service
  pub listed : client.list_services namespace service_label ≡ ok (service ∷ more)
  pub selects : Selects client namespace service.name pod
  pub port : Resolves pod service service_port_name n

module _ {S N K : Type 0} (h : FlaggerHandler S N) (m : Machine K (HandlerState S N)) where
  -- A request to the proxy of the pod comes to the handler of its path, in a response that is not begun,
  -- and a response with the status 200 comes back as its body.
  pub record IsProxied (client : Clientset) (namespace : String) (pod : Pod) (n : ℕ) : Type 0 where
    pub forwards :
        (method path body text : String) (route : Route)
        (handle : (Request → Exec (HandlerState S N) (Unit {0}))) (s t : HandlerState S N)
        → mux path ≡ some route
        → handler_of h route ≡ some handle
        → handle (record { body = some body }) (record s { writer = new_writer false })
          ≡ (done tt, t)
        → t.writer ≡ response status_ok text false
        → m.do_request client method (proxy_path client namespace pod n path) body s
          ≡ (record { error = none; raw = some text }, t)

  -- The command line reads the statuses that the server writes.
  abbrev pub Readable : StatusMap → Type 0
  Readable x =
      (text : String) × (h.json.write_statuses x ≡ some text) × (m.read_statuses text ≡ some x)

  config_loaded :
      (client : Clientset) (flags : Flags)
      → IsConfigured m client flags
      → load_kubernetes_config m flags.cluster ≡ got client
  unfolding load_kubernetes_config
  config_loaded client flags c = rw (load_kubernetes_config, c.loaded, c.connected) refl

  statuses_read :
      (client : Clientset) (method path text body : String) (payload : Option String)
      (s t : HandlerState S N) (x : StatusMap)
      → payload ≡ some body
      → m.do_request client method path body s ≡ (record { error = none; raw = some text }, t)
      → m.read_statuses text ≡ some x
      → request_and_read m client method path payload m.read_statuses s ≡ (got x, t)
  unfolding request_and_read read_response
  statuses_read client method path text body payload s t x encoded sent read =
      rw (encoded, sent, read) refl

  pub run_reaches :
      (client : Clientset) (flags : Flags) (pod : Pod) (n : ℕ) (name gate body text : String)
      (route : Route) (handle : (Request → Exec (HandlerState S N) (Unit {0})))
      (s t : HandlerState S N) (x : StatusMap)
      → IsConfigured m client flags
      → IsDeployed client (namespace_of flags) pod n
      → IsProxied client (namespace_of flags) pod n
      → mux ("/" ++ gate) ≡ some route
      → handler_of h route ≡ some handle
      → m.write_gate (payload_of flags name) ≡ some body
      → handle (record { body = some body }) (record s { writer = new_writer false }) ≡ (done tt, t)
      → t.writer ≡ response status_ok text false
      → m.read_statuses text ≡ some x
      → run m flags name gate s ≡ (got (print_statuses m.pad x), t)
  unfolding run
  run_reaches client flags pod n name gate body text route handle s t x c d p routed handled encoded
        ends written read =
      let path = proxy_path client (namespace_of flags) pod n ("/" ++ gate) in
      let at : find_proxy_path client (namespace_of flags) ("/" ++ gate) ≡ found path =
        find_proxy_path_reaches client (namespace_of flags) ("/" ++ gate) d.service d.more pod n
          d.listed d.selects d.port in
      rw
        (
          eq-false flags.cluster "" c.cluster,
          eq-false flags.deployment "" c.deployment,
          config_loaded client flags c,
          at,
          statuses_read client "POST" path text body (m.write_gate (payload_of flags name)) s t x
              encoded
              (p.forwards "POST" ("/" ++ gate) body text route handle s t routed handled ends
                written)
              read,
        )
        refl
