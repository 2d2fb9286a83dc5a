-- ===== src/Lib.antt =====
-- Canary Gate: gates that Flagger asks before it takes the next step of a canary deployment.
--
-- Flagger calls a webhook of the server (handler/flagger.go) at each step. The handler asks a store
-- (store/) whether the gate of that step is open, and answers 200 or 403. Users open, close and show
-- gates by an API of the same server. A reconciler (controller/canarygate.go) copies the Flagger spec
-- of a CanaryGate resource into a Canary, with webhooks that lead to the server.
--
-- The files:
--   Runtime        Go code that changes a state and may panic (`Exec`), maps (`Dict`) and `Int`; Safe and
--                  Cost: rules for what such code keeps and what it costs
--   Service        service/flagger.go: the hook types, the phases and the keys of the metadata
--   Api            api/v1alpha1/canarygate_types.go: the custom resource; DeepCopy:
--                  api/v1alpha1/zz_generated.deepcopy.go; Copies and Slices: what a deep copy is;
--                  Isolation: what the copies of the resource share
--   Kube           the calls of client-go as parameters: `Resource` has `Get`, `Create` and `Update`
--                  of one kind of object, `Retry` is `retry.RetryOnConflict`; Journal: the writes of one
--                  client among those of others; Requests: how many it sends
--   Store.Defs     store/store.go: the key, the defaults and the interface `Store`
--   Store.Contract what a store promises; Store.Book: a map of gates and a map of events;
--                  Store.Refinement: sequences of calls on a store, against the book; Store.Journal and
--                  Store.Requests: what such calls write, and how many requests they send
--   Store.Memory, Store.ConfigMap, Store.Crd
--                  store/memory.go, store/configmap.go, store/canarygate.go: one function for each
--                  method, named after it, with the proof of the contract in child modules; the
--                  children Writes, Interference and Accepted are about the writes of the stores of the
--                  cluster among those of other clients, Requests about the number of their requests;
--                  Crd.Changes writes the changes of a CanaryGate out.
--                  Store.GateFields: the field of a resource that a gate is kept in
--   Store.Memory.Threads
--                  the accesses of store/memory.go to its sync.Map, where requests come at the same
--                  time; Interleavings and Progress: what holds for every order; Races: what
--                  one order does
--   Noti           noti/: the interface of the notifications and the client that sends none; Slack: the
--                  client of Slack
--   Handler        handler/flagger.go: `Http` and `Payload` read requests and write responses,
--                  `Flagger` has the handlers, and the other children what they do; Version:
--                  handler/server.go
--   Controller     controller/canarygate.go: `Reconcile` and the webhooks that it registers; Manager: the
--                  start of the controller in main.go; EventSink: controller/dynamicevent.go; Logs:
--                  controller/zerolog_adapter.go
--   Server         main.go: the routes and the choice of the store; Flags: the command; Scheme: the kinds
--                  that are registered; Startup: the start, with the constructors of the stores;
--                  Launch: that start without a client; Lifecycle: the steps of the goroutines until
--                  the process ends; Shutdown: in what order they come
--   Cli            cli/main.go: finding the pod and the port that a command is sent to; GateCommands,
--                  Commands and HelpTexts: the commands; Remote: the request; Run: `run` and
--                  `serverVersion`; Proxy, RoundTrip, Overview and Sends: a command against the
--                  server
--   Tests          concrete parameters and data, and the theorems applied to them
--
-- State and errors. An action takes the state to an outcome and the next state: `done`, or `panic`
-- with the kind of the panic, and what was written before a panic stays written. The state is the
-- sync.Map of the in-memory store, and whatever world the clients act on for the other two. Go's errors
-- are values. Texts are texts, a map is an association list, a nil map or pointer is `none`.
--
-- Bounds. The code has no loop of its own but those over lists. `RetryOnConflict` is a parameter, and
-- `IsBounded` states what is documented of it: it runs its function again after a conflict, for a fixed
-- number of attempts, whichever that number is.
--
-- Assumptions on code outside of the repository are records: `IsReliable` (the API server can be reached,
-- accepts every object, and no other client writes in between), `IsServing` (it can be reached, no other
-- client writes in between, and it accepts an update that keeps what it requires of an object),
-- `IsVersioned` (other clients write at any time, a version stands for one content, and an update is
-- accepted only at the version that is stored), `IsCounted` (each call is one request), `IsBounded`,
-- `IsFaithful` (the converter of unstructured objects loses nothing), `IsHealthy` (a serving server, a bounded
-- loop, a faithful converter, and a recorder that leaves the resources alone), `IsDocumented`
-- (`CreateOrUpdate`), `IsProxied` (the proxy of the API server forwards a request to a pod),
-- `IsHttpServer` (`ListenAndServe` returns `ErrServerClosed` only after `Shutdown` has begun) and `IsDeep`
-- (the library's copies are deep). Tests fills each of them. `IsReliable` is for ConfigMaps. CanaryGates have
-- `IsServing`, over the canaries whose resource exists: docs/canarygate-crd.yaml and charts/ require a Flagger
-- spec and a target, which the object that `CreateCanaryGate` sends does not have.
--
-- Not modelled: metrics, the parsing of arguments, the network, the headers of responses, the constants of
-- the API group, and requests that are answered at the same time by one server, but for the accesses to
-- the sync.Map, and for what other clients, such as another request to the same server, write between the
-- requests of a store to the API server. These are calls of libraries, or have no state of their own.
pub mod Prelude
pub mod Runtime
pub mod Service
pub mod Api
pub mod Kube
pub mod Store
pub mod Noti
pub mod Handler
pub mod Controller
pub mod Server
pub mod Cli
pub mod Tests
