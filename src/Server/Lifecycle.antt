-- ===== src/Server/Lifecycle.antt =====
-- main.go: the end of the process. `launchServer` listens, while one goroutine runs the controller and
-- another waits for the signal and shuts the store and the server down; `main` ends the process when
-- `launchServer` returns.
use canary_gate.Prelude.{String, ◌++◌, ◌≡◌, Option, none, some, List, [], ◌∷◌}

-- What `ListenAndServe` returns, which is never nil: `http.ErrServerClosed`, or another error.
pub data ServeError : Type 0 where
  server_closed : ServeError
  failed : String → ServeError

-- The world around the goroutines: the signals, the store, and `http.Server` with its connections.
pub record Platform (W : Type 0) : Type 1 where
  -- Requests come and end, signals are sent.
  pub Moves : W → W → Type 0
  -- `<-sigint`
  pub Receives : W → W → Type 0
  pub store_shutdown : W → Option String × W
  -- A call of `server.Shutdown`, and its return.
  pub begin_shutdown : W → W
  pub Returns : W → Option String → W → Type 0
  -- The return of `server.ListenAndServe`.
  pub Serves : W → ServeError → W → Type 0
  -- `launchController` meets an error, which it logs with this text.
  pub Fails : W → String → Type 0

-- What the goroutine that waits has done, the newest first.
pub data Action : Type 0 where
  got_signal shut_store began_shutdown closed_channel : Action

-- Where that goroutine stands.
pub data Waiter : Type 0 where
  waiting signalled store_ended shutting finished : Waiter

pub data Exit : Type 0 where
  graceful fatal : Exit

-- Where the main goroutine stands: in `ListenAndServe`, after it, or past the end of the process.
pub data Main : Type 0 where
  serving : Main
  returned : ServeError → Main
  exited : Exit → Main

abbrev pub IsRunning : Main → Type 0
IsRunning serving = Unit {0}
IsRunning (returned e) = Unit {0}
IsRunning (exited x) = ⊥

-- The test of `main` on the error.
unfoldable pub exit_of : ServeError → Exit
exit_of server_closed = graceful
exit_of (failed e) = fatal

unfoldable pub exit_message : ServeError → String
exit_message server_closed = "Server closed gracefully"
exit_message (failed e) = "Error: " ++ e

abbrev pub logged : List String → String → Option String → List String
logged logs prefix none = logs
logged logs prefix (some e) = (prefix ++ e) ∷ logs

pub record Process (W : Type 0) : Type 0 where
  pub world : W
  pub waiter : Waiter
  pub main : Main
  pub actions : List Action
  pub logs : List String

-- The process when it starts to listen.
abbrev pub started : {W : Type 0} → W → Process W
started w = record { world = w; waiter = waiting; main = serving; actions = []; logs = [] }

module _ {W : Type 0} (platform : Platform W) where
  unfoldable pub end_store : Process W → Process W
  end_store p =
      let (e, w) = platform.store_shutdown p.world in
      record p {
        world = w;
        waiter = store_ended;
        actions = shut_store ∷ p.actions;
        logs = logged p.logs "Store Shutdown: " e;
      }

  unfoldable pub begin_server : Process W → Process W
  begin_server p = record p {
    world = platform.begin_shutdown p.world;
    waiter = shutting;
    actions = began_shutdown ∷ p.actions;
  }

  -- `server.Shutdown` has returned, and the channel is closed.
  unfoldable pub end_server : Option String → W → Process W → Process W
  end_server e w p = record p {
    world = w;
    waiter = finished;
    actions = closed_channel ∷ p.actions;
    logs = logged p.logs "HTTP server Shutdown: " e;
  }

  unfoldable pub exit_process : ServeError → Process W → Process W
  exit_process e p = record p { main = exited (exit_of e); logs = exit_message e ∷ p.logs }

  -- One step of one of the goroutines, or of the world around them, while the process runs.
  pub data Step : Process W → Process W → Type 0 where
    moves :
        (p : Process W) (w : W)
        → IsRunning p.main
        → platform.Moves p.world w
        → Step p (record p { world = w })
    receives :
        (p : Process W) (w : W)
        → IsRunning p.main
        → p.waiter ≡ waiting
        → platform.Receives p.world w
        → Step p (record p { world = w; waiter = signalled; actions = got_signal ∷ p.actions })
    ends_store : (p : Process W) → IsRunning p.main → p.waiter ≡ signalled → Step p (end_store p)
    begins_server :
        (p : Process W) → IsRunning p.main → p.waiter ≡ store_ended → Step p (begin_server p)
    ends_server :
        (p : Process W) (e : Option String) (w : W)
        → IsRunning p.main
        → p.waiter ≡ shutting
        → platform.Returns p.world e w
        → Step p (end_server e w p)
    serves :
        (p : Process W) (e : ServeError) (w : W)
        → p.main ≡ serving
        → platform.Serves p.world e w
        → Step p (record p { world = w; main = returned e })
    exits : (p : Process W) (e : ServeError) → p.main ≡ returned e → Step p (exit_process e p)
    -- `log.Fatal` of the controller's goroutine.
    controller_fails :
        (p : Process W) (text : String)
        → IsRunning p.main
        → platform.Fails p.world text
        → Step p (record p { main = exited fatal; logs = text ∷ p.logs })

  pub data Reach (p : Process W) : Process W → Type 0 where
    here : Reach p p
    next : {q r : Process W} → Reach p q → Step q r → Reach p r
