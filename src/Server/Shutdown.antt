-- ===== src/Server/Shutdown.antt =====
-- What holds when the process ends (main.go).
use canary_gate.Prelude.{
  String, ◌≡◌, refl, sym, subst, ap, ◌∙◌, Option, List, [], ◌∷◌, ◌⊎◌, inl, inr,
}
use canary_gate.Server.Lifecycle.{
  ServeError, server_closed, failed, Platform, Action, got_signal, shut_store, began_shutdown,
  closed_channel, Waiter, waiting, signalled, store_ended, shutting, finished, graceful, fatal,
  Main, IsRunning, serving, returned, exited, Process, started, Step, moves, receives, ends_store,
  begins_server, ends_server, serves, exits, controller_fails, Reach, here, next, end_store,
  begin_server, end_server, exit_of, exit_process,
}

-- What is documented of `http.Server`: `ListenAndServe` returns `ErrServerClosed` only after a call of
-- `Shutdown` has begun, and nothing else begins one.
pub record IsHttpServer {W : Type 0} (platform : Platform W) : Type 1 where
  pub HasBegun : W → Type 0
  pub closed_after : (w w' : W) → platform.Serves w server_closed w' → HasBegun w
  pub moves_begin : (w w' : W) → platform.Moves w w' → HasBegun w' → HasBegun w
  pub receives_begin : (w w' : W) → platform.Receives w w' → HasBegun w' → HasBegun w
  pub store_begins : (w : W) → HasBegun (platform.store_shutdown w).1 → HasBegun w
  pub returns_begin :
      (w w' : W) (e : Option String) → platform.Returns w e w' → HasBegun w' → HasBegun w
  pub serves_begin : (w w' : W) (e : ServeError) → platform.Serves w e w' → HasBegun w' → HasBegun w

-- The actions of the goroutine that waits, up to where it stands.
abbrev pub actions_of : Waiter → List Action
actions_of waiting = []
actions_of signalled = got_signal ∷ []
actions_of store_ended = shut_store ∷ got_signal ∷ []
actions_of shutting = began_shutdown ∷ shut_store ∷ got_signal ∷ []
actions_of finished = closed_channel ∷ began_shutdown ∷ shut_store ∷ got_signal ∷ []

-- The goroutine has called `server.Shutdown`.
abbrev pub HasShut : Waiter → Type 0
HasShut waiting = ⊥
HasShut signalled = ⊥
HasShut store_ended = ⊥
HasShut shutting = Unit {0}
HasShut finished = Unit {0}

abbrev IsClosed : Main → Type 0
IsClosed serving = ⊥
IsClosed (returned server_closed) = Unit {0}
IsClosed (returned (failed e)) = ⊥
IsClosed (exited graceful) = Unit {0}
IsClosed (exited fatal) = ⊥

module _ {W : Type 0} (platform : Platform W) (doc : IsHttpServer platform) where
  record IsOrdered (p : Process W) : Type 0 where
    actions : p.actions ≡ actions_of p.waiter
    begun : doc.HasBegun p.world → HasShut p.waiter
    closed : IsClosed p.main → HasShut p.waiter

  Step-IsOrdered : {p q : Process W} → Step platform p q → IsOrdered p → IsOrdered q
  unfolding end_store begin_server end_server exit_process exit_of
  Step-IsOrdered (moves p w run m) o = record {
    actions = o.actions;
    begun = λ b. o.begun (doc.moves_begin p.world w m b);
    closed = o.closed;
  }
  Step-IsOrdered (receives p w run at m) o = record {
    actions = ap (λ l. got_signal ∷ l) (o.actions ∙ ap actions_of at);
    begun = λ b. subst HasShut at (o.begun (doc.receives_begin p.world w m b));
    closed = λ c. subst HasShut at (o.closed c);
  }
  Step-IsOrdered (ends_store p run at) o = record {
    actions = ap (λ l. shut_store ∷ l) (o.actions ∙ ap actions_of at);
    begun = λ b. subst HasShut at (o.begun (doc.store_begins p.world b));
    closed = λ c. subst HasShut at (o.closed c);
  }
  Step-IsOrdered (begins_server p run at) o = record {
    actions = ap (λ l. began_shutdown ∷ l) (o.actions ∙ ap actions_of at);
    begun = λ b. tt;
    closed = λ c. tt;
  }
  Step-IsOrdered (ends_server p e w run at m) o = record {
    actions = ap (λ l. closed_channel ∷ l) (o.actions ∙ ap actions_of at);
    begun = λ b. tt;
    closed = λ c. tt;
  }
  Step-IsOrdered (serves p server_closed w at m) o = record {
    actions = o.actions;
    begun = λ b. o.begun (doc.closed_after p.world w m);
    closed = λ c. o.begun (doc.closed_after p.world w m);
  }
  Step-IsOrdered (serves p (failed e) w at m) o = record {
    actions = o.actions;
    begun = λ b. o.begun (doc.serves_begin p.world w (failed e) m b);
    closed = λ c. absurd c;
  }
  Step-IsOrdered (exits p server_closed at) o = record {
    actions = o.actions;
    begun = o.begun;
    closed = λ c. o.closed (subst IsClosed (sym at) tt);
  }
  Step-IsOrdered (exits p (failed e) at) o = record {
    actions = o.actions;
    begun = o.begun;
    closed = λ c. absurd c;
  }
  Step-IsOrdered (controller_fails p text run m) o = record {
    actions = o.actions;
    begun = o.begun;
    closed = λ c. absurd c;
  }

  Reach-IsOrdered :
      (w : W) {q : Process W} → (doc.HasBegun w → ⊥) → Reach platform (started w) q → IsOrdered q
  Reach-IsOrdered w fresh here = record {
    actions = refl;
    begun = λ b. absurd (fresh b);
    closed = λ c. absurd c;
  }
  Reach-IsOrdered w fresh (next reach step) = Step-IsOrdered step (Reach-IsOrdered w fresh reach)

  -- The actions of a goroutine that has called `server.Shutdown`.
  shut_actions :
      (x : Waiter) (l : List Action)
      → l ≡ actions_of x
      → HasShut x
      → (l ≡ actions_of shutting) ⊎ (l ≡ actions_of finished)
  shut_actions waiting l e shut = absurd shut
  shut_actions signalled l e shut = absurd shut
  shut_actions store_ended l e shut = absurd shut
  shut_actions shutting l e shut = inl e
  shut_actions finished l e shut = inr e

  -- Where no shutdown has begun when the server starts to listen, the process ends gracefully only after
  -- the signal was received, the store was shut down and then the shutdown of the server begun, in this
  -- order and once each, with at most the closing of the channel after them.
  pub Reach-graceful :
      (w : W) (q : Process W)
      → (doc.HasBegun w → ⊥)
      → Reach platform (started w) q
      → q.main ≡ exited graceful
      → (q.actions ≡ began_shutdown ∷ shut_store ∷ got_signal ∷ [])
        ⊎ (q.actions ≡ closed_channel ∷ began_shutdown ∷ shut_store ∷ got_signal ∷ [])
  Reach-graceful w q fresh reach at =
      let o = Reach-IsOrdered w fresh reach in
      shut_actions q.waiter q.actions o.actions (o.closed (subst IsClosed (sym at) tt))

module _ {W : Type 0} (platform : Platform W) where
  -- The process does not wait for the shutdown: wherever it serves and waits, the signal can be received
  -- and `ListenAndServe` returns once the shutdown has begun, the process can end gracefully in the
  -- world that this return leaves, while the call of `server.Shutdown` has not returned.
  pub exits-unfinished :
      (p : Process W) (w w' : W)
      → p.waiter ≡ waiting
      → p.main ≡ serving
      → platform.Receives p.world w
      → platform.Serves (platform.begin_shutdown (platform.store_shutdown w).1) server_closed w'
      → (q : Process W) × Reach platform p q
        × (q.world ≡ w')
        × (q.main ≡ exited graceful)
        × (q.waiter ≡ shutting)
  unfolding end_store begin_server exit_process exit_of
  exits-unfinished p w w' waits serves_now m m' =
      let run : IsRunning p.main = subst IsRunning (sym serves_now) tt in
      let p₁ = record p { world = w; waiter = signalled; actions = got_signal ∷ p.actions } in
      let p₂ = end_store platform p₁ in
      let p₃ = begin_server platform p₂ in
      let p₄ = record p₃ { world = w'; main = returned server_closed } in
      (
        exit_process platform server_closed p₄,
        next
            (next
              (next (next (next here (receives p w run waits m)) (ends_store p₁ run refl))
                (begins_server p₂ run refl))
              (serves p₃ server_closed w' serves_now m'))
            (exits p₄ server_closed refl),
        refl,
        refl,
        refl,
      )
