-- ===== src/Tests/Lifecycle.antt =====
-- A server that is told to end while it answers a request.
use canary_gate.Prelude.{
  ℕ, suc, ◌≡◌, refl, subst, Bool, true, false, false≢true, none, [], ◌∷◌, ◌⊎◌, inl, inr,
}
use canary_gate.Server.Lifecycle.{
  server_closed, Platform, got_signal, shut_store, began_shutdown, closed_channel, Process, started,
  Reach, here, next, receives, ends_store, begins_server, serves, exits, shutting, signalled,
  graceful, exited, returned, end_store, begin_server, exit_process, exit_of,
}
use canary_gate.Server.Shutdown.{IsHttpServer, Reach-graceful, exits-unfinished}

-- Whether the signal was sent and a shutdown has begun, and how many requests are being answered.
record Machine : Type 0 where
  sent : Bool
  begun : Bool
  in_flight : ℕ

abbrev machine : Platform Machine
machine = record {
  Moves = λ w w'. (w' ≡ record w { sent = true }) ⊎ (w' ≡ record w { in_flight = suc w.in_flight });
  Receives = λ w w'. (w.sent ≡ true) × (w' ≡ w);
  store_shutdown = λ w. (none, w);
  begin_shutdown = λ w. record w { begun = true };
  Returns = λ w e w'. (w.in_flight ≡ 0) × (e ≡ none) × (w' ≡ w);
  Serves = λ w e w'. (e ≡ server_closed) × (w.begun ≡ true) × (w' ≡ w);
  Fails = λ w text. text ≡ "Problem running controller: leader election lost";
}

abbrev HasBegun : Machine → Type 0
HasBegun w = w.begun ≡ true

Moves-begun :
    (w w' : Machine)
    → (w' ≡ record w { sent = true }) ⊎ (w' ≡ record w { in_flight = suc w.in_flight })
    → HasBegun w'
    → HasBegun w
Moves-begun w w' (inl e) b = subst HasBegun e b
Moves-begun w w' (inr e) b = subst HasBegun e b

abbrev machine-IsHttpServer : IsHttpServer machine
machine-IsHttpServer = record {
  HasBegun = HasBegun;
  closed_after = λ w w' m. m.1;
  moves_begin = Moves-begun;
  receives_begin = λ w w' m b. subst HasBegun m.1 b;
  store_begins = λ w b. b;
  returns_begin = λ w w' e m b. subst HasBegun m.2 b;
  serves_begin = λ w w' e m b. m.1;
}

abbrev busy : Machine
busy = record { sent = true; begun = false; in_flight = 1 }

abbrev left : Machine
left = record { sent = true; begun = true; in_flight = 1 }

-- The process ends while a request is being answered.
exits-unfinished_example :
    (q : Process Machine) × Reach machine (started busy) q
    × (q.world ≡ left)
    × (q.main ≡ exited graceful)
    × (q.waiter ≡ shutting)
exits-unfinished_example =
    exits-unfinished machine (started busy) busy left refl refl (refl, refl) (refl, refl, refl)

abbrev told : Process Machine
told = record (started busy) { waiter = signalled; actions = got_signal ∷ [] }

abbrev closing : Process Machine
closing = begin_server machine (end_store machine told)

abbrev ended : Process Machine
ended = exit_process machine server_closed (record closing { main = returned server_closed })

ended-Reach : Reach machine (started busy) ended
unfolding begin_server end_store exit_process
ended-Reach =
    next
      (next
        (next
          (next (next here (receives (started busy) busy tt refl (refl, refl)))
            (ends_store told tt refl))
          (begins_server (end_store machine told) tt refl))
        (serves closing server_closed left refl (refl, refl, refl)))
      (exits (record closing { main = returned server_closed }) server_closed refl)

Reach-graceful_example :
    (ended.actions ≡ began_shutdown ∷ shut_store ∷ got_signal ∷ [])
    ⊎ (ended.actions ≡ closed_channel ∷ began_shutdown ∷ shut_store ∷ got_signal ∷ [])
unfolding exit_process exit_of
Reach-graceful_example =
    Reach-graceful machine machine-IsHttpServer busy ended false≢true ended-Reach refl
