-- ===== src/Cli/Sends.antt =====
-- When a command prints the statuses of its gates.
use canary_gate.Prelude.{
  String, ◌++◌, ◌≡◌, ◌≢◌, refl, sym, ap, ◌∙◌, Option, none, some, ◌↔◌, inl, inr, ◌==◌, eq-false,
  ne_of_false, Bool-cases, Option-cases, List,
}
use canary_gate.Handler.Payload.{StatusMap}
use canary_gate.Cli.{Clientset, Found, found, lost, find_proxy_path}
use canary_gate.Cli.Remote.{
  Run, Result, got, fails, RunError, no_cluster, no_deployment, bad_payload, request_failed,
  no_raw_body, lift, lift_found, continue, ◌>>=◌, pure, Machine, Response, write_payload,
  load_kubernetes_config, read_response, request_and_read,
}
use canary_gate.Cli.Run.{Flags, Row, namespace_of, payload_of, print_statuses, run}

fails≢got : {A : Type 0} {e : RunError} {a : A} → fails e ≡ got a → ⊥
fails≢got e = cc

got_inj : {A : Type 0} {a b : A} → got a ≡ got b → a ≡ b
got_inj e = cc

-- Where an action of a command ends with a value: the value, and the state after it.
abbrev EndsWith : {W A : Type 0} → Result A × W → A → W → Type 0
EndsWith r a t = (r.0 ≡ got a) × (r.1 ≡ t)

-- The first of two actions of a command that ends.
continue_got :
    {W A B : Type 0} (r : Result A × W) (f : A → Run W B) (b : B) (t : W)
    → EndsWith (continue r f) b t
    → (a : A) × (r.0 ≡ got a) × EndsWith (f a r.1) b t
continue_got (got a, w) f b t e = (a, refl, e)
continue_got (fails x, w) f b t e = absurd (fails≢got e.0)

found_then :
    {W A B : Type 0} (r : Found A) (w : W) (f : A → Run W B) (b : B) (t : W)
    → EndsWith (continue (lift_found r w) f) b t
    → (a : A) × (r ≡ found a) × EndsWith (f a w) b t
found_then (found a) w f b t e = (a, refl, e)
found_then (lost x) w f b t e = absurd (fails≢got e.0)

read_response_got :
    {R : Type 0} (unmarshal : String → Option R) (result : Response) (x : R)
    → read_response unmarshal result ≡ got x
    → (text : String) × (result.error ≡ none) × (result.raw ≡ some text) × (unmarshal text ≡ some x)
unfolding read_response
read_response_got unmarshal result x e = elim (Option-cases result.error) [
  | inr (err, is) ↦ absurd (fails≢got {e = request_failed} (sym (rw is refl) ∙ e))
  | inl fine ↦ elim (Option-cases result.raw) [
    | inl missing ↦ absurd (fails≢got {e = no_raw_body} (sym (rw (fine, missing) refl) ∙ e))
    | inr (text, is) ↦ elim (Option-cases (unmarshal text)) [
      | inl bad ↦ absurd (fails≢got {e = bad_payload} (sym (rw (fine, is, bad) refl) ∙ e))
      | inr (y, read) ↦
          (text, fine, is, read ∙ ap some (got_inj {a = y} (sym (rw (fine, is, read) refl) ∙ e)))
    ]
  ]
]

module _ {K W : Type 0} (m : Machine K W) (flags : Flags) (name gate : String) (w : W)
    (rows : List Row) (t : W) where
  -- The request of the command, to a path.
  abbrev pub request_to : Clientset → String → Response × W
  request_to client path =
      m.do_request client "POST" path (write_payload (m.write_gate (payload_of flags name))) w

  -- The cluster and the deployment are given, the cluster's configuration leads to a clientset, which
  -- finds the server; the request to it is answered without an error, and its body reads as statuses,
  -- which are the rows.
  abbrev pub Sends : Type 0
  Sends =
      (client : Clientset) × (path text : String) × (x : StatusMap) × (flags.cluster ≢ "")
      × (flags.deployment ≢ "")
      × (load_kubernetes_config m flags.cluster ≡ got client)
      × (find_proxy_path client (namespace_of flags) ("/" ++ gate) ≡ found path)
      × ((request_to client path).0.error ≡ none)
      × ((request_to client path).0.raw ≡ some text)
      × ((request_to client path).1 ≡ t)
      × (m.read_statuses text ≡ some x)
      × (rows ≡ print_statuses m.pad x)

  -- The command after its two checks.
  abbrev asks : Run W (List Row)
  asks = do
    client ← lift (load_kubernetes_config m flags.cluster)
    path ← lift_found (find_proxy_path client (namespace_of flags) ("/" ++ gate))
    statuses ←
        request_and_read m client "POST" path (m.write_gate (payload_of flags name)) m.read_statuses
    pure (print_statuses m.pad statuses)

  asks_got : flags.cluster ≢ "" → flags.deployment ≢ "" → EndsWith (asks w) rows t → Sends
  unfolding request_and_read
  asks_got cluster deployment e =
      let (client, loaded, e1) =
        continue_got (lift (load_kubernetes_config m flags.cluster) w) _ rows t e in
      let (path, at, e2) =
        found_then (find_proxy_path client (namespace_of flags) ("/" ++ gate)) w _ rows t e1 in
      let (x, read, e3) =
        continue_got
          (request_and_read m client "POST" path (m.write_gate (payload_of flags name))
            m.read_statuses w)
          (λ statuses. pure (print_statuses m.pad statuses)) rows t e2 in
      let (text, fine, raw, decoded) =
        read_response_got m.read_statuses (request_to client path).0 x read in
      (
        client,
        path,
        text,
        x,
        cluster,
        deployment,
        loaded,
        at,
        fine,
        raw,
        e3.1,
        decoded,
        sym (got_inj e3.0),
      )

  got_of_asks : Sends → run m flags name gate w ≡ (got rows, t)
  unfolding run request_and_read read_response
  got_of_asks
        (client, path, text, x, cluster, deployment, loaded, at, fine, raw, after, decoded, same) =
      rw
        (
          eq-false flags.cluster "" cluster,
          eq-false flags.deployment "" deployment,
          loaded,
          at,
          fine,
          raw,
          decoded,
          same,
          after,
        )
        refl

  -- A command prints rows just where its cluster and its deployment are given, the configuration of the
  -- cluster can be loaded, the server is found, and the one request to it is answered without an error
  -- by a body that reads as the statuses of these rows; the world is then as that request leaves it.
  pub run-Sends : run m flags name gate w ≡ (got rows, t) ↔ Sends
  unfolding run
  run-Sends = (forth, got_of_asks)
    where
      forth : run m flags name gate w ≡ (got rows, t) → Sends
      forth e = elim (Bool-cases (flags.cluster == "")) [
        | inl absent ↦ absurd (fails≢got {e = no_cluster} (sym (rw absent refl) ∙ ap (λ x. x.0) e))
        | inr cluster ↦ elim (Bool-cases (flags.deployment == "")) [
          | inl absent ↦
              absurd
                (fails≢got {e = no_deployment} (sym (rw (cluster, absent) refl) ∙ ap (λ x. x.0) e))
          | inr deployment ↦
              asks_got (ne_of_false flags.cluster "" cluster)
                (ne_of_false flags.deployment "" deployment)
                (
                  sym (rw (cluster, deployment) refl) ∙ ap (λ x. x.0) e,
                  sym (rw (cluster, deployment) refl) ∙ ap (λ x. x.1) e,
                )
        ]
      ]
