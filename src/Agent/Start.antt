-- ===== src/Agent/Start.antt =====
-- cmd/chaos_agent.go: `main` up to the wait for signals.
use text.Mathlib.TextLemmas.{append_cancel_left}
use winchaos.Base.{
  String, [], ◌∷◌, ◌++◌, Option, none, some, ◌≡◌, refl, ◌∙◌, ◌⧺◌, ◌⊎◌, inl, inr, pos, sym, ◌==◌,
  eq_iff, eq_refl, Bool-cases, no_both, Option-cases,
}
use winchaos.Base.Dict.{Dict, insert, lookup}
use winchaos.Base.Exec.{Result, value, failure}
use winchaos.Cmdexec.Host.{Stat}
use winchaos.Options.{Options}
use winchaos.Options.Start.{
  Machine, set_others_by_flags, init_application_info, on_machine, get_private_ip,
}
use winchaos.Tools.KeyFile.{Files}
use winchaos.Http.{HttpClient, new_http_client}
use winchaos.Conn.Start as Conn
use winchaos.Web.Serve.{register}
use winchaos.Agent.{Fate, up, exited, PidDisk, handler_err}

-- `HttpServer.RegisterHandler`: the pattern of `http.HandleFunc`.
unfoldable pub handle_func : {H : Type 0} → String → H → Dict H → Result (Dict H)
handle_func name handler routes = value (routes ++ (("/" ⧺ name), handler) ∷ [])

-- What runs behind the start: the options, the channel to the server, the goroutines of the
-- connection, the patterns of the HTTP server, and the address that it listens on.
pub record Running (H C : Type 0) : Type 0 where
  pub opts : Options
  pub client : HttpClient
  pub conn : Conn.State C
  pub routes : Dict H
  pub listens_on : String

-- Each name behind a slash.
abbrev patterns : {H : Type 0} → Dict H → Dict H
patterns [] = []
patterns ((name, handler) ∷ apis) = ("/" ⧺ name, handler) ∷ patterns apis

slash-eq : (a b : String) → ("/" ⧺ a == "/" ⧺ b) ≡ (a == b)
slash-eq a b = elim (Bool-cases (a == b)) [
  | inl same ↦ (let e : a ≡ b = (eq_iff a b).0 same in rw (same, e) (eq_refl ("/" ⧺ b)))
  | inr differ ↦ elim (Bool-cases ("/" ⧺ a == "/" ⧺ b)) [
    | inl same ↦
        (let e = append_cancel_left "/" a b ((eq_iff _ _).0 same) in
          absurd (no_both _ ((eq_iff a b).1 e) differ))
    | inr differ' ↦ differ' ∙ sym differ
  ]
]

lookup-patterns :
    {H : Type 0} (name : String) (apis : Dict H)
    → lookup ("/" ⧺ name) (patterns apis) ≡ lookup name apis
unfolding lookup
lookup-patterns name [] = refl
lookup-patterns name ((n, handler) ∷ apis) =
    rw (lookup, slash-eq n name, lookup-patterns name apis) refl

module _ {X H C : Type 0} (files : Files X) (stat : String → X → Stat) (disk : PidDisk X)
    -- the handlers of the connection and of the apis, over the channel
    (connect heartbeat : HttpClient → C) (chaosblade uninstall : HttpClient → H)
    (ping update_application : H) where
  abbrev handlers : HttpClient → Dict C
  handlers client =
      Conn.register "heartbeat" (heartbeat client) (Conn.register "registry" (connect client) [])

  abbrev registered : HttpClient → Result (Dict H)
  registered client =
      register handle_func (chaosblade client) ping (uninstall client) update_application []

  abbrev running : Options → HttpClient → Dict H → Running H C
  running opts client routes = record {
    opts = opts;
    client = client;
    conn = Conn.start (handlers client);
    routes = routes;
    listens_on = ":" ⧺ opts.port;
  }

  -- The error of the registration ends the process.
  abbrev with_routes : String → Options → HttpClient → Result (Dict H) → X → Fate (Running H C) × X
  with_routes pid_file opts client (failure error) x =
      handler_err disk pid_file (some error) (running opts client []) x
  with_routes pid_file opts client (value routes) x = (up (running opts client routes), x)

  -- The start ends for want of an address before anything is done.
  abbrev from_options : String → Option (Options × X) → X → Fate (Running H C) × X
  from_options pid_file none x = (exited (pos 1), x)
  from_options pid_file (some (opts, x')) x =
      let client = new_http_client opts opts.transport_config in
      with_routes pid_file opts client (registered client) x'

  -- `main`, from the parsed options on, until it waits for signals.
  unfoldable pub main : String → Machine → Options → X → Fate (Running H C) × X
  main pid_file machine opts x =
      from_options pid_file (set_others_by_flags files stat machine opts x) x

  -- The handlers of the apis under their names.
  abbrev pub apis : HttpClient → Dict H
  apis client =
      ("chaosblade", chaosblade client)
      ∷ ("ping", ping)
      ∷ ("uninstall", uninstall client)
      ∷ ("updateApplication", update_application)
      ∷ []

  -- The process runs: a goroutine of the handler that registers it and one of the handler that
  -- sends heartbeats, both over a channel to the endpoint of its options, and each api at its name
  -- behind a slash, and nothing else.
  abbrev pub Serves : Options → String → Running H C → Type 0
  Serves opts ip r =
      (r.opts.ip ≡ ip)
      × (r.client ≡ new_http_client r.opts r.opts.transport_config)
      × (r.opts.transport_config.endpoint ≡ opts.transport_config.endpoint)
      × (r.listens_on ≡ ":" ⧺ opts.port)
      × (r.conn.goroutines
          ≡ ("registry", connect r.client, Conn.running)
            ∷ ("heartbeat", heartbeat r.client, Conn.running)
            ∷ [])
      × ((name : String) → lookup ("/" ⧺ name) r.routes ≡ lookup name (apis r.client))

  lookup-routes :
      (client : HttpClient) (name : String)
      → lookup ("/" ⧺ name) (patterns (apis client)) ≡ lookup name (apis client)
  lookup-routes client name = lookup-patterns name (apis client)

  -- `main` ends with the exit code 1, and has done nothing, where the machine has no address; or it
  -- goes on with the first one: it leaves what `InitApplicationInfo` leaves, the handlers that
  -- register it and send heartbeats run, both over a channel to the endpoint of its options, and it
  -- listens on its port and serves each api at its name behind a slash, and nothing else.
  pub main-Serves :
      (pid_file : String) (machine : Machine) (opts : Options) (x : X)
      → ((get_private_ip machine.interfaces ≡ none)
          × (main pid_file machine opts x ≡ (exited (pos 1), x)))
        ⊎ ((ip : String) × (get_private_ip machine.interfaces ≡ some ip)
            × ((r : Running H C) × (main pid_file machine opts x ≡ (
              up r,
              (init_application_info files stat opts.application_instance opts.application_group
                  x).1,
            ))
                × Serves opts ip r))
  unfolding main set_others_by_flags register handle_func Conn.start Conn.register insert
  main-Serves pid_file machine opts x = elim (Option-cases (get_private_ip machine.interfaces)) [
    | inl nowhere ↦ inl (nowhere, rw (main, set_others_by_flags, nowhere) refl)
    | inr (ip, found) ↦
        let opts' = on_machine machine ip opts in
        let client = new_http_client opts' opts'.transport_config in
        inr (
          ip,
          found,
          (
            running opts' client (patterns (apis client)),
            rw (main, set_others_by_flags, found) refl,
            (refl, refl, refl, refl, refl, lookup-routes client),
          ),
        )
  ]
