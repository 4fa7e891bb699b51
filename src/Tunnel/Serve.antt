-- ===== src/Tunnel/Serve.antt =====
-- internal/agent/reconciler.go: the body of Reconcile's loop for one desired route, and the UDP
-- relay of a route.
use portloom.Domain.Route.{
  Invalid, Route, bad_local_host, bad_local_port, bad_path_prefix, bad_protocol, bad_public_port,
  bad_stream_port, domain_on_stream, domain_required, invalid, name_required, prefix_on_stream,
  protocol_eq, strip_on_stream, strip_without_prefix, udp, valid, validate,
}
use portloom.Maps.{map_get, map_put, map_remove}
use portloom.Net.{join_host_port}
use portloom.Prelude.{Text, codes, if◌then◌else◌, ltb_ℤ, none, not, pos, some, ℕ, ◌++◌, ◌==◌, ◌||◌}
use portloom.Strings.{itoa}
use portloom.Tunnel.{Opened, Reconciler, Runner, down, error, opened, refused}
use portloom.Tunnel.Forwarding.{Outcome, disable_route, establish, fail_route}

-- The messages of Validate.
unfoldable pub invalid_text : Invalid → Text
invalid_text name_required = codes "name is required"
invalid_text bad_protocol = codes "protocol must be http, https, tcp, or udp"
invalid_text domain_required = codes "valid domain is required for HTTP/HTTPS route"
invalid_text bad_path_prefix =
    codes "path prefix must start with / and contain no empty or dot segments"
invalid_text strip_without_prefix = codes "strip path requires a path prefix"
invalid_text bad_public_port = codes "public port must be between 1 and 65535"
invalid_text bad_stream_port = codes "public port must be between 1 and 65535 for TCP/UDP route"
invalid_text domain_on_stream = codes "domain is only valid for HTTP/HTTPS route"
invalid_text prefix_on_stream = codes "path prefix is only valid for HTTP/HTTPS route"
invalid_text strip_on_stream = codes "strip path is only valid for HTTP/HTTPS route"
invalid_text bad_local_host = codes "invalid local host"
invalid_text bad_local_port = codes "local port must be between 1 and 65535"

module _ {W : Type 0} (runner : Runner W) where
  unfoldable pub ensure_relay : Route → Reconciler W → Opened × Reconciler W
  unfolding ◌==◌ join_host_port itoa
  ensure_relay route r = elim (map_get ◌==◌ route.id r.relays) [
    | none ↦ listen r
    | some relay ↦
        let dropped = record r {
          relays = map_remove ◌==◌ route.id r.relays;
          world = runner.close_relay relay r.world;
        } in
        let fresh = listen dropped in
        if relay.target == target then (opened relay.port, r) else fresh
  ]
    where
      target : Text
      target = join_host_port route.local_host (itoa route.local_port)

      listen : Reconciler W → Opened × Reconciler W
      listen s =
          let call = runner.listen_relay s.world in
          elim call.0 [
            | refused m ↦ (refused (codes "listen UDP relay: " ++ m), record s { world = call.1 })
            | opened port ↦ (
              opened port,
              record s {
                relays = map_put ◌==◌ route.id (record { target = target; port = port }) s.relays;
                world = call.1;
              },
            )
          ]

  unfoldable pub serve_udp : Text → Route → Reconciler W → Outcome W
  unfolding ensure_relay fail_route establish
  serve_udp host route r =
      let e = ensure_relay route r in
      elim e.0 [
        | refused m ↦ fail_route runner route.id error m e.1
        | opened port ↦
            establish runner route.id
              (record {
                bind_host = host;
                remote_port = route.remote_port;
                local_host = codes "127.0.0.1";
                local_port = port;
              })
              e.1
      ]

  unfoldable pub serve_tcp : Text → Route → Reconciler W → Outcome W
  unfolding fail_route establish
  serve_tcp host route r =
      let check = runner.check_local route.local_host route.local_port r.world in
      let s = record r { world = check.1 } in
      elim check.0 [
        | some m ↦ fail_route runner route.id down m s
        | none ↦
            establish runner route.id
              (record {
                bind_host = host;
                remote_port = route.remote_port;
                local_host = route.local_host;
                local_port = route.local_port;
              })
              s
      ]

  -- The body of the loop over the desired routes, for an identifier that was not seen before.
  unfoldable pub reconcile_route : (ℕ → ℕ) → Text → Route → Reconciler W → Outcome W
  unfolding disable_route fail_route validate invalid_text protocol_eq serve_udp serve_tcp
  reconcile_route unicode_lower host raw r =
      if not raw.enabled then disable_route runner raw.id r else elim (validate unicode_lower raw) [
        | invalid e ↦ fail_route runner raw.id error (invalid_text e) r
        | valid route ↦
            if ltb_ℤ route.remote_port (pos 1) || ltb_ℤ (pos 65535) route.remote_port
            then fail_route runner route.id error (codes "remote port must be between 1 and 65535")
                r
            else if protocol_eq route.protocol udp
            then serve_udp host route r
            else serve_tcp host route r
      ]
