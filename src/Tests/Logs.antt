-- ===== src/Tests/Logs.antt =====
-- Logs of containers, and requests to the REST service.
use px_installer.Base.{
  ℕ, zero, suc, ◌^◌, ◌+◌, ◌<◌, true, none, some, List, [], ◌∷◌, ◌++◌, ◌≡◌, ◌≢◌, refl, arith, length,
  drop, All, Bytes, lit, str_eq, has_prefix,
}
use px_installer.Base.Result.{Result, ok}
use px_installer.World.{Node, World, finished, exec}
use px_installer.World.Monad.{log}
use px_installer.Docker.LogReader.{failed, panicked, no_fuel, big_endian, docker_log_reader}
use px_installer.Docker.LogReader.Termination.{docker_log_reader-ends}
use px_installer.Docker.LogReader.Frames.{
  Frame, header_of, pieces_of, rendered, docker_log_reader-overflow,
}
use px_installer.Docker.LogReader.Torn.{IsTail, torn, docker_log_reader-IsTail}
use px_installer.Service.{nsenter, systemctl}
use px_installer.Monitor.Common.{oci_service}
use px_installer.Servlet.{operation, handle_oci_rest}
use px_installer.Servlet.Answers.{
  answer, get_answer, get_request, post_request, handle_oci_rest-get,
}
use px_installer.Servlet.Actions.{start_service, effect, Posts}
use px_installer.Servlet.Posts.{handle_oci_rest-effect}
use px_installer.Kubernetes.{service_key}
use px_installer.Servlet.Reply.{IsAnswered, handle_oci_rest-IsAnswered}
use px_installer.Tests.Host.{plain_host, start_world, labelled_node}

abbrev two_frames : List Frame
two_frames =
    record { stream = 1; payload = lit "hello" } ∷ record { stream = 2; payload = lit "no" } ∷ []

two_frames-All : All (λ f. length (Frame.payload f) + 2 < 2 ^ 32) two_frames
unfolding lit
two_frames-All = (omega arith, (omega arith, tt))

-- A message about a reboot, of which the second read gives the last seven bytes.
abbrev reboot_frame : Frame
reboot_frame = record { stream = 1; payload = lit "OK, require reboot now" }

abbrev torn_tail : List (Result Bytes Bytes)
torn_tail = ok (header_of reboot_frame) ∷ ok (lit "OK, require reb") ∷ ok (lit "oot now") ∷ []

torn_tail-IsTail :
    IsTail torn_tail
      (λ out. failed (lit "Short write (hdr)") (out ++ (lit "> " ++ lit "OK, require reb")))
unfolding lit
torn_tail-IsTail =
    torn reboot_frame (lit "OK, require reb") (lit "oot now") [] refl (omega arith) (omega arith)

docker_log_reader-IsTail_example :
    docker_log_reader (pieces_of two_frames ++ torn_tail)
    ≡ failed (lit "Short write (hdr)") (rendered two_frames ++ (lit "> " ++ lit "OK, require reb"))
docker_log_reader-IsTail_example =
    docker_log_reader-IsTail two_frames two_frames-All torn_tail-IsTail

docker_log_reader-ends_example : docker_log_reader (pieces_of two_frames) ≢ no_fuel []
docker_log_reader-ends_example = docker_log_reader-ends (pieces_of two_frames) []

abbrev long_header : Bytes
long_header = 1 ∷ 0 ∷ 0 ∷ 0 ∷ 255 ∷ 255 ∷ 255 ∷ 255 ∷ []

docker_log_reader-overflow_example :
    docker_log_reader (pieces_of two_frames ++ (ok long_header ∷ []))
    ≡ panicked (rendered two_frames)
docker_log_reader-overflow_example =
    docker_log_reader-overflow two_frames long_header [] two_frames-All refl
      (unfold big_endian in omega arith) (unfold big_endian in omega arith)

-- A length is written as so many strokes.
abbrev strokes : ℕ → Bytes
strokes zero = []
strokes (suc n) = b'|' ∷ strokes n

abbrev rest_node : Node
rest_node = labelled_node service_key []

abbrev finished_world : World
finished_world = record start_world { state = finished }

handle_oci_rest-get_example :
    answer
      (handle_oci_rest strokes plain_host oci_service rest_node
        (get_request (lit "/"))
        finished_world).0
    ≡ some (get_answer finished (ok (200, lit "up")))
handle_oci_rest-get_example =
    handle_oci_rest-get strokes plain_host oci_service rest_node (lit "/") finished_world

abbrev start_uri : Bytes
start_uri = lit "/service/start"

abbrev started_once : World
started_once =
    log (exec (nsenter oci_service (lit "/bin/sh") (systemctl oci_service (lit "start"))))
      start_world

handle_oci_rest-effect_example :
    Posts plain_host oci_service rest_node strokes start_service start_world
      (effect plain_host oci_service rest_node start_service start_world)
handle_oci_rest-effect_example =
    handle_oci_rest-effect strokes plain_host oci_service rest_node start_service start_world

-- The effect of that request is a single command, which succeeds.
start_effect :
    effect plain_host oci_service rest_node start_service start_world ≡ (true, started_once)
unfolding lit str_eq
start_effect = refl

abbrev frob_uri : Bytes
frob_uri = lit "/service/frob"

frob_unknown :
    (has_prefix frob_uri (lit "/service/") ≡ true)
    × (operation strokes plain_host oci_service rest_node (drop 9 frob_uri) ≡ none)
unfolding has_prefix operation str_eq lit
frob_unknown = (refl, refl)

handle_oci_rest-IsAnswered_example :
    IsAnswered (
      handle_oci_rest strokes plain_host oci_service rest_node (post_request start_uri) start_world)
handle_oci_rest-IsAnswered_example =
    handle_oci_rest-IsAnswered strokes plain_host oci_service rest_node (post_request start_uri)
      start_world
