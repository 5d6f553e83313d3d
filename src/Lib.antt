-- ===== src/Lib.antt =====
-- Portworx installers: a model of px-oci-mon, the monitor that installs Portworx as an OCI
-- container on a Kubernetes node, of px-spec-websvc, the web service that writes the specification
-- of such an installation, and of px-mon and px-init, which install Portworx as a plain container.
--
-- The monitor reads its arguments (the loop of `main`), checks its mounts (`validateMounted`), and
-- then installs Portworx (`doInstall`): it inspects its own container, pulls the image, runs the
-- installer container into a separate directory, runs px-runc, and where something changed drains
-- the node, switches the files (`switchOciInstall`) and restarts the service
-- (`finalizePxOciInstall`). Afterwards it watches the labels of the node (`watchNodeLabels`), which
-- ask for an uninstall, an install or a command for the service, and serves a REST interface.
--
-- Base: texts as lists of bytes with what the program uses of package strings, numbers and lists.
-- World: the surroundings. A program is a function from a `World` to an outcome and a `World`
--   (World.Monad), where the outcome may be the exit of the process. The world holds the variables
--   that change while the process runs and the history of events: commands, file operations and
--   calls of the Docker and Kubernetes APIs. The answers are the fields of an `Env`, functions of
--   the earlier events, so nothing is assumed of them but in a theorem's hypotheses. World.Returns
--   says that a program does not end the process.
-- Service: px-oci-mon/utils/service-control.go. `do_op` is `do`, `handle_request` HandleRequest.
-- Kubernetes: px-oci-mon/utils/kubernetes.go.
-- Inspect: px-oci-mon/utils/inspect.go.
-- Docker: px-oci-mon/utils/installer.go. Docker.LogReader is dockerLogReader, Docker.Pull has the
--   pull of an image and the inspections, Docker.RunOnce the run of a container.
-- Http: what both HTTP services use of package net/http.
-- Servlet: px-oci-mon/utils/servlet.go, handleOciRest and handleGetHead; Servlet.State has its
--   state, NewRESTServlet and Start, and Servlet.Actions what each action of a POST should do.
-- Monitor: px-oci-mon/main.go. Args is the argument loop of `main`, Restart isRestartRequired,
--   RootDir getKubernetesRootDir, Mounted validateMounted, Switch switchOciInstall, Finalize
--   finalizePxOciInstall, Install installPxFromOciImage, DoInstall doInstall, Uninstall
--   doUninstall, Watch watchNodeLabels, Common the constants, isExist and moveFileOrDir. Start is
--   the rest of `main`, for any order of the keys of ociPrivateMounts. Process runs the monitor
--   over notifications and requests, one after the other; Frame is about what its parts leave
--   alone.
-- Websvc: px-spec-websvc/px-spec-websvc.go. Websvc.KubeVer is parseKubeVer with kbVerRegex,
--   Websvc.Spec splitCsv and generateInstallSpec, Websvc.Request parseInstallRequest,
--   Websvc.Format the effect of Fprintf on a text, Websvc.Handlers the handlers of `main`.
-- Launcher: px-mon/px-mon.go, which runs Portworx as a container beside it. It has a state of its
--   own: the calls so far, what `os.Stdout` writes to, and what was printed. Launcher.Install is
--   `install`, Launcher.Signals the handlers, Launcher.Process `main` and the steps of the process
--   under signals. A handler runs to its end before the next signal, and signals come once `main`
--   waits. Launcher.Rounds is the specification of the handlers.
-- Init: px-init/px-init.go.
-- Tests: concrete surroundings and runs.
--
-- Deferred functions are written out behind the code that they follow. A panic and `os.Exit` are
-- the outcome `exited`, with the status as a number. Texts are ASCII: a byte from 0x80 on is
-- neither a space nor a letter. The log reader's loop is a recursion on one round more than the
-- bytes and pieces of the log; every round takes a piece or a byte, so that is enough. A reader is
-- the list of pieces in which its bytes arrive. Arithmetic on uint32 wraps around explicitly.
--
-- Parameters: the Docker and Kubernetes clients, encoding/json, encoding/csv, text/template,
-- the regular expression for the container ID, strconv.Itoa, the opening of a log file and
-- lstat, net/url, gorilla/schema and the directives of package fmt but `%%`. Log output is left
-- out. Not modelled: the servers that listen, the lock, notifications and requests that are dealt
-- with at the same time, signals that come while px-mon installs, the log level and the redirection
-- to a log file, and the vendored libraries.
pub mod Base
pub mod World
pub mod Service
pub mod Kubernetes
pub mod Inspect
pub mod Docker
pub mod Http
pub mod Servlet
pub mod Websvc
pub mod Monitor
pub mod Tests
pub mod Launcher
pub mod Init
