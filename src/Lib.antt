-- ===== src/Lib.antt =====
-- A model of the rclone CSI driver: the program of cmd/rcloneplugin, which mounts rclone remotes as
-- Kubernetes volumes.
--
-- Parts. The node service (pkg/rclone/nodeserver.go) publishes and unpublishes volumes: it merges the
-- parameters of a request, loads remotes into rclone's config, mounts a file system of rclone at the
-- target path and keeps a context for each target. Requests on one volume and target exclude each
-- other by the volume locks (pkg/rclone/utils.go). The controller service
-- (pkg/rclone/controllerserver.go) makes the volume IDs and contexts that the node service is sent.
-- The identity service, the log handler, the metrics collector, which reads the contexts of the node
-- service, and the metrics and remote control servers stand beside them; the program starts them all.
--
-- Files.
--   Prelude, Text, GoMap     shared helpers; Go strings and maps
--   Status, Csi              gRPC errors; the messages of the CSI interface
--   Flags                    normalizeRcloneFlag, sanitizeFlag, removePrefixCaseInsensitive
--   Params                   mergeVolumeParameters, extractPublishParams, generateConfigData and the
--                            functions below it, buildFsPath, extractVolumeMountOptions
--   Endpoint                 ParseEndpoint
--   Locks                    VolumeLocks; Locks.Workers has the interleavings of requests, and
--                            Locks.Abstract the map that the locks stand for
--   Node.Calls, Node.Monad   the state NodeServer, the calls it makes, and its methods' shape
--   Node.Keeps, Node.Effects invariants of methods, and what the calls do to them
--   Node.Target              prepareTargetDirectory
--   Node.Config              loadRcloneConfig, parseAllConfigRemotes, cleanupConfigRemotes
--   Node.Mount               createAndMountFilesystem, setRcloneConfigFlags, handleRcloneDaemon and
--                            the options
--   Node.Sync                waitForVFSCacheSync
--   Node.Volume              NodePublishVolume, NodeUnpublishVolume, unmountVolume; Node.Volume.Remotes
--                            has which context owns a section of the config, Node.Volume.Published
--                            and Node.Volume.Unpublished what each request leaves behind
--   Node.Workers             the handlers of several requests at once, cut into stages; in
--                            Node.Workers.Reachable the states that they lead to, and in
--                            Node.Workers.Owned who has a section of the config
--   Node.Outcome             what holds of a method's two ways out
--   Node.Abstract            the set of targets that the answers determine, as a specification
--   Node.RoundTrip           a publish and an unpublish request for one target
--   Node.History             NewNodeServer, and the states that requests lead to from it
--   Node.Stats               NodeGetVolumeStats, isMountHealthy; Node.Stats.Normal has which volumes are
--                            called normal
--   Controller               CreateVolume, DeleteVolume, ValidateVolumeCapabilities, replaceWithMap;
--                            Controller.Logs has what CreateVolume logs of its parameters
--   Provision                CreateVolume and then NodePublishVolume
--   Identity, Logging, Rc    pkg/rclone/identityserver.go, pkg/rclone/logging.go, internal/rc/server.go
--   Metrics                  pkg/rclone/metrics_collector.go: the labels; in Metrics.Descs the
--                            descriptions, in Metrics.Volumes the counts of each volume, in
--                            Metrics.Collect what a scrape sends, and in Metrics.Deadlock what it
--                            does to the lock of the node server
--   RwMutex                  goroutines that share a sync.RWMutex
--   MetricsServer            internal/metrics/server.go
--   Version                  pkg/rclone/version.go
--   Driver                   NewDriver and the capabilities of the driver (pkg/rclone/rclone.go)
--   Grpc, Server             logGRPC (pkg/rclone/utils.go), and Start and serve (pkg/rclone/server.go);
--                            Server.Life has Wait, Stop and ForceStop beside them
--   FakeMounter              the mounter of the tests (pkg/rclone/fake_mounter.go)
--   Process, Main            steps that a fatal error ends; main (cmd/rcloneplugin/main.go), Run and
--                            initMetricsCollector
--   Witnesses                small inputs on which the theorems are applied
--
-- State and calls. A method of the node service is a function from the state to a result and a state,
-- and what it did before an error stays done. The state has the contexts by target, the locks, and
-- the trace of all calls of rclone, the mounter and the operating system. An environment answers each
-- call from the trace before it, so it may answer in any way, errors included; the libraries are not
-- modelled further. A Go map is a list of its entries in the order of iteration.
--
-- Concurrency. gRPC runs each handler in a goroutine. Node.Workers cuts a handler where it takes and
-- returns a mutex: a stage has at most one section under `mu` or `configMu`, or one call on the volume
-- locks, so a stage that runs whole stands for one that runs beside the calls of others. The clean-up of
-- a handler that fails is a stage of its own.
--
-- Bounds and fuel. The loop of waitForVFSCacheSync runs on fuel six: five tries and the last test.
-- Every other loop is over a list. Volume stats and the counts of the metrics are computed on 64-bit
-- words; other numbers have no bound. A wait group is a count of calls, and a floating-point number is
-- a parameter.
--
-- Panics. A nil daemon process (handleRcloneDaemon) and a nil VFS (waitForVFSCacheSync) make the code
-- panic. Such a request ends with an error here, with the deferred calls made and no others.
--
-- Not modelled: that a panic ends the process, the parsing of the flags, how the libraries' servers stop,
-- the wait of the goroutine that stops the gRPC server after a test, most logging calls, and the goroutine
-- scheduling inside the libraries. Lower case and blank space are those of ASCII.
pub mod Prelude
pub mod Text
pub mod GoMap
pub mod Status
pub mod Flags
pub mod FakeMounter
pub mod Params
pub mod Endpoint
pub mod Locks
pub mod Csi
pub mod Node
pub mod Provision
pub mod Controller
pub mod Identity
pub mod Logging
pub mod Rc
pub mod Version
pub mod RwMutex
pub mod Metrics
pub mod MetricsServer
mod Witnesses
pub mod Grpc
pub mod Process
pub mod Server
pub mod Driver
pub mod Main
