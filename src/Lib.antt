-- ===== src/Lib.antt =====
-- A verification library for the Linode Block Storage CSI driver: the driver's services as
-- functions over an explicit world, and theorems about them.
--
-- The driver has two services. The controller service (internal/driver/controllerserver.go and
-- controllerserver_helper.go) turns CSI requests into calls of the Linode API; the node service
-- (nodeserver.go, nodeserver_helpers.go, nodeserver_all.go, luks.go) mounts, encrypts and unmounts
-- volumes on one instance. Both use pkg/linode-volumes for ids, errors.go for errors and
-- pkg/observability for metrics. The controller hands the node what it needs in the volume context
-- and in the publish context.
--
-- Common: Booleans, lists, integers, texts, runes, decimals and maps.
-- Errors: internal/driver/errors.go. An error is a format and its arguments.
-- Effect: how a handler runs. It takes a state, which is the outside world and the metrics samples
--   that were recorded, and is done, fails or panics; what was changed before stays changed. A
--   call of outside code is a function of the world. Effect/Samples: rules for which samples are
--   recorded. Effect/Kept: rules for what a handler leaves of a view of the world.
--   Effect/Runs: what the steps of a run came to. Effect/Leads: rules for steps that lead from one
--   property of a view to another. Effect/Gives: rules for what a step returns. Effect/Panics: rules
--   for which steps panic; the Calm modules apply them to the parts.
-- Volumes: pkg/linode-volumes/utils.go. Volumes/RoundTrip: keys are printed and read.
-- Limits: internal/driver/limits.go. Limits/Bounds: its range.
-- Capacity: the sizes of controllerserver_helper.go. Capacity/Bounds: which sizes are accepted.
-- Api: the part of linodego and pkg/linode-client that is used, as a record of functions. Api/Laws:
--   what the API documents of volumes where it is reachable, and Api/Frame: what it documents of
--   every call, failed ones included, for the theorems that need it.
-- Csi: the messages of the CSI specification. Paths: Go's path functions that are used.
-- Host: the node's file system, mounter, commands and libcryptsetup, as records of functions.
-- Devices: pkg/device-manager/device.go. Luks: internal/driver/luks.go.
-- Metadata: internal/driver/metadata.go.
-- Controller: the shared parts of the controller service. Controller/Create, Delete, Publish,
--   Unpublish, Expand and Query: CreateVolume, DeleteVolume, ControllerPublishVolume,
--   ControllerUnpublishVolume, ControllerExpandVolume, and ListVolumes with
--   ValidateVolumeCapabilities; below each, its theorems. Controller/Provision: the parts of
--   CreateVolume that call nothing, and Controller/Create/Steps, Sources and Done: what a success
--   came through. Controller/Spec: what a request may do to the volumes, and
--   Controller/Refinement: that sequences of requests do no more. Controller/Life: a volume across
--   the operations. Controller/Replies: panics, over Api/Replies, which says which pointers are nil.
--   Samples: the metrics of both services.
-- Node: the shared parts of the node service. Node/Stage, Unstage, Publish and Info:
--   NodeStageVolume, NodeUnstageVolume with NodeUnpublishVolume, NodePublishVolume, and
--   NodeExpandVolume with NodeGetInfo and NodeGetVolumeStats; below each, its theorems.
--   Node/Replies: panics. Host/Frame: what the machine documents of each call, on a view of
--   its mounts, mappings and LUKS headers. Node/Spec: the abstract specification of the node
--   service on such views. Devices/Kept, Luks/Leads, Luks/Returns, Node/Kept and the Effects modules
--   below Stage, Publish and Unstage: what each step does to a view; Node/Changes: changes one place
--   after the other. Node/Refinement: sequences of requests to the service. Node/Life: what a machine
--   that works does, on paths that can be mounted on and devices that can be mounted, and a volume
--   across the operations on it.
-- Capabilities: internal/driver/capabilities.go. Driver: internal/driver/driver.go, with its
--   set-up in Driver/Setup and internal/driver/identityserver.go in Driver/Identity.
--   Driver/Prefixes, Driver/Complete: which prefixes and which arguments are accepted.
-- Grpc: internal/driver/server.go. The goroutines are a step relation on the server; Grpc/Waiting
--   is about its states. Main: main.go, which puts the parts together; Main/Laws and Main/Starts
--   are about the start. Linodego: pkg/linode-client/linode_client.go. Metrics:
--   pkg/observability/metrics.go. Interceptors: LogGRPC of pkg/logger/logger.go, and
--   pkg/observability/tracker.go.
-- Tests: a cloud and a node in memory, and runs of the theorems in them.
--
-- A definition has the name of the Go function in snake case; a helper stands for a part of the
-- function that uses it. Go's int and int64 are integers of 64 bits, wrapped where an operation can
-- leave the range. A nil pointer is an option, and following one panics. Recursion is structural
-- but for the decimal print of a number n, which has n + 1 steps of fuel, and each step divides by
-- ten. The node service holds a lock during a stage, unstage, publish or unpublish call, so such a
-- call is one step; a call of the controller service is modelled as running alone.
--
-- Not modelled: the log lines but those of LogGRPC, and durations, contexts and their cancellation;
-- the flags, exit codes and maxProcs of main.go; what a gRPC or an HTTP server does once it serves;
-- the naming of spans; the text of a formatted message; the Windows stub of the node helpers;
-- generated mocks and deployment files. The Linode API, the operating system, libcryptsetup,
-- linodego, the Prometheus registry, url.Parse and json.Marshal are parameters. What the API, the
-- machine and the registry document is a hypothesis where a theorem needs it.
pub mod Common
pub mod Errors
pub mod Effect
pub mod Volumes
pub mod Limits
pub mod Capacity
pub mod Api
pub mod Csi
pub mod Paths
pub mod Host
pub mod Devices
pub mod Luks
pub mod Metadata
pub mod Controller
pub mod Capabilities
pub mod Driver
pub mod Linodego
pub mod Grpc
pub mod Main
pub mod Metrics
pub mod Interceptors
pub mod Node
pub mod Samples
pub mod Tests
