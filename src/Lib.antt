-- ===== src/Lib.antt =====
-- A model of the NexentaStor CSI driver (pkg/config, pkg/arrays, pkg/driver) and its theorems.
--
-- The driver is one process with up to three gRPC servers: identity, controller and node. They share
-- one `*config.Config`; the controller and the node server each keep a map of resolvers, one for each
-- NexentaStor of the config. A handler refreshes the config (which may rebuild the resolvers), parses
-- the volume identifier, resolves the storage, and calls its API; the node server then mounts.
--
-- The files and the code:
--   Common           texts, lists, maps, integers, paths: Go's library calls that the driver uses
--   Arrays           pkg/arrays/arrays.go
--   Role             pkg/driver/role.go
--   VolumeId         pkg/driver/utils.go: ParseVolumeID
--   Errors           gRPC statuses, formatted errors, and the outcome of a call: value, error or panic
--   External         the libraries that the driver calls, as one record of functions over an abstract
--                    world; External.Params holds the types of package ns that the driver fills in or
--                    reads, External.Laws what some theorems assume of the tests of errors and of
--                    ns.NewResolver, External.Storage what the theorems on repeated calls assume of a storage
--   Config           pkg/config/config.go: Config.Data the types, Config.Address the address pattern,
--                    Config.Validate and Config.Refresh the two functions, Config.Discovery the search
--                    for the file and New; Refresh.Rebuilt is what both refreshConfig share
--   Process          the state of the process (config, both maps of resolvers, the world) and the
--                    sequencing of handlers; Process.Runs takes a successful run apart, Process.Frames,
--                    Process.Refreshed and Process.Survival have rules for programs that leave the
--                    servers alone, that refresh them once, and that do not panic
--   Controller       pkg/driver/controllerServer.go: Requests the messages, Resolvers refreshConfig and
--                    NewControllerServer, Resolve resolveNS and its three ways, Create CreateVolume,
--                    NewVolume createNewVolume, createNewVolumeFromSnapshot and createClonedVolume,
--                    Share createNfsShare, Delete DeleteVolume, ControllerExpandVolume and GetCapacity,
--                    SnapshotOnNs CreateSnapshotOnNS, Snapshots and Page the snapshot handlers, Volumes
--                    ListVolumes and ValidateVolumeCapabilities, Capability the supported capabilities
--                    and the zone, Fixed the constant answers, Service the requests of all methods and
--                    the runs of a server that serves them one after the other
--   Node             pkg/driver/nodeServer.go: Options the mount options and permissions, Server the
--                    resolvers and NodeGetVolumeStats, Mount doMount, mountNFS and mountCIFS, Publish
--                    NodePublishVolume and NodeUnpublishVolume, Fixed the constant answers, Service
--                    the requests and runs
--   Identity         pkg/driver/identityServer.go
--   Serve            the calls that the gRPC server of pkg/driver/driver.go hands to the handlers of the
--                    three servers, behind grpcErrorHandler
--   Driver           pkg/driver/driver.go: NewDriver, Validate and Run
--   Command          cmd/main.go: main, from its flags on
--   Tests            a small concrete storage, and runs and theorems at concrete inputs
--
-- A handler is a function from the state of the process to an outcome and a state; the writes before an
-- error stay. A nil pointer that is dereferenced, and a method of a nil error or interface that is
-- called, ends in `panic`. Handlers run one after the other: what they do
-- at the same time, without a lock, is not modelled.
--
-- How the model stands to the code:
--   - a text is a sequence of Unicode characters; all separators of the driver are ASCII, so bytes and
--     characters split alike. A text that `status.Errorf` formats a second time is taken as it is, which
--     holds if it has no percent sign;
--   - a Go map is a list of pairs, whose order stands for the order that `range` leaves open. Theorems
--     hold for every list;
--   - a modification time is a number, of which only equality is read; `int` has 64 bits; `int32` and
--     `os.FileMode` conversions wrap as written;
--   - a getter of a nil protobuf message gives the zero value of its field; where the code tells nil
--     from empty, the field is an option;
--   - loops are recursion on the list that they range over. `show_nat` writes with fuel for twenty
--     digits, enough for 64 bits. `pages`, a client's walk over the pages of a list, takes fuel, and
--     the theorem on it gives the amount that is enough.
--
-- The start is the composition that main makes: New, NewDriver, Validate and Run, which makes the servers
-- of the role. Run and main take the calls that come in while Serve runs as a list: each reaches its
-- handler if the service is registered, an error goes to the client, and a panic ends the process, as gRPC
-- documents it for an interceptor that does not recover. In a run of a server, the world (files, storages)
-- may change by itself between two requests.
--
-- Not modelled: log lines, and what is computed for them only; the parsing of the command line; the
-- set-up of the logger and of the gRPC server; what the libraries do beyond the record `External`.
pub mod Common
pub mod Arrays
pub mod Role
pub mod VolumeId
pub mod Errors
pub mod External
pub mod Config
pub mod Process
pub mod Controller
pub mod Node
pub mod Identity
pub mod Serve
pub mod Driver
pub mod Command
pub mod Tests
