-- ===== src/Lib.antt =====
-- The controller of the CSI driver for Dell PowerStore, as functions of the calls that it makes.
--
-- The program answers CSI requests about volumes, filesystems and snapshots by calls of the REST
-- API of storage arrays. The parts that are modelled, and the files that model them:
--
-- - Base, Outcome: shared names, strings, maps and int64; values, gRPC codes, errors of the API
--   client and panics as results. The message of a gRPC status is left out.
-- - Client: the part of gopowerstore that the driver calls. An array is any function from the calls
--   made before and a request to an answer and an error (`Client.Types.Client`), so it may change
--   between two calls in any way. A handler is a function of the `World`, which holds the calls
--   made so far, the latest first; `Client.Invariants` states conditions on every call made.
-- - Cooldown: `NASCooldown` of pkg/array/array.go. Times are numbers, and the mutex of the tracker
--   makes each method one step.
-- - Nas: `GetLeastUsedActiveNAS` of the same file, with two times, at which its loops read the
--   clock.
-- - Arrays: the configured arrays, and in Arrays/Handle `ParseVolumeID` of pkg/array/array.go.
-- - Ip: `GetIPListFromString` of pkg/identifiers/identifiers.go, the regular expression as a list of
--   ways to match. Its fuel is the number of characters, and every match takes at least one.
-- - Size: the name and size checks of pkg/controller/base.go and creator.go, over wrapped int64.
-- - Controller/Delete, Publish, Unpublish, Expand, Snapshots: `DeleteVolume`,
--   `ControllerPublishVolume`, `ControllerUnpublishVolume`, `ControllerExpandVolume`,
--   `CreateSnapshot` and `DeleteSnapshot` of pkg/controller/controller.go, with publisher.go,
--   snapshotter.go and `detachVolumeFromHost` of base.go. Controller/Scsi and Nfs have the
--   publishers, and Controller/Targets the target lists of identifiers.go and
--   `addTargetsInfoToPublishContext`.
-- - Controller/Create: `CreateVolume` of controller.go with creator.go. A request becomes a plan
--   (Prepare: array, protocol, NAS server, access lists, checked size), a volume group or a metro
--   session (Grouping), and a volume: a copy, or a new one by a creator (Creators, Attributes), with
--   its service tag (ServiceTag). Guard states what every call of these stages may ask for.
-- - Controller/Lists: `ListVolumes` and `ListSnapshots`; Lists/Pages cuts a listing into pages. A
--   client that follows the tokens has fuel for one request more than there are entries, since each
--   page but the last has an entry; each of its requests has orders of its own for the arrays.
-- - Controller/Queries: `ControllerGetVolume` and `ValidateVolumeCapabilities`.
-- - Controller/Capacity: `GetCapacity` with its cache of the largest volume sizes.
-- - Interceptors: pkg/interceptors/interceptors.go. Goroutines take turns by steps: a request
--   arrives, asks for the lock of its key, tries it, and ends. `TryMutex` has what gosync documents.
--   Interceptors/Metadata has what CreateVolume's handler is given; `Sidecar` is the client of the
--   metadata sidecar.
-- - Controller/Replication: pkg/controller/replication.go. Replication/States has the
--   states and actions of a session, Policies the policy and the rule of a group, Peers
--   `CreateRemoteVolume` and `CreateStorageProtectionGroup`, and Uuid the `GetVolumeUUIDPrefix` of
--   array.go, its regular expression as one class for each character.
--
-- A stage of a handler is a definition of its own, named for what it does; the stages are composed
-- as the source runs them. A lookup in a Go map answers an option. Decimal numbers are printed with
-- fuel for 20 digits, which is enough for 64 bits.
--
-- Parameters stand for code that is not in the repository: `parse_cidr` and `ip_with_mask` for
-- `ParseCIDR` and `GetIPListWithMaskFromString`, which rest on package net; `sort_slice` for
-- sort.Slice; `GoText` for the functions of packages strings and strconv on letters and bytes, and
-- `parse_int` for strconv.ParseInt; `HostIoSizes`, `state_text`, `paused_state` and `ready_state`
-- for the constants, and `valid_rpo` for a method, of gopowerstore; `request_id_key` for a constant
-- of gocsi, and `csi_nfs_parameter` for one of csm-sharednfs. The order in which Go ranges over a
-- map is a parameter (`volume_order`, `filesystem_order`), and so are the times at which the clock
-- is read (`Times`).
--
-- Not modelled: the node service, the CSI extensions of podmon and of volume group snapshots,
-- reading the configuration, and logging.
pub mod Base
pub mod Cooldown
pub mod Outcome
pub mod Size
pub mod Ip
pub mod Client
pub mod Arrays
pub mod Nas
pub mod Controller
pub mod Tests
pub mod Interceptors
