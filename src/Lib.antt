-- ===== src/Lib.antt =====
-- The CSI driver that exports a volume of any storage class over NFS: pkg/nfsexport and
-- cmd/nfsexportplugin.
--
-- The parts and how they interact. The controller service turns a CreateVolume into a data claim in
-- the application's namespace and a volume context that names it. On a node, NodePublishVolume
-- reads that context, has a StatefulSet run the NFS server on the data claim, waits for its pod,
-- and mounts: by a bind mount if the pod's volume is mounted on the same node, and over NFS through
-- a Service if not. NodeUnpublishVolume unmounts and, once no pod uses the application's claim,
-- deletes the StatefulSet and the Service. The identity service, the driver's record and the gRPC
-- server put the services together, and the command reads the flags.
--
-- Files, and the code they model:
--   Base       tests on numbers and texts, Go's `strings` and `strconv` as far as they are called,
--              maps as lists of entries, when the order of a loop over a map does not
--              matter (Loops), and Go's maps as quotients of the orders of visiting (GoMaps)
--   Api        Objects: the Kubernetes objects with the fields that the driver reads or writes;
--              Calls: what leaves the driver; Exec: the handlers' monad; Client: the environment;
--              Rules, Makes and Takes: what a handler does, and how many calls it makes, whatever
--              the environment answers; Lands: how it ends if it meets no failure
--   Params     the constants of pkg/nfsexport/nfsexport.go
--   Controller pkg/nfsexport/controllerserver.go, and getPvById of k8utils.go. Volume has one function
--              for each RPC: create_volume (its part behind the checks is provision), delete_volume.
--              Store, Refinement, Lasting and Leaked: sequences of requests on the stored claims;
--              Shared: claims that others write too
--   Ensure     "get, and create what is not there" of CreateVolume and NodePublishVolume, as a program
--              that stops before each of its calls; Code: it is what the code does; Race: any number of
--              workers that run it on one API server, in steps; Phases, Advances, Agreement, Progress
--   Pods       pkg/nfsexport/k8utils.go: isPodRunning, waitForPodRunning, isTcpReady, getPVCByUidStr
--   Node       pkg/nfsexport/nodeserver.go: publish_volume is NodePublishVolume, composed of
--              check_publish, start_export, prepare_target and mount_volume (Publish, Mount, Export,
--              Attributes); unpublish_volume is NodeUnpublishVolume (Unpublish); volume_stats is
--              NodeGetVolumeStats (Stats); chmod_if_mismatch is of utils.go. Exports, Store, Lasting
--              and Ended: sequences of the operations on the stored StatefulSets; Composed: both
--              services; Namespace: how both read the data namespace; Able, Mounting, Attempt,
--              Recovered and Arrived: what NodePublishVolume needs to mount and to succeed
--   Locks, Endpoint, Maps, Logging  pkg/nfsexport/utils.go; log_grpc is logGRPC
--   Driver     pkg/nfsexport/nfsexport.go and identityserver.go
--   Server     pkg/nfsexport/server.go: serve as the sequence of what it does; Machine: Start, Wait,
--              serve and the goroutine of the test mode as a step relation, Stop and ForceStop
--   Service    all requests to the three services (Requests) and the methods that answer them; Roles:
--              the cluster roles of charts/templates/rbac.yaml; Granted and Panics: the calls and the
--              panics of all requests
--   Version    pkg/nfsexport/version.go
--   Main       cmd/nfsexportplugin/main.go; Run: main and handle, and Run of pkg/nfsexport/nfsexport.go;
--              Socket and Serving: when the process serves
--   Scenario   concrete environments for the tests, which stand in a module Tests of each part
--
-- State. The driver keeps none between two calls but the volume locks. Everything else is in the
-- cluster and on the node, so a handler is a function from the history of calls to an outcome (a
-- response, a gRPC status, or a panic) and a longer history. The environment `Env` answers each call
-- from the history before it and is arbitrary: other nodes, controllers and kubelets act in between.
-- Its polling loop is wait.PollImmediate of apimachinery; what its documentation says is the
-- hypothesis PollsAsDocumented, and PollsInTime for how often it checks its condition; a scenario
-- satisfies each. The authorizer of the API server is a parameter, which lets through what a rule of the
-- role covers. The set behind the locks is the interface StringSets with the laws IsLawful.
-- Where a theorem is about what the API server stores, the hypotheses IsClaimStore and
-- IsExportStore say what its documentation promises of Get, Create and Delete when nobody else
-- writes these objects, and IsSharedStore what is left of it when others create and change claims
-- at any time; the tests have a store that fulfils each.
--
-- Handlers that run at the same time are other answers of the environment, but for Ensure, where each
-- call of each worker is a step.
--
-- There is no fuel: all loops run over lists. Go's maps are lists of entries in the order in which the
-- loop visits them. Permissions are natural numbers; a mode keeps its 32 bits as `% 2 ^ 32`.
--
-- Not modelled: klog, but for the lines of the interceptor logGRPC; grpc itself; the
-- exporter images, and the deployment files but for the cluster roles.
pub mod Base
pub mod Api
pub mod Params
pub mod Controller
pub mod Pods
pub mod Node
pub mod Locks
pub mod Endpoint
pub mod Maps
pub mod Ensure
pub mod Logging
pub mod Driver
pub mod Server
pub mod Service
pub mod Version
pub mod Main
pub mod Scenario
