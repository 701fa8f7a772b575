-- ===== src/Lib.antt =====
-- The slurm-operator: its NodeSet controller and what that stands on.
--
-- The operator (slurm-operator/) runs the worker Pods of Slurm clusters on Kubernetes. Its NodeSet
-- controller creates, replaces and deletes the Pods of a NodeSet, and drains their Slurm nodes before
-- it deletes them. The modules below model the controller's decisions and the requests it makes.
-- Paths in comments are relative to slurm-operator/, and Go names are given where a definition has
-- another spelling: a function such as makePodCordon is make_pod_cordon here.
--
-- The parts, each with the file it models:
--   Prelude       names, lists, signed numbers and texts that the other modules share.
--   Batch         internal/utils/tools.go: SlowStartBatch, which runs calls in growing batches.
--   SyncSteps     internal/syncsteps/syncsteps.go: the steps of a reconcile.
--   Stores        internal/utils/durationstore and internal/utils/timestore.
--   Mathutils     internal/utils/mathutils/math.go.
--   Objects       api/v1beta1 (NodeSet, labels, annotations), internal/defaults/nodeset.go, and Pods
--                 and Nodes of Kubernetes with the fields that are used.
--   Pods          internal/utils/podutils, annotations (internal/utils/structutils/map.go), and the
--                 order and splitting of Pods (internal/controller/nodeset/utils/sort.go).
--   Names         names, ordinals and identity (internal/controller/nodeset/utils/utils.go).
--   Slurm, Api    Slurm nodes and jobs; the Kubernetes API and the Slurm client.
--   SlurmControl  internal/controller/nodeset/slurmcontrol/slurmcontrol.go, and PodInfo
--                 (internal/utils/podinfo/podinfo.go).
--   Claims        internal/controller/nodeset/podcontrol/podcontrol.go: the owner references of the
--                 claims of Pods by the retention policy, Store (reading and writing claims, and
--                 CreateNodeSetPod), Update (UpdateNodeSetPod); and of utils.go: Names and Volumes
--                 (the claims and volumes of a Pod, UpdateStorage and IsStorageMatch).
--   Conf          internal/utils/config/config.go, and slurm.conf: Snippets, Controller and Files
--                 (internal/builder/controllerbuilder/controller_config.go), Merge
--                 (internal/builder/common/common.go).
--   NodeSets      internal/controller/nodeset/nodeset_sync.go and nodeset_sync_status.go: Cordon
--                 (cordon and drain), Condemn (giving up a Pod), Ordinals (those of new Pods), Rolling
--                 (splitUpdatePods), Scale (doPodScale, doPodProcessing, syncRollingUpdate and the
--                 scaling by replicas), Daemon (podsShouldBeOnNode and syncNodeSetPods), Status
--                 (replica counters), Conditions and Publish (syncStatus), Records (pruning of Slurm
--                 node records), Taints (syncNodeTaint), Upkeep (Slurm nodes that are not registered,
--                 deadlines, topology), Steps (the steps of `sync`), Reconcile (Sync); and nodeset_history.go with
--                 internal/utils/historycontrol/historycontrol.go: History (truncateHistory,
--                 getNodeSetRevisions, CreateControllerRevision).
--   Webhooks      internal/webhook: what requests to create and update objects are admitted, of
--                 NodeSets and others here, of Controllers in Controllers; Admitted and Progress
--                 follow a NodeSet through its updates; Binding is the webhook of Pods.
--   Events        internal/controller/nodeset/eventhandler: which NodeSets an event of a Pod or a Node
--                 wakes, and in Controllers an event of a Controller or a Secret; Told is about the
--                 expectations, Controllers/Panic about the handler of Secrets.
--   Examples      concrete inputs for the modules above.
--
-- State and effects. What the controller reads and writes is outside: a run (`M` of Api) takes the
-- trace of the requests made so far and returns a result, or an error, and the longer trace. What is
-- answered is given by a `World`, whose answers may depend on everything requested before. A batch
-- takes any order of its calls as a parameter, and each call is one step in it. Times are natural
-- numbers counted from the zero time of package time.
--
-- Parameters that stand for other code: sort.Sort (`Sorter`: it permutes, and sorts by a strict weak
-- order), IsPodReady and IsPodAvailable (`PodUtil`), the parser and the printer of RFC 3339 times, the
-- scaling of a percentage, klog.KObj, NewAggregate, DeepEqual, encoding/json of a PodInfo, the expansion of host
-- lists, the taints and the history of package kubernetes, the backoff and RetryOnConflict of
-- client-go, and the order in which a map is gone through. NodeShouldRunDaemonPod,
-- newNodeSetPodOrdinal and newNodeSetPodDaemon, which build Pods from a template, are parameters too,
-- and so are the steps for the Service, the PodDisruptionBudget and the configuration of ssh.
--
-- Fuel. The loop of SlowStartBatch has count + 1 rounds, since each round takes at least one call;
-- the search for a free ordinal has one round more than there are used ordinals, since it passes over
-- used ordinals alone. The loop of CreateControllerRevision takes fuel, and has enough of it with one
-- round more than there are names taken.
--
-- Not modelled: int32 counters do not wrap (a NodeSet has far fewer Pods); logging and events. Maps
-- that are nil are empty ones: the controller writes to the annotations of Pods that it made itself,
-- which always have some. A Pod that a client reads again is written into the object that it was read
-- from: doPodProcessing passes the new Pod on to its later batch, while the steps of `sync` and what
-- follows them are given the Pods as getNodeSetPods listed them. doPodScale makes one request for the creation of a Pod with its claims, and
-- the processing of a Pod makes one for its update; what these do is in Claims. Left out are the
-- patch that a revision holds, the adoption of orphans, the other controllers and the builders
-- of objects.
pub mod Prelude
pub mod Batch
pub mod Claims
pub mod Conf
pub mod Objects
pub mod Pods
pub mod Names
pub mod Mathutils
pub mod Stores
pub mod SyncSteps
pub mod Api
pub mod Slurm
pub mod SlurmControl
pub mod NodeSets
pub mod Examples
pub mod Webhooks
pub mod Events
