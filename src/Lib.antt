-- ===== src/Lib.antt =====
-- The controller that takes Karpenter's node pools and nodes out of an availability zone while a
-- zonal autoshift moves traffic away from it, and puts them back at the end.
--
-- The program's parts. SQS delivers the zonal shift events that EventBridge routes
-- (event_rule_stack.py); the pod that leads polls the queue and handles each event in a goroutine
-- (app/main.go). The start of a shift patches the node pools so that they no longer use the impaired
-- zone, or copies auto mode's own pools, and annotates and cordons the nodes of the zone, or taints
-- them; the end of a shift undoes this. Which nodes are in a zone is known from a store
-- (app/pkg/models/node.go) that a controller keeps up to date by the events of NodeClaims
-- (app/pkg/controller/controller.go). The nodes of a zone are worked on in concurrent batches
-- (app/pkg/utils/batch.go).
--
-- The files, and the code that each models:
--   Base: what the modules share; Go's maps are association lists (Base/Dict).
--   Store: `NodeStore` of app/pkg/models/node.go, a map from names to nodes, with its methods as
--     functions on the store. Store/Validity: the invariant. Store/Queries: the queries by zone.
--     Store/Abstract: the store as a map from names to zones.
--   Claims: `processNodeClaim` and `initializeStore` of app/pkg/controller/controller.go.
--     Claims/Tracking: sequences of events. Claims/Agreement: the event and the listing compared.
--     Claims/Listing: the listing with its failures, and with events in between.
--   Client: app/pkg/client, what it makes of the claims that it reads, and `CreateClientset`.
--   Batch: how `BatchProcessor` of app/pkg/utils/batch.go cuts its items, and a run of the batches
--     one after the other, in an order that is a parameter. Batch/Pool: its goroutines as a step
--     relation, for every interleaving and any time of cancellation. Batch/Partition, Batch/Bounds and
--     Batch/Progress: the proofs.
--   Nodes: the methods of the controller that annotate, cordon and taint nodes. Nodes/Api: the
--     API for nodes that they use. Nodes/Visits, Nodes/Protection, Nodes/Taints, Nodes/Shift,
--     Nodes/Partial and Nodes/Frame: the proofs. Nodes/Cluster: an API that is a map. Nodes/Calls: the
--     goroutines of the batches, one call to the API at a time, with the proofs in Nodes/Calls/Locality,
--     Nodes/Calls/Interleaving and Nodes/Calls/Completion.
--   Event and Zones: the events, and `getZoneNameFromZoneId`, `getUpdatedZones` and the loops of
--     `initializeZoneMapping` and `getEKSClusterZones` of app/main.go. Zones/Updated: the proofs.
--   Process: code that may end the process, as actions on the globals and the world. Process/Logic:
--     proofs about it.
--   Discovery: `getEKSClusterVPCId`, `getEKSClusterZones` and `initializeZoneMapping` of app/main.go,
--     with the AWS SDK as a parameter. Discovery/Outcome, Discovery/Cache, Discovery/Subnets
--     and Discovery/Loading: the proofs.
--   Startup: `main` of app/main.go up to the leader election. Startup/Steps, Startup/Ready,
--     Startup/Serving and
--     Startup/Elected: its outcome.
--   Pools: what app/main.go reads of the node pools, and its requests. Pools/Api: the API that serves
--     them. Pools/Unread: settings that the code's struct leaves out and its patches replace.
--   Update: `updateKarpenterNodePool`, `CreateNodePool` and `listInstalledCRDs` of app/main.go.
--     Update/Pool: the effect on one pool. Update/Pools and Update/Auto: that on all, in the two modes.
--     Update/Copies: auto mode's copies. Update/Requests, Update/Loop and Update/Partial: what
--     requests that fail leave. Update/Frame: what no request for a pool touches.
--   Restore: `restoreKarpenterNodePool` of app/main.go. Restore/Pools and Restore/Auto: its
--     effect in the two modes. Restore/Requirements and Restore/Roundtrip: what is left after both.
--     Restore/Partial: what requests that fail leave. Restore/Frame: what no request for a pool
--     touches.
--   Shift: which zones the requirements permit (Shift/Operators), several events in a row
--     (Shift/Evacuation, Shift/Repeated, Shift/Overlap, Shift/Auto, Shift/Doubled, Shift/Lost,
--     Shift/Unread), and both events through the handler, nodes and pools together
--     (Shift/Handled and Shift/Whole).
--   Handler: `handleEvent` and one round of `pollSQS` of app/main.go, and the event rule.
--   Leader: the leader flag and the loop of `pollSQS` as a step relation, in which the flag may change
--     between any two messages and before each deletion. Leader/Bounds: the proof.
--   Lifecycle: the start of the program, the events of NodeClaims and the events of a shift, one after
--     the other.
--   Tests: a cluster for which the assumptions hold, and runs at concrete inputs.
--
-- The state is passed on explicitly: an operation takes the state of the cluster, of any type, and
-- returns the new one. The Kubernetes API, the AWS SDK, the parsing of flags and of JSON, and the
-- unstructured objects of apimachinery are parameters; what is assumed of them is documented
-- behaviour and stands in Nodes/Api, Pools/Api, Pools/Unread, for the operators of requirements in
-- Shift/Operators, and, for AWS and the flags, in Discovery and Startup, with a separate assumption
-- for the case that no request fails. Logging has no effect on the state and is left out. All loops run over lists, so that they end by their
-- structure; the attempts to fill the store are counted by the `Steps` of the backoff. The numbers
-- that occur are lengths, far below the bounds of Go's integers.
--
-- Not modelled: the election itself, which is client-go's; the constructors of the clients and of the
-- informer, which only call client-go; the settings of the client's rate and of the log; the CDK
-- stacks; and handlers of two events whose requests interleave.
pub mod Base
pub mod Store
pub mod Batch
pub mod Nodes
pub mod Event
pub mod Zones
pub mod Pools
pub mod Update
pub mod Restore
pub mod Shift
pub mod Process
pub mod Discovery
pub mod Startup
pub mod Handler
pub mod Leader
pub mod Claims
pub mod Client
pub mod Lifecycle
pub mod Tests
