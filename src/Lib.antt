-- ===== src/Lib.antt =====
-- A model of the game server's core: the quad tree of cells and its registry, the entities of a cell,
-- the players of a cell server, the handoff of players and NPCs from one cell to another, and the
-- policy and the workflows that decide when a cell is split and when cells are merged.
--
-- The parts, and the files that model them:
--   * Cell: the messages that describe cells (gen/cellv1/cell.pb.go).
--   * Partition: bounds, quadrants, cell ids and the checks before a merge
--     (internal/partition/split.go: Mid, SplitFour, Quadrant, Contains, ParseCellPathID,
--     ChildIDForQuadrant, IsDescendantPath, ChildSpecsForSplit, CatalogMergeChildren,
--     ValidateMergeChildren).
--   * Registry: the in-memory registry (internal/registry/memory.go) and the lookups over a listed
--     catalog (internal/discovery/catalog.go). It uses Partition's `contains`.
--   * Ecs: the components, the world and its systems (internal/ecs: world.go, query.go, movement.go,
--     health_regen.go, collision.go, trigger.go, loop.go), and in Ecs/Aoi the grid over positions
--     (internal/ecs/aoi/grid.go).
--   * CellSvc: the player side of a cell's gRPC server (internal/grpc/cellsvc: server.go, input.go):
--     Join, Leave, ApplyInput, Prepare, Accept and Finalize of a player handoff, and in CellSvc/Admin
--     Update, PlanSplit and ListMigrationCandidates. It changes the world of Ecs and uses Partition.
--   * Forward: the registry's ForwardPlayerHandoff (internal/grpc/registrysvc/forward_player.go),
--     which calls Prepare and Finalize on one cell server and Accept on another.
--   * MergeLock: the registry's guard against two merges of one parent at a time
--     (internal/grpc/registrysvc/server.go).
--   * Snapshot: the persisted form of a cell (internal/cellsim/snapshot/snapshot.go). CellSvc/Npc uses
--     it in the payloads of Update that export and import NPCs.
--   * RegistrySvc: the registry's service (internal/grpc/registrysvc: server.go, forward_cell.go): the
--     calls on the catalog, ForwardCellUpdate and ForwardNpcHandoff; RegistrySvc/Merge is
--     ForwardMergeHandoff (forward_merge.go), which uses Partition, MergeLock and the payloads of
--     CellSvc/Npc.
--   * Grid: the grid manager's load policy (cmd/grid-manager: cell_thresholds.go,
--     cell_load_policy.go), the starts and retries of its workflows (split_workflow.go,
--     merge_workflow.go), in Grid/Probes the checks of a split, and in
--     Grid/MergeChecks those of a merge. The policy asks for the workflows by effects.
--   * Tests: examples.
--   * Prelude: what the parts share: tests, lists, texts, int32, results, maps and float64.
--
-- How the code is read. A Go function that changes an object is a function from the old state to the
-- new one; a function of the code that returns a value and an error returns a Result, or an Option
-- where it returns a value and a bool; an error text is a constructor, and a text that is
-- formatted from values is a constructor with the values. A map is a list of keys and
-- values, and the order of its iteration is the order of that list, about which the theorems assume
-- nothing. A string is its list of code points, and TrimSpace drops the six ASCII spaces and the
-- Unicode ones of the code's library. A handler that holds its locks in several sections is made of
-- one function for each section; the handlers are composed as if nothing ran between their sections,
-- except where a theorem says otherwise. A clock reading is an argument. A call of another process is a
-- parameter: RegistrySvc passes on the list of the calls so far, on which every answer may depend, and
-- Grid/Policy returns the calls as effects.
--
-- Numbers: entity ids and ticks are natural numbers, and the increment of an id wraps at 2^64;
-- levels are integers that wrap at 32 bits; float64 is a parameter, Prelude/Float, and so is what
-- its conversion to int gives, which Go leaves open for a number out of range; the int of a loop in
-- Ecs/Aoi wraps at 64 bits, and the loop up to the greatest int, which never ends in Go, is
-- excluded by a hypothesis; the laws of float64 are hypotheses of the theorems that use them. All
-- loops are structural recursions, so there is no fuel.
--
-- Not modelled: the gateway, the databases, NATS and Consul, the cell controller, the command line
-- tools and the indexers; of the cell server, Ping and SubscribeDeltas; replication; of the grid
-- manager, the reading of its environment, the loop that pings the cells, and the order of the
-- calls within one attempt of a workflow. The JSON form of a persisted cell is a parameter, since the protobuf library
-- prints it. Logging, tracing, metrics and published events change no state that the code reads.
pub mod Prelude
pub mod Cell
pub mod Partition
pub mod Registry
pub mod Ecs
pub mod CellSvc
pub mod Grid
pub mod RegistrySvc
pub mod Snapshot
pub mod Forward
pub mod MergeLock
pub mod Tests
