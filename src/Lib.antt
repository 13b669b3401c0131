-- ===== src/Lib.antt =====
-- CloudRING: the authorization policy, the ports of infrastructure providers, their
-- inventory protocol, the registry of modules, and the transaction of a backup and restore drill.
--
-- IAM (pkg/iam). AuthorizeContext asks a verifier for evidence on the subject, resolves the subject
-- from the directory, a token or a support grant, evaluates the request, and appends an audit event
-- without which nothing is allowed.
--   Iam/Types      types.go: the directory, the requests and the decisions
--   Iam/Rules      rules.go: assurance, life cycle, roles, scopes
--   Iam/Policy     policy.go: the Policy, the checks of a proof, resolveTarget, evaluate
--   Iam/Subject    policy.go: authenticate and resolveSubject
--   Iam/AuditLog   audit.go: the sinks; Iam/Authorize: audit_event.go and AuthorizeContext
--   Iam/Permits    an order-free specification of evaluate, and the proof that evaluate meets it
--   Iam/Admission  what an allowed request implies; Iam/Audited: what the sink then holds
--   Iam/Trail      what the sink in memory holds after a history of requests
--   Iam/Roles, Iam/Denials, Iam/Owners, Iam/Coherence: the rules by themselves
--   Iam/State, Iam/Construction  state_loader.go: validatePolicyState; NewPolicyFromState
--   Iam/Loaded     what a policy so built makes sure of
-- A Go map with text keys is an association list whose first entry counts, a time is the nanoseconds
-- since the zero time, and an error is its sentinel. Each call reads the clock once. A method of a
-- sink is one step on the sink's state, which a lock makes it in the source.
--
-- The provider ports (pkg/providerports/ports.go). The domain sends requests to adapters of providers,
-- which answer with receipts that commit to the request by hashes. An adapter in memory is the
-- reference, and a suite tests any adapter against the contract.
--   Ports/Types, Ports/Requests, Ports/Receipts  the data, their validation, and the hashed texts
--   Ports/Registry     ProviderRegistry: Register, Lookup, List
--   Ports/Adapter      InMemoryAdapter: ExecuteLifecycle, InspectResource, Health, SetHealth
--   Ports/Conformance  ProviderPort as a record of methods on a state, and RunConformanceSuite
--   Ports/Steps        the sequences of calls of an adapter's methods
--   Ports/Reorder, Ports/Digests, Ports/Issuance, Ports/Registered, Ports/Replay, Ports/Isolation,
--   Ports/Honest, Ports/Identifiers, Ports/Fulfilment, Ports/SuiteRequests, Ports/Rounds,
--   Ports/Conforms: proofs
-- A method returns the adapter's state beside its result. The hex of a SHA-256 is a parameter, any
-- function of texts. The sort of parameters and of listings is an insertion sort, since their keys
-- differ. A suite reads the identity of its port once, before its first call. A port that is nil, and
-- the methods of the categories, which only call ExecuteLifecycle, are left out.
--
-- The inventory protocol (pkg/provideradapter/inventory.go). The core asks an adapter to observe
-- symbolic bindings, and the adapter answers with commitments to what it saw.
--   Inventory/Requests  the bindings, NewInventoryRequest, ValidateInventoryRequest
--   Inventory/Receipts  NewInventoryReceipt, ValidateInventoryReceipt, the commitments
--   Inventory/Coverage, Inventory/Reorder, Inventory/Sorted, Inventory/Accepts,
--   Inventory/Canonical: proofs
-- The hash of an encoded request and the hash of bytes are parameters. The decoding of documents is not
-- modelled.
--
-- The registry of modules (pkg/registry/registry.go). Validate checks a registry's modules, searches
-- their dependencies for a cycle, and checks the plan requests against the modules.
--   Modules/Types, Modules/Fields  the data, and the checks of a record's own fields
--   Modules/Dependencies           validateDependencies, with its search
--   Modules/Validate               Registry.Validate
--   Modules/Graph, Modules/Search, Modules/Cycles, Modules/Index, Modules/Acceptance,
--   Modules/Accepted: proofs
-- A check returns the first error. The search's two maps are lists, and its visits recurse on fuel, one
-- more than there are modules. path.Clean is a parameter, any function of texts; the decoding of JSON
-- is not modelled.
--
-- The drill (pkg/backup/drill). A plan is approved, and then applied: each step is asked of an adapter
-- and recorded in a journal whose entries are chained by hashes. A run that stops is recovered or
-- rolled back from the journal.
--   Drill/Types, Drill/Steps       types.go
--   Drill/Digest                   digest.go: the values that are hashed
--   Drill/Patterns, Drill/Instant  validate.go: patterns, and canonical times with their format
--   Drill/Plans, Drill/Responses   validate.go: ValidatePlan, the approval, the adapter's responses;
--                                  engine.go: the requests
--   Drill/Journal                  journal.go: validateJournalEntry, validTransition, the chain
--   Drill/Binding                  engine.go: verifyJournalBinding and the derived digests
--   Drill/Receipts                 validate.go: validateProofResponse, ValidateReceipt
--   Drill/Store                    journal.go: load, append, CreateJournal; adapter.go: invoke
--   Drill/Loop                     engine.go: runApply
--   Drill/Engine, Drill/Rollback   engine.go: Preflight, Apply, Recover, Rollback
--   Drill/Phases                   the sequences of steps that a journal can have
--   Drill/Appends, Drill/Rounds, Drill/Completion, Drill/Admitted, Drill/Preflight, Drill/Undo,
--   Drill/Undone, Drill/Repeat, Drill/Targets: proofs
-- The world is the file, the requests that the adapter has run, and how often the clock and the disk
-- were used. Every operation returns the world beside its result, so that what was done before an
-- error stays done. A check of the source that would return before a call has its call computed but
-- its world dropped.
--
-- Parameters of the drill: the hash of an encoded value, which any function may be; what the clock
-- reads; the encoded size of an entry; what the adapter's process answers, where `none` stands for a
-- failed run, output that does not decode, or output refused for secrets; and what the disk does in
-- each use, which stands for the checks of inodes and metadata around each access too: it works, is
-- refused, or for a write reports an error after the write or cuts it short. The file holds entries, so
-- that encoding an entry and decoding it is taken to return it. The lock on the journal is held for
-- a whole operation, so that operations do not interleave.
--
-- Bounds. The loop of runApply recurses on the steps ahead, of which each round takes one, so that no
-- fuel is needed. Counts that the source refuses below one are natural numbers. No sum of the model
-- wraps: a journal has at most two mebibytes, and a validity window is compared with thirty minutes.
--
-- Not modelled: the command line and HTTP, storage and Kubernetes, the pinning of the adapter's
-- executable, the search of its output for secrets, the locking and the metadata of files.
mod Prelude
pub mod Iam
pub mod Ports
pub mod Inventory
pub mod Modules
pub mod Drill
