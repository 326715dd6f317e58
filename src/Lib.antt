-- ===== src/Lib.antt =====
-- The agentic application framework (core/crates), a workspace of Rust crates that runs intents of
-- agents over a graph of nodes. An intent (aaf-contracts) is checked by the policy engine
-- (aaf-policy) at five hooks while the graph executor (aaf-runtime) runs the nodes of its plan,
-- charges its budget, records every step and rolls back on failure. Sagas (aaf-saga) run longer
-- flows with declared recoveries. Circuit breakers and the degradation of capabilities
-- (aaf-registry) decide what may be called, and the trust registry (aaf-trust) raises and lowers
-- the autonomy of an agent from the events that are observed. Capabilities are registered, found by
-- the words of a goal and composed into a plan by the planner (aaf-planner), which caches its plans.
-- At the edge stand proposals of changes (aaf-surface), revocations (aaf-identity), the entities of
-- the domain (aaf-ontology), the calls of models (aaf-llm), the translation of entities for a
-- service (aaf-sidecar) and the agreements with other cells (aaf-federation).
--
-- Files:
--   Base       shared helpers: Boolean tests, lists, association lists for HashMap, trim
--   Float      f64 and f32 as a record of operations; a theorem that needs a law takes it as a hypothesis
--   Contracts  core/crates/aaf-contracts: Task (TaskState, Task::transition), Intent
--              (IntentEnvelope::validate, ::delegate), Trust, Policy, Capability
--   Registry   core/crates/aaf-registry: CircuitBreaker (BreakerInner), Breakers
--              (CircuitBreakerRegistry), Degradation (DegradationStateMachine), Store (Registry, over
--              the store in memory of core/crates/aaf-storage), Discovery (Registry::discover),
--              Registration (RegistrationPipeline), Version (compare, HealthMonitor)
--   Saga       core/crates/aaf-saga: Definition, Recovery (decide), Executor (SagaExecutor::run)
--   Trust      core/crates/aaf-trust: Score, Autonomy, Promotion, Delegation, Registry
--   Policy     core/crates/aaf-policy: Context, Rules (the seven default rules), Engine,
--              Approval (ApprovalWorkflow), Scope (effective_scopes; Matching: what a scope covers)
--   Runtime    core/crates/aaf-runtime: Graph (Graph::validate, GraphBuilder), Budget (BudgetTracker), Node (Node, CompensationChain),
--              Executor (GraphExecutor::run)
--   Planner    core/crates/aaf-planner: Plan (ExecutionPlan, BoundedAutonomy, Router), Cache (PlanCache),
--              FastPath (FastPathRuleSet), Composition (EntityAwareComposition), TopoSort (topo_sort),
--              Planning (RegistryPlanner::plan; Chosen: the capabilities it takes)
--   Surface    core/crates/aaf-surface: ActionProposal and ProposalLifecycle
--   Identity   core/crates/aaf-identity: InMemoryRevocationRegistry
--   Ontology   core/crates/aaf-ontology: Entity, InMemoryOntologyRegistry, LineageStore
--   Llm        core/crates/aaf-llm: LearnedRoutingPolicy, calculate_cost, CallBudget
--   Sidecar    core/crates/aaf-sidecar: AclRegistry, FieldRenamingTranslator
--   Federation core/crates/aaf-federation: FederationAgreement, Router
--   Tests      sample data, and the theorems at concrete inputs
--
-- State and effects: `&mut self` and the locks become a state that goes in and comes out. Clocks are
-- arguments, in milliseconds. Closures and trait objects (the saga's runner and compensator, the
-- nodes, the recorder, the revocation registry) are functions of a world that they change. Fresh
-- identifiers are arguments. HashMap is an association list, of which only lookups are observed.
-- A Result is a data type of the model or an Option of its error.
--
-- Numbers: u32 and u64 are natural numbers with the wrap-around or the saturation of the code
-- written out. The depth of an intent is at most 5. Kahn's loop over the queue of a graph runs on
-- fuel, the number of nodes: each of its rounds visits another node. The depth-first search
-- of topo_sort runs on fuel, one more than the number of capabilities: each call that goes deeper
-- marks another one. Every other loop is structural in the list that the code walks.
--
-- The saga executor's `expect("known")` is a result of its own, `panic`. The graph executor is
-- written as handlers that take the rest of the loop as their last argument, so that an early
-- `return` is a handler that does not call it.
--
-- Not modelled: the other crates; in these crates the loaders of YAML, the messages of violations,
-- the verification of signed tokens, the scheduler and the timeouts. Regular expressions, JSON values,
-- signatures, SHA-256 and the lower case of a text are parameters.
pub mod Base
pub mod Float
pub mod Contracts
pub mod Registry
pub mod Saga
pub mod Trust
pub mod Policy
pub mod Runtime
pub mod Planner
pub mod Surface
pub mod Identity
pub mod Ontology
pub mod Llm
pub mod Sidecar
pub mod Federation
pub mod Tests
