-- ===== src/Lib.antt =====
-- Verification library of the h-mesh message transport (h-app/core) and of what stands on it (h-app/lib).
--
-- Participants of a tenant write frames to their own egress queue in Redis; the switch pops them,
-- stamps the source, counts the hop and appends them to the ingress queue of the destination, from
-- which the destination's port takes them. Redis keys are built by core/keys.py alone, and frames
-- are built, read and rewritten by core/envelope.py alone.
--
-- Base, and the modules below it: shared names, tests, lists, Python's slices, split and join,
--   ljust and rstrip, three-digit counters, strict UTF-8 and ASCII decoding.
-- Errors: the exceptions of the modelled code and results that may raise one.
-- Keys: h-app/core/keys.py. validate_segment, _validate_resource (validate_resource), prefix and
--   the named keys (Keys/Named); Keys/Segments and Keys/Totality say what validation guarantees
--   and when a key exists, Keys/Structure that a key determines its arguments.
-- Envelope: h-app/core/envelope.py. Envelope/Values has Python's dynamic values, Envelope/Checks
--   the field checks, Envelope/Header the fixed header and its splices, Envelope/Frames build,
--   encode and parse. Envelope/Names, Layout, Parsing, Splices, Rewrites, Hops and
--   Roundtrip prove.
--
-- Redis: what the code relies on of Redis, as a parameter (lists, hashes, strings, the commands on
--   them and their laws); Redis/World: the state of a computation and its faults, each command
--   meeting the next one; Redis/Keeps: what a computation leaves as it was; Redis/Memory: a Redis
--   of functions, on which the tests run.
-- Registry: h-app/core/registry.py, the reads of the tenant registry.
-- Policy: h-app/core/policy.py, the export and import tags of a pair of participants;
--   Policy/Shared proves.
-- Queues: h-app/core/queues.py, the admission script and admit_ingress; Queues/Bounds proves.
-- Switch: h-app/core/service.py. Switch/Retry has transient_redis_category and _retrying, with one
--   more recursive call for each attempt left; Switch/Forward has _dead_letter, _kick,
--   _notify_broadcast_sender, _forward and _route; Switch/Steps has step and _reconcile_ingress, and
--   Senders proves of the first who the sender of a frame is. Switch/Effects, Reads, Custody,
--   Conservation, Broadcasts and Placement prove, for faults that are honest: a command that Redis
--   answers with BUSY, LOADING, READONLY, TRYAGAIN or MASTERDOWN has not run.
-- Channels: h-app/core/channels.py. Channels itself has send and _track_unreplied, Channels/Custody
--   the lists of an agent, the transfer script (transfer) and the claim, Channels/Receive
--   _open_received (open_received), the notice to a sender and receive. Channels/Places tells the
--   six custody lists of an agent apart, Moves and Transfers say what one transfer does to them,
--   Still what send leaves alone, Progress and Claims what each step keeps,
--   Opening, Claiming and Draining follow one frame, one claim and the loops, and
--   Receiving and Outcomes the whole of receive.
-- Dispatch: h-app/core/dispatch.py, the handlers of port types, dispatch_ingress and
--   dead_letter_unroutable; Dispatch/Handlers and Drained prove. Dispatch/Lease has the lease of
--   delivery_lock: SET NX PX, the scripts of renewal and release, and a step relation of any number
--   of holders in which replies are lost and time passes; Exclusion and Runs prove.
-- Receipts: h-app/core/receipts.py, the stages, overall_state and the scan plan; Receipts/Trace has the
--   script, locate, confirmation and trace; States, Words, Located, Seen and Known prove.
-- Health: h-app/core/ingress_health.py, the state of IngressStallMonitor and its decisions;
--   Health/Passes has _head, _clear, _report and poll, and Alarms proves. Times are whole numbers.
-- Retention: h-app/core/retention.py, RetentionTrimmer; Retention/Bounds proves.
-- Correlation: h-app/lib/reply_correlation.py, record_delivered and was_delivered; between the two reads of
--   the latter the other clients do anything. Correlation/Claims proves.
-- Cooperation: h-app/lib/coop_tokens.py, grant, revoke, verify and diagnose. Cooperation/Records, Verified,
--   Revoked and Grants prove.
-- Lifecycle: h-app/lib/agentlifecycle/lifecycle.py. Lifecycle/Requests has the checks of a request,
--   Publish the three scripts that make a member, Start the writes of start_agent, Retire the script
--   that retires an agent, and Agents start_agent, stop_agent, pause_agent and resume_agent. Apart,
--   Surrender, Retired and Stops prove what a retirement leaves, Traced that receipts still find its
--   frames, Final and Rejected what a rejection leaves, and Stages, Tags, Configured, Steps, Orderly
--   and Starts the order of the writes of a start. Redis/Triples has the conditions before and after an action.
--
-- A str is a list of code points and bytes a list of numbers. Exceptions are values of Exc.
-- json.dumps and json.loads are the parameter Json, uuid4 and the clock the parameter Fresh.
-- Openers, the cjson of a script (Lua) and str() of a value (Shows) are parameters too; an opener is
-- handed the envelope and the Redis, and what the theorems ask of it is that it does not write the
-- custody lists of its agent. A blocking claim is one that returns a frame or none.
-- No command of another client comes between the commands of one computation, but for the two reads of
-- was_delivered: of receive this means that no sender pushes to the ingress list while it drains it, so
-- that what is said of it holds of the frames that were there at its start. Expiry is such a change by
-- others: that of a delivery claim (DELIVERED_TTL_SECONDS) is left to the changes around that check, which
-- may drop the claim. The values of a hash are texts, so that bytes which are no UTF-8 do not occur in the
-- tags of an agent or in the registry.
-- SHA-256, random texts, the callbacks on windows and the list of accounts are parameters as well.
-- Log records and the texts of errors are not modelled: they are observation only. The two loops of
-- receive are on fuel, which each round takes one of; more fuel than frames waiting or claimed is
-- enough. All other definitions are structural.
-- Not modelled: sleeps, process start and the main loop of the switch; the polling loop and the
-- renewal thread of delivery_lock, of which only the commands and their order are; list_tokens, which
-- only reads; the ports, the command line, the daemons and the clients that use frames, queues, keys
-- and tokens, most of which is I/O on terminals, files and the network.
pub mod Base
pub mod Errors
pub mod Keys
pub mod Envelope
pub mod Redis
pub mod Queues
pub mod Registry
pub mod Policy
pub mod Channels
pub mod Switch
pub mod Dispatch
pub mod Receipts
pub mod Health
pub mod Retention
pub mod Cooperation
pub mod Correlation
pub mod Lifecycle
