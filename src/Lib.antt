-- ===== src/Lib.antt =====
-- Istos, a framework for services on a Zenoh fabric: its core in a cubical type theory.
--
-- Istos gives Python services request handlers, streams, a work queue and agents over Zenoh. The
-- parts modelled here are those in which the framework keeps state or decides something.
--
-- Queue: src/istos/queue/store.py, the store of a work queue. A `QueueStore` holds the jobs by id
-- (`_jobs`), the four heaps `_ready`, `_delayed`, `_leases` and `_done` with entries that may be
-- stale, the open chords and the storage. Queue/Job has the records and the heap entries,
-- Queue/Disk the storage plugin, Queue/State the store with `_offer_ready`, `_mature_delayed`,
-- `_reclaim_leases`, `_write_job`, `_write_index` and `_forget`, Queue/Store the operations `add`,
-- `claim`, `ack` and `nack`, Queue/Upkeep `sweep`, `load`, `result`, `dead_letters` and `stats`,
-- Queue/Chord `chord_report`. Queue/Schedule runs a sequence of operations, each with what it
-- reads of the clock. Queue/Codec has `to_dict` and `from_dict` of a record. Each operation holds
-- the store's lock from its first access on, so a schedule is an order of whole operations.
--
-- Cron: src/istos/queue/cron.py. Cron/Calendar has what it uses of datetime, with times in minutes
-- since the start of 2000 and no last year, Cron/Field `_parse_field`, Cron/Next `CronSchedule`. A
-- set is a list, Python's `int` on a text a parameter, and an expression comes as the fields that
-- `split` gives.
--
-- Role: src/istos/queue/role.py, the replica that owns a queue's store. Role/Election has
-- `bind`, `unbind`, `_on_membership`, `_reconcile`, `_activate` and `_deactivate`, Role/Backoff
-- the random factor of `_backoff`. A replica loads the store when it becomes active. The assertion
-- of `_activate` that there is a session leaves a replica without one inactive.
--
-- Worker: src/istos/queue/worker.py, with the handlers of role.py that answer it and the calls of
-- src/istos/app/queues.py in between. Worker/Owner has `_on_enqueue`, `_on_claim`, `_on_ack`,
-- `_on_nack` and `_on_chord` on decoded parameters, Worker/Flow the workflow that a job carries,
-- Worker/Mesh the owners by prefix and the claim loops, each of which holds at most one job. An
-- event is a claim, the end of a job's body, the next call of `_advance_workflow` or of the ack, a
-- crash, a sweep, or a client's enqueue, so loops interleave between their calls. A call that
-- fails ends the turn, as the handler of exceptions does. JSON under base64 and the serializer are
-- a `Codec`, a parameter; the body of a job is any function. A restart of an owner is no event here.
--
-- Errors: src/istos/errors.py. `IstosError` and its classes, `is_retryable`, and the payload that
-- `ErrorResponse.to_dict` writes and `error_from_payload` reads. A value of Python in a payload is a
-- `Json`, with `null` for None; a TypeError of `error_from_payload` is no result.
--
-- Retry: src/istos/retry.py. `execute_with_retry` over what the function does at each attempt, which
-- asks `is_retryable` of each failure.
--
-- RateLimit: src/istos/middleware/ratelimit.py. `_evict` and `__call__` on the buckets, with the
-- `retry_after` of a refusal in whole thousandths of a second, as `round` makes it.
--
-- Middleware: src/istos/middleware/base.py. `MiddlewareStack.invoke` over any middlewares and handler, each of
-- which is what it does once it has its scope: it ends, looks up the request context of
-- src/istos/context.py, or calls the next one. Contexts are shared objects, so a scope has an address.
--
-- Ledger: src/istos/consistency/storage.py, the plugin `InMemoryStoragePlugin`, and in Ledger/Calls
-- the exactly-once path of src/istos/primitives/handler.py on it: `__call__` up to the handler
-- (`begin`), the end of `_invoke` (`record_outcome`) and the release of a failed call. Calls
-- interleave between these steps. The two clock readings of a claim are arguments.
--
-- Authz: src/istos/security/authz.py. `check_authorized` over any authorizer, which is a function of
-- the request's context, `TokenAuthorizer`, `require_roles` and `combine_authorizers`. A falsy value
-- of an authorizer is `refused`, True is `bare`, and any other value is a principal.
--
-- Approval: src/istos/agent/approval.py. Approval/Request has the requests, Approval/Storage the state
-- of `ApprovalGate`, `_write` and `load`, Approval/Gate `request`, `wait`, `_settled`, `decide`,
-- `_expire` and `pending`. `wait` is two steps, up to where it blocks and from where it is woken or
-- its time runs out; Approval/Schedule runs any sequence of these steps and of the other calls, and
-- Approval/Outcome has a whole wait with the calls before it and while it blocks.
--
-- Agent: src/istos/agent/loop.py, with the tools of src/istos/agent/tools.py and the replies of
-- src/istos/agent/model.py. Agent/Messages has the chat log, the catalogue and the events, Agent/Trim
-- `_trim_messages`, Agent/Loop `run_agent`, `_dispatch_tool` and `_run_tool`, Agent/History
-- `user_text` and `history_to_messages`, Agent/Drive `drive_channel`. The model, the tools and the
-- gate are an `Env`, functions from all that they have been asked before to their answer, so they may
-- answer in any way. A turn keeps its messages, the events that it yields, and the log of what it
-- has asked. Text that Python formats or dumps stays a `Content`, which says what it is made of.
--
-- Agent/Multi: src/istos/agent/multi.py. Agents are numbered by their place in the list of all
-- agents, so a handoff is a number. Multi/Registry has `build_registry`, Multi/Handoff
-- `run_multi_agent`, `_with_system` and the transfer tools. A completion is logged with the number of its agent, whose model answers it. Agent/Governed puts
-- the loops on the gate: the answer to a wait is its outcome on a gate that has had any calls,
-- which `wait_at` of `Others` gives for each wait. Naming has `tool_name` of
-- src/istos/discovery/naming.py.
--
-- Channel: `ChannelSession` of src/istos/primitives/channel.py and `SessionStore` of
-- src/istos/primitives/session_store.py on the ledger of Ledger. A session carries its storage, the
-- items that wait in it and what its peer has got. The serializer is two functions that may fail, and
-- a call of `send` says whether the transport takes the message.
--
-- Prelude has what the parts share, Json the values of JSON, Dict the dictionaries of Python (insertion-ordered and sealed
-- behind their laws), Heap the heaps of heapq as sorted lists: entries
-- are compared whole, so the order in which they pop does not depend on the heap's layout.
--
-- How values are modelled. Times are natural numbers of clock ticks; a clock reading is an argument
-- of the operation that takes it. The numbers that Python holds in floats are exact here: jitter
-- and delays in millionths, token levels in grains with `refill / cost` for `rate / per`, a retry's
-- wait as a fraction. Rounding of floats is not modelled, but for the explicit `round`. A payload is a list of bytes, a job id a
-- number, fresh ids are arguments. The storage plugin is a dictionary with a list of faults: a fault
-- makes the next access fail, as any exception of a plugin does.
--
-- Two loops run on fuel: that of `build_registry` on the handoffs of all agents and one more, which is
-- enough since each name is registered once, and that of `next_after` on the minutes of eight years,
-- which is enough since each turn goes forward. The loops on the heaps are recursions on the heap, since each turn
-- pops an entry; the loop of a retry is a recursion on the retries left, that of an agent's turn on
-- the steps left.
--
-- Not modelled: `drive_agents`, the exponential part of `_backoff` (a float that can overflow), the
-- codec of approval requests (`to_dict`, `from_dict`), the decoding of the requests to a queue and to
-- a gate, the registry of exception handlers, JWTs, the tool catalogues that agent/tools.py builds,
-- agent/model, and the rest of src/istos: app but for `chain` and what it calls, communication, the
-- other storage plugins of consistency, di, discovery, http, messages, observability, the rest of
-- primitives, testing, routing, validation and fitness. They are calls of Zenoh, databases, web
-- frameworks and model services, or glue around those, or stand apart from the parts above.
pub mod Prelude
pub mod Dict
pub mod Heap
pub mod Json
pub mod Queue
pub mod Middleware
pub mod Worker
pub mod Role
pub mod Errors
pub mod Retry
pub mod RateLimit
pub mod Ledger
pub mod Authz
pub mod Approval
pub mod Agent
pub mod Channel
pub mod Cron
pub mod Naming
