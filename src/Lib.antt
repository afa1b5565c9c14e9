-- ===== src/Lib.antt =====
-- Celery Root is a control plane for Celery. An event listener for every broker reads the events of
-- the workers, turns them into records, and sends these to the database and to the queues of the
-- metrics exporters. A reconciler inspects workers, brokers and tasks in turns and writes what it
-- finds to the same database. The task store merges the events of a task into one row. A retry reads
-- the stored relations between tasks and sends the tasks below a failed one again. A process manager
-- starts and restarts all of these. The processes reach the database by remote calls: a client sends a
-- message, and the database manager checks it, runs the handler of its operation and answers.
--
-- Files and what they model:
--   Schemas      celery_root/shared/schemas/domain.py, the records that are exchanged
--   Store        celery_root/core/db/adapters/sqlite/__init__.py. Store/Table states what is used of an
--                SQL table, and has a table in memory; Tasks has store_task_event and what it calls,
--                Tasks/Merge what they do to one row, and Final, Lifecycle, Columns and Log build on
--                it; Workers has the workers and their events, Queues the snapshots of broker queues,
--                Throughput the buckets of get_throughput, and Cleanup the method of that name
--   Retry        celery_root/core/engine/retry.py: the search (Loop, Order) and the sending (Send)
--   Metrics      celery_root/components/metrics/prometheus/exporter.py: the event handlers; Census
--                counts the followed tasks, against which Counts and Runs measure the kept counts
--   Otel         celery_root/components/metrics/opentelemetry/exporter.py: Totals sums the
--                changes that it reports, Agreement and Reports set it beside the exporter of Metrics
--   Auth         celery_root/components/web/auth.py: Settings and Config read the configuration, Gate is
--                the middleware, Provider and Groups what a provider is asked and Listed what it lists, Login the pages that sign
--                in and out. Credentials and Admission say whom the gate admits, Keys, Cleared and Visits
--                what a session holds, State and RoundTrip follow a sign-in
--   TaskList     celery_root/components/web/views/tasks.py: the rows, their order (Order says what is asked for,
--                Sorting what comes of it) and the pages
--                (Paging)
--   Redaction    celery_root/shared/redaction.py
--   Listener     celery_root/core/event_listener.py: Parse reads fields, the parent file has the
--                handlers and the emission, Queues and Routes follow runs
--   Reconciler   celery_root/core/reconciler.py: the parent file has what is read from apps, Process
--                the class and its turns
--   Supervisor   celery_root/core/process_manager.py: the class ProcessManager
--   Beat         celery_root/components/beat/db_scheduler.py: the refresh, the tick and the write-back
--                of the scheduler (Writeback)
--   Graph        celery_root/components/web/views/graphs.py: the graph that a page shows
--   Registry     celery_root/core/registry.py: the apps by name and by broker (Groups)
--   Rpc          celery_root/core/db and celery_root/shared/schemas/rpc.py: Messages has the models and
--                Query the validator of a raw query, Operations and Dispatch the operations by name and
--                their handlers (dispatch.py), Server the answer to a message (manager.py), Client the
--                attempts of a request and Client/Methods the methods (rpc_client.py), Controller what a database offers (adapters/base.py). Wire says
--                what is used of JSON and pydantic
--   Base, Value  equality, lists, dicts and texts as the code uses them, and Python's dynamic values
--
-- Conventions. A datetime is a natural number of microseconds. Floats are a type parameter.
-- A count of retries is a natural number, as Celery counts; the reader of a raw count takes the function
-- that yields it as a parameter. A dict is an association list in insertion order. What other packages and Python's library do, such as urlsplit,
-- regular expressions, JSON, str of an object, case mapping of a text, kombu, Celery's inspection and
-- its result backends, is a parameter of the definitions that use it; the one pattern of a raw query is
-- written out instead. A remote call to the database
-- that raises an error is a value of its result, and the code around it says what happens then.
-- What a message carries is only as JSON keeps it: where a theorem needs that a request or a result
-- comes back as it was, its hypothesis says so of that one.
--
-- Fuel. The breadth-first search of a retry runs on fuel. A round takes one node from the queue, to
-- which the start and at most one node for each edge of the relations are ever added, and the fuel
-- counts these; see Retry/Loop. The loop that drops the semicolons at the end of a query drops a code
-- point in each round, and has as many rounds as the query has code points. The loop that makes the
-- buckets of a throughput has a round for every microsecond of the range and two more; it moves on by a
-- bucket's width in each, so that this is enough if the width is not 0. The pages of the groups of an
-- account are as many as the provider links; the loop over them takes fuel, one for each page.
--
-- Not modelled: the web pages but for the sign-in and the list of tasks, the MCP server, the command
-- line, configuration and logging, the sockets of the remote calls, the beat controller, and of the
-- SQLite adapter the schedules, the listing of tasks, the statistics and the migrations. They are input
-- and output, or repeat what is modelled, or are left for a later extension. What a custom handler of
-- the sign-in does to the session itself is not followed. The session is saved after a page unless the
-- page raises, as the session middleware does it. The threads of the
-- connections of the database manager, with their semaphore and their lock, are not modelled: an answer
-- is one step. A request of the client is taken to have a JSON; of a response and of the details of an
-- error it is said where they have none. The branch of the redaction for sequences other than lists and
-- tuples, such as bytes, is left out.
mod Base
mod Value
pub mod Schemas
pub mod Store
pub mod Retry
pub mod Metrics
pub mod Otel
pub mod Redaction
pub mod Listener
pub mod Reconciler
pub mod Supervisor
pub mod Graph
pub mod Registry
pub mod Rpc
pub mod Beat
pub mod Auth
pub mod TaskList
