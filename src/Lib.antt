-- ===== src/Lib.antt =====
-- Flowbroker processes device events by flows: graphs of nodes that an orchestrator runs over
-- message queues, with contexts (saved state) that a context manager guards by distributed locks.
--
-- Lock models contextManager/ZookeeperRWLock.js. Lock/Text.antt has the JavaScript comparisons
-- that the code makes on znode names, as lists of character codes, and ZooKeeper's ten digit
-- suffix; Lock/Watch.antt the two searches findNextElemToBeWatched*, over the texts;
-- Lock/System.antt the requests of any number of clients as a step relation, in which ZooKeeper
-- is a record of operations with the documented laws of sequential nodes. The steps may happen in
-- any order, and a node may vanish at any time, so the two timeouts and lost sessions are
-- covered. The children of a data znode are taken to be lock nodes only, and the sequence counter
-- to stay below 2^31.
--
-- Context models contextManager/index.js. Context/State.antt has the control map, the hold
-- timers, the granted locks and the stored contexts; Context/Handlers.antt the handlers
-- _lock_and_get, _save_and_unlock, _unlock, _timeout and the message callback, each run to its
-- answer with the answers of the lock library and of ZooKeeper as arguments. Not modelled:
-- sockets, logging, JSON text (a request arrives parsed, or as no JSON, and a field that is no
-- text bears the text that it becomes and what a buffer of it holds) and the dump command's
-- output.
--
-- Flow models the orchestrator's way from a flow that a user sends to the tasks of an event.
-- Flow/Nodes.antt has the nodes of a flow, with the fields that the code reads; Flow/Parse.antt
-- FlowManager.parse of orchestrator/flowManager.js; Flow/Store.antt the documents that create and
-- set of the same file write, without their times and with the collection's answers as arguments;
-- Flow/Ingest.antt _handleEvent, _handleFlow and _publish of orchestrator/ingestor.js and
-- calculateQueue of orchestrator/util.js, where the answers of the flow store are arguments, a
-- task is what is given to the message producer, and the message's content is left abstract but
-- for the choice between the event and its attributes. Numbers in device ids are taken to have
-- fewer than 14 hexadecimal digits, so that they are exact.
--
-- Client models lib/ContextManagerClient.js, the client of the context manager in a flow node:
-- Client/State.antt has contextMap, the response timers and the calls of resolve and reject, with
-- promises and timers as numbers; Client/Requests.antt lockAndGetContext, unlockContext, the
-- message callback and timeoutRequest; Client/Runs.antt runs of these in any order. The UUID that
-- a lock request draws is taken to be new, JSON text is a parameter that says which texts parse,
-- and the socket is the list of the requests that were sent.
--
-- Executor models hop of orchestrator/executor.js, which runs a task: Executor.antt takes the
-- messages, the table of node handlers and the JSON parsing as parameters; what a handler's
-- promise comes to in the race with the timer is a value, and so is an exception. The producer's
-- promises are not modelled, since both of their outcomes are acknowledged.
--
-- Json models the JavaScript values that nodes read and change: trees of objects, arrays and
-- primitives with whole numbers, and reading and assigning an own property. There is no sharing
-- between two places of a tree.
--
-- Nodes has the nodes' handlers. Nodes/Base.antt is _get and _set of lib/DataHandlerBase.js,
-- Nodes/CumulativeSum.antt the handler of orchestrator/nodes/cumulative-sum/cumulative-sum.js,
-- with the answers of the context handler as arguments; Nodes/Switch.antt that of switch, with
-- the engines of regular expressions and of jsonata as parameters, over Nodes/Numbers.antt, which
-- has the numbers that JavaScript makes of texts and arrays, and the texts of values in
-- comparisons; Nodes/Publish.antt those of device-out, actuate, multi-device-out and
-- multi-actuate.
--
-- Contexts models lib/ContextHandler.js: the names of contexts by layer (tenant, flow, node, node
-- instance), and its methods as calls of Client.
--
-- NodeManager models addRemoteNode, delRemoteNode and getNode of orchestrator/nodeManager.js,
-- where containers and the collection's answers are arguments.
--
-- Flow/Collection.antt is the interface of the flows' collection in MongoDB with its laws,
-- Flow/Manager.antt FlowManager's operations over it, and Api.antt the flow routes of
-- orchestrator/api.js over these: a request that was authorised, whose body parsed as JSON.
-- Api/Nodes.antt has the node routes, over NodeManager; Api/Refinement.antt the flow routes as
-- operations on a map from ids to flows, which the collection stands for.
--
-- Devices models orchestrator/DeviceCache.js and the ingestor's preprocessing. Devices/Cache.antt
-- has Redis as an interface with its laws and the operations on one device;
-- Devices/Cache/Pages.antt populate and _getAllDevices, on a fuel that bounds the number of a
-- tenant's pages, where the tenants' requests run one behind the other; Devices/Events.antt
-- preProcessEvent, the two handlers of a message by its source, and _enqueueEvent.
-- Devices/Events/Later.antt says which events leave a device's entry as it is.
--
-- Dispatcher models orchestrator/dispatcher.js, the requests to remote nodes: its operations as
-- steps that may happen in any order, with promises as numbers. A reply that is no JSON is not
-- modelled; it throws before anything is read.
--
-- Amqp models orchestrator/amqp.js: Amqp.antt the producer's fields and methods, where what the
-- code waits for (a connection, a channel, an assertion, the seconds before another try) is a
-- value, the broker's answer to it an argument, and the code between two waits one step;
-- Amqp/Worlds.antt the runs, in which waits end and connections fail in any order;
-- Amqp/Consumer.antt the consumer's methods, with one wait more, for the answer to `consume`.
-- Settings are whole numbers, or the decimal texts of them that an environment variable gives.
--
-- The further modules of Nodes model the handlers of nodes that work on the message:
-- Nodes/GetContext.antt, Nodes/Template.antt, Nodes/MergeData.antt and Nodes/Change.antt those of
-- orchestrator/nodes/get-context, template, merge-data and change; Nodes/Http.antt that of
-- orchestrator/nodes/http, of which Nodes/Http/Handler.antt makes the request and
-- Nodes/Http/Response.antt reads the response. Template engines, JSON.parse and the merge of
-- lodash are parameters, and the results are those that Executor takes. A change rule that leaves
-- an object in two places of the message ends the model, unless it is the last rule.
--
-- Lock/Requests.antt models one call of _lock of contextManager/ZookeeperRWLock.js: each callback
-- of ZooKeeper, the wait timer and the settling of the promise is an operation, and the answers
-- may come in any order. Lock/Paths.antt models contextManager/ZookeeperHelper.js, where
-- ZooKeeper is a record of its two operations with what is documented of them.
--
-- Remote models a call of a node in a container: handleMessage of
-- orchestrator/nodes/remoteNode/index.js and the answer of lib/DojotHandler.js, one behind the
-- other, where JSON passes values unchanged and turns exceptions into objects without fields.
-- Languages models pick of orchestrator/accept-language-parser.js, over the parsed header. Auth
-- models the two steps of orchestrator/auth.js that a request to the orchestrator passes; what a
-- token decodes to is a parameter.
--
-- Executor/Journeys.antt follows the tasks of a queue over any number of hops.
--
-- Nodes/Geo.antt, Nodes/Email.antt, Nodes/Notification.antt and Nodes/Cron.antt model the
-- handlers of orchestrator/nodes/geo, email, notification, publish-ftp, cron and cron-batch; what
-- the services answer, and the pattern and the geometry of geo, are parameters.
--
-- Containers models the nodes that run in containers: Containers/Bodies.antt the requests, and
-- Containers/Kubernetes.antt create and remove, of
-- orchestrator/nodes/kubernetesRemoteNode/index.js, Containers/Docker.antt create, remove, stats
-- and getStatus of orchestrator/nodes/dockerComposeRemoteNode/index.js. The API server and Docker
-- are records of the requests that the code makes, with what their documentation says of them as
-- laws. Remote.antt has the init and getLocaleData of a remote node too, whose file is a
-- parameter. NodeManager/Start.antt and NodeManager/Lists.antt model addTenant, _loadRemoteNodes,
-- asJson and asHtml of orchestrator/nodeManager.js.
--
-- Executor/Started.antt puts the ingestor and the executor together: the objects that _publish of
-- orchestrator/ingestor.js sends are the tasks that hop of orchestrator/executor.js reads.
--
-- Not modelled: connections and start-up (orchestrator/index.js, mongodb.js, redisManager.js, the
-- set-up of tenants in ingestor.js), the FTP node, which calls a library, the parsing of an
-- Accept-Language header by a regular expression, and the copy of harbor-master under
-- orchestrator/docker.
pub mod Prelude
pub mod Lock
pub mod Context
pub mod Flow
pub mod Client
pub mod Executor
pub mod Json
pub mod Nodes
pub mod NodeManager
pub mod Contexts
pub mod Api
pub mod Devices
pub mod Dispatcher
pub mod Amqp
pub mod Remote
pub mod Languages
pub mod Auth
pub mod Containers
