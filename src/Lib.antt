-- ===== src/Lib.antt =====
-- nmos-common: the parts of the library that talk to a Registration API, find services and decide
-- on authorisation, as definitions translated from the Python code.
--
-- The parts and their files:
--   nmoscommon/aggregator.py, class Aggregator: Aggregator.antt holds the state (the attributes
--     `aggregator`, `_registered`, `_running`, `_reg_queue`) and `send` (`_SEND`);
--     Aggregator/Mirror has `register_into` and `unregister_from`; Aggregator/Threads has
--     `process_reregister` and `heartbeat`; Aggregator/Queue has `process_queue`. The other files
--     below Aggregator/ hold proofs, and Aggregator/Reach the step relation of the whole object.
--   nmoscommon/aggregator.py, class MDNSUpdater: Updater.antt. The Aggregator holds one and calls
--     `inc_p2p_enable_count` and `disable_p2p` on it.
--   nmoscommon/mdnsbridge.py, class IppmDNSBridge: Bridge.antt, `getHref` being `get_href`.
--   nmoscommon/auth/claims_validator.py: Auth/Paths (the two regular expressions) and Auth/Claims.
--   nmoscommon/auth/auth_middleware.py: Auth/Token, Auth/Keys and Auth/Middleware; `__call__` is
--     `call`. Auth/Permits, Auth/Passes and Auth/Cached hold proofs.
--   nmoscommon/auth/nmos_auth.py, class RequiresAuth: Auth/Decorator, with `findMostRecentJWK` in
--     Auth/Newest; reading a token and finding the server are shared with the middleware's files,
--     whose code is the same. Auth/Latest, Auth/Decorated and Auth/Fallback hold proofs.
--   nmoscommon/facade.py, class Facade: Facade.antt holds the state, the IPC calls, the heartbeat
--     and `reregister_all`; Facade/Operations has the operations from `addResource` on;
--     Facade/Reports and Facade/Again hold proofs. What the facade answers is `Peer.answer`, on all
--     connections and calls made so far.
--   nmoscommon/utils.py: Versions.antt has DOWNGRADE_MAP, `api_ver_compare` and the removal of keys,
--     Versions/Translate has `translate_api_version`; the other files below Versions/ hold proofs.
--   nmoscommon/rql/query/mongodb.py: Mongo.antt, and Mongo/Conjunction for proofs.
--   nmoscommon/rql/parser.py and converters.py: Rql/Scan has `re.sub` and `re.findall` over functions
--     that find a match, Rql/Fiql `convert_from_fiql`, Rql/Read the substitutions of `parse` and
--     PARSING_REGEX, Rql/Parser the loop over the tokens, Rql/Converters `str_to_val` and the
--     converters, Rql/Dates the formats of partial dates (rql/dateutil/util.py). Rql/Print prints
--     queries as tokens, Rql/Written as text and Rql/Conditions as joined comparisons; Rql/Plain,
--     Rql/Spell, Rql/Compare, Rql/Calls, Rql/Prepared and Rql/Joined hold proofs. A query that
--     is no text is left out: parse raises on it.
--   nmoscommon/query.py, class QueryService: Query.antt, and Query/Subscribe for `subscribe_topic`;
--     the other files below Query/ hold proofs.
--   nmoscommon/mdns, unicast DNS (dnsUtils.py, dnsService.py, dnsListener.py, dnsServiceController.py):
--     Dns.antt has the requests, Dns/Record one service and its listener, Dns/Controller the services
--     of one type, their timers and what may happen to them; Dns/Replay, Dns/Tracks and Dns/Schedule
--     hold proofs.
--   nmoscommon/mdns, announcing (mdnsRegistration.py, mdnsRegistrationController.py): Mdns.antt;
--     mdnsEngine.py with its callback handler and interface controller: Mdns/Engine; Mdns/Announced
--     and Mdns/Outcomes hold proofs. An engine has one controller, whose registrations it makes.
--   nmoscommon/mdns/mdnsListener.py: Mdns/Listener, with proofs in Mdns/Counted and Mdns/Listened.
--   nmoscommon/ipc.py: Ipc.antt is class Host, `run` being `_run`, and Ipc/Proxy class Proxy, with a
--     host as the peer of its socket; Ipc/Wire has what they do with JSON values; Ipc/Replies and
--     Ipc/Calls hold proofs. A poll finds any JSON value, or a text that is none.
--   nmoscommon/webapi.py: Web.antt has responses and returns_json, Web/Errors the error handler,
--     Web/Resource obj_path_access and the resource routes, Web/Secure returns_requires_auth with the
--     default checks of a token, Web/Sock the loop of handle_sock, Web/Routes the decorators of
--     routes and add_routes, Web/Views what the rules do with a request; nmoscommon/flask_cors.py is
--     Web/Cors. Web/Leads and Web/Guarded hold proofs. A handler returns JSON data or a response,
--     or raises.
--   nmoscommon/httpserver.py: Servers/Http; nmoscommon/zmqserver.py: Servers/Zmq;
--     nmoscommon/interfaceController.py: Servers/Interfaces; nmoscommon/webSocketClient.py:
--     Servers/Socket; the other files below Servers/ hold proofs.
--   Common.antt and its children: dicts as insertion-ordered association lists, actions that change
--     a state and may raise (Exec), JSON values, tests on numbers. Tests/ has concrete runs.
--
-- What stands outside is a parameter. The network is a function from all requests made so far to the
-- reply of the last one (`World.net`), so that a server may answer with memory; the mDNS bridge of
-- an Aggregator is `World.discover` on a state of any type. `Env` and `Network` hold the answers of
-- one call's requests, `random.randint` (assumed to stay in its range), the clock and the loading of
-- keys. DNS is a `Resolver`, zeroconf a function of all calls made of it (withdrawing does not raise),
-- and a timer is a step that may happen while it is set. `fnmatch`, `jwt.decode` and the claim
-- checks of authlib are functions, and so are `unquote`, `json.loads` and `strptime` for a query.
--
-- The threads of an Aggregator are rounds of their loops, and interleave at rounds and at calls of
-- clients: a switch of greenlets inside a request is not modelled. `try_send` counts down the code's own bound
-- of three tries, `try_query` and `find_url` count down those of query.py; the loop of
-- `translate_api_version` has one round more than there are versions as fuel, which is enough for
-- DOWNGRADE_MAP. JSON numbers are naturals, times whole seconds, a port is its printed text, a
-- query string is its dict, a reply of JSON type parses, and the middleware has one API name.
--
-- The threads of a listener of multicast DNS interleave at every access to the queue, to a record or
-- to the client; reading or writing one record is one step.
--
-- Which characters beyond ASCII are word characters is a parameter of the RQL texts, and which are
-- digits and spaces to Python 3's `int` is `Unicode`. The arguments of a call over a proxy are JSON.
-- Whether a response can be sent is `Werkzeug.sends`. What a server meets in a round of its loop, and
-- what a worker's polls give, are lists: where such a list ends, the loop goes on.
--
-- Not modelled: logging, waiting and joining of threads, Flask's choice of a rule, the pages and the
-- grain helpers of webapi.py, with its media types, which nothing calls; files,
-- the node id and configuration, which are input and output around other packages.
pub mod Common
pub mod Updater
pub mod Bridge
pub mod Aggregator
pub mod Auth
pub mod Tests
pub mod Facade
pub mod Versions
pub mod Mdns
pub mod Ipc
pub mod Web
pub mod Rql
pub mod Servers
pub mod Dns
pub mod Query
pub mod Mongo
