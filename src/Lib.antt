-- ===== src/Lib.antt =====
-- livezure: a media service and its clients, which talk in requests over connections of their own
-- protocol. These modules model the C code of the folders rpcprovider (the protocol), common
-- (timers, reference counts, a buffer between two threads), service (the sessions and devices that
-- the service keeps, the handlers of requests, the texts for the database), client (the calls that
-- a program makes) and utils/hashkey.c, and prove what the code does, its faults included.
--
-- A request travels as a stream of entries, each with its size, of the form `key: value`:
-- rpc_keypair_append builds it on rpc_buffer_append, rpc_io_nodify_fd and the replies queue it on a
-- connection, a thread sends what is queued, the receiver collects the bytes in a ring,
-- rpc_parser_new makes a list of keys and values of them, and rpc_dispatch_processor calls the
-- handler for its category. The handlers take their session from the list of those online, which a
-- timer cleans of those that no longer show up, ask the database by the functions of db_account.c,
-- and act on the list of devices, each with its number of users. A call of the client builds such a
-- request, waits for its answer and makes a status of the `rid` in it.
--
-- Modules, each with its definitions in the file named, its theorems in the folder of the same
-- name, and runs and concrete instances in Tests:
--   Prelude           lists, memory, C texts and Boolean tests that the others share
--   Rpc/Ring          rpcprovider/rpc_ringbuffer.c: new, can_read, can_write, read, write
--   Rpc/Buffer        rpcprovider/rpc_buffer.c: new, clone, append, next, rewind, get_size
--   Rpc/Crypt         rpcprovider/rpc_crypt.c, and encrypt and decrypt of rpc_buffer.c, with AES and
--                     TEA as parameters
--   Rpc/Keypair       rpcprovider/rpc_keypair.c: append, next
--   Rpc/Parser        rpcprovider/rpc_parser.c: new, add, count, index, get; and in Pack the calls of
--                     rpc_keypair_append that build the body of a request
--   Rpc/Queue         rpcprovider/rpc_queue.c: new, push, get, stop, destroy
--   Rpc/Dispatch      rpcprovider/rpc_dispatch.c: add_cb, del_cb, processor
--   Rpc/Io            rpcprovider/rpc_io.c: find, add, nodify_fd, stop, del, all, and the loop of the
--                     thread that sends (serve, serve_all)
--   Rpc/Shell         rpcprovider/rpc_shell.h, rpc_io_make_shell and rpc_io_enqueue of rpc_io.c: Header
--                     and Received are about enqueue, Made and Sealed about what it gets from
--                     make_shell; the layout of the header is a parameter
--   Rpc/Process       rpc_io_processor of rpcprovider/rpc_io.c
--   Rpc/Request       rpcprovider/rpc_request.c: Reach, Late and Race prove
--   Rpc/ThreadPool    rpcprovider/rpc_threadpool.c: the threads and their queue as a step relation
--   Common/Pref       common/pref.c: the calls as steps of threads
--   Common/RollBuf    common/rollbuf_pool.c: create, push, get, finish, stop; Bytes and Fifo
--                     prove
--   Common/Timer      common/timer.c: my_timer_sub, synchronize, step, create, del; Due and Schedule
--                     prove
--   Service/Session   service/service_session.c, with req_heartbeat of
--                     service/service_req_platform.c and req_account_logout of
--                     service/service_req_account.c; and in Service/Session/Accounts the handler
--                     req_account_login and online_session_try_get_admin, _try_get_child
--                     (Borrow and Leak: references that are given back, and that are not; Reach:
--                     calls one after the other; TwoLogins: two at once; Waiting: calls that wait)
--   Service/Database  service/db/db_account.c and db_exec of db_util.c: Users (licences, who is a
--                     user), Accounts, Devices, Admins, Schema; Injection and Failures prove
--   Service/Handlers  service/service_req_*.c: Account, Devices, Lists, Play, Platform (the version
--                     check and the login). Policies and AdminPolicies describe the handlers without
--                     references, Commands and MayChange use them, PlayLeak is about Play
--   Service/Api       service/service_api.c: the registration of the handlers
--   Service/Device    service/service_device.c: ref_work, dref, touch, count
--   Service/DayHours  service/record/day_hours_set.c
--   DbProvider/Sqlite dbprovider/db_provider_sqlite.c: the query and the rows fetched of it
--   Utils/HashKey     utils/hashkey.c: gen_hash_key
--   Client            client/media_api_account.c, _device.c, _platform.c and _play.c: Account, Devices,
--                     Platform, Play and Lists. Service composes them with Rpc and
--                     Service/Handlers, and Wire the parts of Rpc; Transparent, Welcome and Nulls
--                     prove
-- A C function rpc_x_name, online_session_name, session_device_name, pref_name, timer_name or
-- day_hours_name is `name` in its module, db_account_name too; a handler keeps its name. Where it
-- is long, its branches and loops have definitions of their own, each with the lines it models.
--
-- Memory is a list of bytes, a pointer into it an offset. An access outside its object, a store
-- through a pointer to nothing and an assertion that fails end a run with a `Fault`: the code is
-- built with its assertions. `malloc` is a parameter that returns any bytes of the length asked
-- for; that it can return NULL, which the code does not test, is left out. Sizes and capacities are
-- below 2^31, so sums of them are exact; a size that is read from a stream is any 32-bit pattern,
-- and arithmetic on it wraps. Entries of a linked list have addresses where the code compares
-- pointers. A function that holds a mutex from start to end is one step; between the steps anything
-- may happen that the step relations and the `wait` parameters allow. The list of sessions and that
-- of the callbacks have no mutex: their step relations run one call behind the other, and
-- Service/Session/TwoLogins and Rpc/Request/Race show what can happen otherwise. Calls that only log are left
-- out, and so is the assertion of online_session_ref on the pointer that it is about to set, which
-- its callers have not initialised.
--
-- The database is a state of any type, with what the engine answers to a text (`Provider`): a query
-- does not change it. A text of the program is `bytes` of a literal, and `%s` and `%d` put in what
-- they print; a text that is too long for its buffer is a fault. A handler returns the pairs of its
-- reply. What a request of the client does on its way, from rpc_request_new to rpc_request_ok, is a
-- `Link` over a state of any type; Client/Service makes one of the service, whose threads take the
-- requests one after the other, with the body of Rpc/Parser/Pack sent and parsed. Where the code
-- asserts false before it replies, the handler faults. The pointer to a session is the address of
-- its node.
--
-- rpc_parser_get gives memcmp the length of the text that is looked for, which can be more than the
-- key of an item has. `get_in_bounds` of Rpc/Parser faults there; `get`, which the handlers and the
-- client use here, takes memcmp to stop at the first difference, as they rely on. A category, a char
-- in the code, is below 128. The time between two steps of the timers is what the clock measured;
-- the callbacks take none.
--
-- Fuel: `write` of a ring calls itself once at most, and has fuel for two calls. The loop over the
-- entries of a stream takes one round more than there are entries. Emptying a queue takes one call
-- more than it holds bodies. rpc_io_enqueue takes a round for each request and one more, and a
-- query one for each row and one more.
--
-- Not modelled: negative body sizes, waiting for a worker of the pool, rpc_service.c on libuv and
-- the thread of rpc_client.c that receives, a signal on a connection that was deleted (it is passed
-- over), the other engines behind dbprovider, db_provider.c that
-- forwards to one, error texts and the frees of db_account.c, connecting to the service and the
-- callbacks on libuv of the client (media_api.c, media_event_cb.c, media_bootstrap.c), the
-- callbacks of the roll buffer pool, and the user interface; and code of other projects (3rdparty,
-- common/xmalloc, most of utils).
pub mod Client
pub mod Common
pub mod DbProvider
pub mod Prelude
pub mod Rpc
pub mod Service
pub mod Utils
