-- ===== src/Lib.antt =====
-- fiberio: blocking-style TCP sockets for Boost.Fiber on libuv's event loop, and the search page of
-- its generated documentation.
--
-- The library (src/*.cpp, include/fiberio/*.hpp) lets many fibers of one thread use sockets as if each
-- call blocked. A fiber that waits is put aside; the scheduler runs libuv's loop while no fiber is
-- ready, and callbacks make fibers ready again.
--   Errors            src/utils.cpp, include/fiberio/exceptions.hpp: check_uv_status, the exceptions
--   Scheduler         src/scheduler.cpp: the ready queue, the flags under the mutex, the timer
--   Scheduler.Suspend suspend_until, notify from any thread and the event loop, step by step; Progress
--                     counts the steps of its own thread
--   SocketImpl        src/socket_impl.cpp: read, write, close; each function runs to the next wait
--   SocketImpl.System any number of fibers on one socket, and libuv's callbacks
--   SocketImpl.Session  what a socket promises its fibers; System.Refines relates the two
--   SocketImpl.System.Ended  what is left of a socket after its close
--   SocketImpl.System.Thrown  the exceptions that come out of read, write and close
--   SocketImpl.Call   a whole call of read against what libuv answers, as a Reader; Writing has one of
--                     write and of close, and ImplementsDuplex puts both directions together
--   Connect           src/addrinfo.cpp and socket_impl::connect
--   ServerSocketImpl  src/server_socket_impl.cpp: bind, listen, accept, on_connection, close
--   ServerSocketImpl.System  the fibers that accept, the callbacks and close; Drained has what is left
--                     of a listening socket after its close
--   Reader            what the users of a socket rely on from its read: its size, the end of the stream,
--                     a closed socket, and the order of the bytes
--   Duplex            what they rely on from its read and write together
--   Echo              examples/fiber_echo_server.cpp and examples/fiber_echo_client.cpp, over Duplex: the
--                     fibers of the two programs, each alone with its socket; Server and Client have how
--                     they end, and Conversation the two ends of one connection
--   Socket            src/socket.cpp: read_exactly, read_string, read_string_exactly
--   SocketDevice      include/fiberio/iostream.hpp: the device of the streams
--   Handles           src/socket.cpp: the objects that users hold, which share their implementations,
--                     and the calls that they pass on; Unique is src/server_socket.cpp, whose objects
--                     share nothing. Sockets and Servers fill the interface Impl with socket_impl and
--                     server_socket_impl, Copies has the copies of a socket, and Device closes the
--                     device of a stream whose socket has copies
--   ThreadLoop        src/loop.cpp: the loop of a thread, its handles and their end, as libuv's calls
-- Fibers are cooperative: the code between two waits is one function, its result a new state and the
-- place where the fiber stands (Pc). A step relation then takes any fiber that may go on, any new call
-- and any callback, in any order. What libuv answers, a status or a count, is an argument of the step,
-- so that every answer is covered; a callback reports no more bytes than its buffer holds.
-- In Handles an operation on a destroyed object, or a call on one that was moved from, has no meaning
-- and gives none. An implementation there is any with a close that closes it.
-- In SocketImpl.Call a fiber is alone with the socket, libuv reports at least a byte of what has come,
-- as its documentation says of data, and a buffer of no bytes is an error. A write whose callback
-- reports no error has sent all of its bytes, and one that is refused at once has sent none.
-- The buffer of a read is the caller's, of zeros beyond what libuv has put into it; what is returned is
-- as much of it as the count says.
-- notify_all wakes all fibers that sleep on the condition. Statuses and ssize_t are integers, size_t
-- and int64_t are converted with their wrap-around, and C++ exceptions are the values of Error.
--
-- The search page (docs/html/search/search.js) has a panel on each page of the documentation, and a
-- results page in a frame of it.
--   SearchId          convertToId
--   SearchResults     the class SearchResults: Search, Keys (ProcessKeys), Nav (NavNext, NavPrev,
--                     Toggle, Nav, NavChild), Tree (FindChildElement); and Create (createResults;
--                     Create.Markup has all attributes of its elements)
--   SearchBox         the class SearchBox: Geometry (getXPos, getYPos), Actions, Events; and Start
--                     (init_search and docs/html/search/searchdata.js); Histories has any events of
--                     a page, one after the other, as SearchResults.Nav.Steps has those of a results page
--   SearchData        docs/html/search/all_0.js to pages_0.js, the data of the results pages; Index has
--                     the order of the entries, Complete follows a search from the box to its matches
-- The other pages have a menu and parts that open and close.
--   Menu              docs/html/menu.js: makeTree, initMenu; Data is docs/html/menudata.js
--   Sections          docs/html/dynsections.js: toggleVisibility, toggleInherit; Directory has
--                     updateStripes, toggleLevel, toggleFolder on the rows of a table, and Tips the
--                     handler of a page that is ready
-- A text is a list of UTF-16 code units. The elements that the code reads and writes are fields of the
-- state, the browser's timers are a list, and toLowerCase, escape and unescape are parameters.
--
-- Fuel: read_exactly and the device's read take two rounds more than bytes, since each round but the
-- last two reads a byte, and the echo server's loop one more than bytes are to come, since each round
-- that goes on has read one; NavNext one more than rows, FindChildElement one more than nodes, and the
-- search for the last child one more than children, since none is looked up twice; a number is written
-- in hexadecimal or decimal with one round more than the number itself, more than it has digits. The
-- bounds are part of the proofs. The reader of menus takes as much fuel as the menu has parts.
--
-- Not modelled: fiberio.cpp, which only hands the scheduler to Boost.Fiber; the wait in close_handle;
-- the texts of the filter menu; what the jQuery plugins smartmenus and powerTip do; jquery.js, a
-- library; examples/fiber_benchmarks.cpp and tests, which measure and try the library.
--
-- Base holds the shared lists, texts, integers and tests.
pub mod Base
pub mod SearchId
pub mod SearchResults
pub mod SearchBox
pub mod Errors
pub mod SocketImpl
pub mod Scheduler
pub mod ServerSocketImpl
pub mod Reader
pub mod Socket
pub mod SocketDevice
pub mod Duplex
pub mod Echo
pub mod Connect
pub mod Tests
pub mod Menu
pub mod Sections
pub mod SearchData
pub mod Handles
pub mod ThreadLoop
