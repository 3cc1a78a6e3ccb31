-- ===== src/Lib.antt =====
-- Verification of minervabot, an IRC bot whose commands are modules loaded at run time.
--
-- The program receives lines from a server (src/irc.c, `irc_loop`), looks the first word of a message
-- up in a tree of commands (src/modules.c), and runs the command's handler in a thread of a pool
-- (src/threadpool.c), which first looks up the level of the sender's host (src/permissions.c) in a
-- hash map (src/hashmap.c). Handlers stand in src/modules and send lines through the functions of
-- `struct core_ctx` (include/module.h).
--
-- How the code is modelled. State is a record that a function takes and returns. `Run` is the result
-- of a C function: `ok`, `fault` for undefined behaviour (an access outside an object, a null pointer,
-- an `int` out of range, a `memcpy` between ranges that overlap, a join of a detached thread),
-- `deadlock` for a wait that never ends. Arrays are lists with checked access, C strings are lists of
-- bytes without their null. Allocations that may fail are Boolean arguments. A loop is recursion on
-- its array, its text or the number of rounds left, so that no fuel is needed; the printing of a
-- number takes ten rounds, the digits of a 32-bit `int` at most. `unsigned char` and `unsigned short`
-- keep their wrap-around; `int` is `ℤ`, its values being levels and return values. `atoi`, `%d` and
-- the functions of <string.h> are written out as the C library documents them.
--
-- Which file models what:
--   Prelude: shared names, Boolean tests, lists, ℤ. Run: results. CString: memory, <string.h>.
--   Crc8, Hashmap: src/hashmap.c, the hash and the map. Crc8.Reference has the remainder bit by bit,
--     Polynomial the long division. Hashmap.Assoc has lists of pairs, Bucket and Removal one bucket,
--     Refine the map as 256 lists of pairs (`Models`), Contract and Iterate what callers count on.
--   Permissions: src/permissions.c. Search has `permissions_get`, Update `permissions_set`, Contract
--     both, Hazards the inputs for which they fail.
--   Commands: the command tree of src/modules.c. Tree has trees as maps from words to handlers,
--     Register, Unregister and Dispatch one walk each, Contract the calls together, Table the tree as
--     a table, Refine the refinement.
--   Loader: the list of modules of src/modules.c, and what threads do to it. Scan has the directory,
--     the watch and the start, Slots the array, Outcome what a load comes to, Load, Unload, Names,
--     Rescan, Start, Shutdown and Hazards the theorems.
--   Irc: src/irc.c and `net_raw` of src/net.c. Sending has what is sent, Sender `irc_parsesender`,
--     Line and Loop the two halves of `irc_loop`, Framing, Chunks, Stream and Privmsg their theorems,
--     Login `irc_login`, Codes, Nick and Welcome its theorems.
--   Web: src/modules/mod_common.c and the loop over JSON escapes. Bots has the handlers of bot_urban,
--     bot_google and bot_wolfram and the address of bot_cryptocurrency, Geoip that of bot_geoip, Json,
--     Writes, Escapes and Contract the theorems on the first, Answer, Fields and Geolocation those on
--     the last.
--   Bot: include/module.h and src/modules. Chanop, Admin, Perms, Fun and Misc have the handlers,
--     Setup the commands each module registers, Gates, Escalation, Decimal, Fullwidth and Lifecycle
--     their theorems.
--   Threadpool: src/threadpool.c. Slots has the pool as a table, Queue the queueing of any job, Command
--     the thread of a command, Faults what goes wrong.
--   Main: src/main.c. Settings has what the environment gives, Goodnight the loop from its start to the
--     end of the program.
--   Tests: the theorems at concrete inputs.
--
-- Not modelled: sockets and TLS (src/net.c), logging, the prices of
-- bot_cryptocurrency, which are floating point numbers, and the calculator of bot_math, which is
-- libleo. The dynamic linker, libcurl, jsmn, the resolver and what a server answers are arguments. Two
-- threads are modelled one after the other: what a mutex protects is one step. `modules_cmds_mutex` is
-- released by every function that takes it and is left out. A pointer into the array of modules is its
-- address, so that an array that moves leaves it dangling.
pub mod Prelude
pub mod Run
pub mod CString
pub mod Crc8
pub mod Hashmap
pub mod Permissions
pub mod Commands
pub mod Irc
pub mod Loader
pub mod Main
pub mod Web
pub mod Bot
pub mod Threadpool
pub mod Tests
