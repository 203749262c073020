-- ===== src/Lib.antt =====
-- Varnish, the HTTP accelerator: core modules of the worker process varnishd and of the library
-- libvarnish, modelled from their C sources. Paths are from the repository's root.
--
-- varnishd's worker process receives requests, keeps each request's headers in an `http` table whose
-- texts lie in the request's workspace, looks the object up (where the backend sent Vary, by the
-- values of the named headers), or fetches it from one of a director's backends, whose health is
-- polled. The parts that are modelled, and their files:
--
-- Prelude: helpers. Prelude/Checked has results of code that asserts: a failed assertion ends the
--   process (lib/libvarnish/assert.c) and is the value `panic`. Prelude/Lists has C arrays as lists.
-- Ctype: the C library's character classes in the "C" locale.
-- Vct: varnish-cache/lib/libvarnish/vct.c and include/vct.h, the table of character classes.
-- Ws: varnish-cache/bin/varnishd/cache_ws.c, the workspace; WS_Alloc is `alloc`, and so on. Addresses
--   are numbers of 64 bits, sizes wrap at 32 bits as `unsigned` does.
-- Vsb: varnish-cache/lib/libvarnish/vsb.c, the string buffer. Whether malloc gives memory and what
--   vsnprintf prints are parameters. An `int` that overflows in vsb_extendsize is a `panic`.
-- Http: the header table of varnish-cache/bin/varnishd/cache_http.c and its lookup (http_findhdr,
--   http_GetHdr); Http/Headers has the table of include/http_headers.h, Http/Filter the copying of the
--   headers that an operation does not suppress (http_FilterFields) and its estimate
--   (http_EstimateWS), Http/Unset http_Unset.
-- Vary: varnish-cache/bin/varnishd/cache_vary.c: `create` is VRY_Create, over Vsb and its allocator, and
--   `vary_match` is VRY_Match, both over Http. Vary/Spec says what a Vary header lists and what string
--   stands for it.
-- Director: varnish-cache/bin/varnishd/cache_dir_round_robin.c and cache_dir_random.c (random, hash and
--   client). Health and connections are parameters; the retries are as many as the director has.
-- Health: varnish-cache/bin/varnishd/cache_backend_poll.c, a backend's polling. Health/Poke has
--   vbp_poke, Health/Window the record of the pokes and the loop of the polling thread, Health/Scan what
--   of C's string functions they use. What the network does is a parameter.
-- Critbit: varnish-cache/bin/varnishd/hash_critbit.c, the tree of objheads by the bits of their digests.
--   Critbit/Hash has the table on top of it, with the reference counts and the list of the cleaner.
-- SaintMode: vbe_Healthy of varnish-cache/bin/varnishd/cache_backend.c, and VRT_l_beresp_saintmode of
--   cache_vrt.c, which puts a trouble on the list that vbe_Healthy reads.
-- Argv: varnish-cache/lib/libvarnish/argv.c, ParseArgv; Argv/Quote has vsb_quote of
--   lib/libvarnish/vsb.c, which writes the words that ParseArgv reads.
-- HttpConn: varnish-cache/bin/varnishd/cache_httpconn.c, the receipt of a header into a reservation of
--   the workspace Ws, and the pipeline behind it.
-- Ban: varnish-cache/bin/varnishd/cache_ban.c, the list of bans, the references of the objects to them
--   and the check of an object; Ban/Match has a ban's tests, over Http, and Ban/Parse has BAN_AddTest.
--   Regular expressions are a parameter.
-- Binheap: varnish-cache/lib/libvarnish/binary_heap.c. The page's size is an argument of the
--   definitions; the theorems are for 512 elements a page, which 4096 bytes and 8-byte pointers make.
--
-- Loops are recursion on a list or on fuel, which is chosen so that the loop ends before it: VRY_Match
-- takes four bytes or more a round, and its fuel is the length of the string; VRY_Create takes a byte or
-- more a round; vsb_printf comes to its end in two rounds; binheap_trickleup goes to a smaller index each round, and
-- its fuel is the index; binheap_trickledown goes to a greater index as long as child() gives children,
-- and its fuel is the number of cells.
--
-- Not modelled: logging and statistics, locks and threads, the magic numbers in the structures, times
-- in floating point, and the parts of varnishd not named above (expiry, object lookup, storage, fetching
-- and delivery, ESI, the VCL compiler and the management process), of libvarnish the wrappers of system
-- calls. The tests of each part stand in its module Tests.
pub mod Argv
pub mod Ban
pub mod Binheap
pub mod Critbit
pub mod Ctype
pub mod Director
pub mod Health
pub mod Http
pub mod HttpConn
pub mod Prelude
pub mod SaintMode
pub mod Vary
pub mod Vct
pub mod Vsb
pub mod Ws
