-- ===== src/Lib.antt =====
-- The hardware crypto server of Trusty on the NXP i.MX6UL and i.MX7D (app/hwcrypto): a model of the
-- server, translated from its C files, with theorems about it.
--
-- The server is one process without threads. main.c starts the CAAM driver and the two services, and
-- then waits for events, which it hands to the handler that the event's cookie points to. The random
-- number service (hwrng_srv.c) queues the requests of its clients and answers them with bytes that
-- caam.c takes from the CAAM. The key service (hwkey_srv.c) answers requests for a key slot, by a handler
-- of the slot's provider (hwkey_srv_provider.c), and requests for derived keys, by HKDF.
--
-- Which file models which part:
--   Common     numbers, lists, bits of a word, and the memory of the program by address
--   Imx6ul     platform/imx/soc/imx6ul/include/imx-regs.h
--   Platform   what is not in the repository, as one interface: the system calls of Trusty, the
--              registers, the list library, HKDF, and the constants of included headers. Each
--              operation takes the state of the outside world and returns the next one
--   Machine    the static variables, the buffers, the contexts by their address, and the record of the
--              calls that were made; a command ends with a result, by an assert or abort, by the use of
--              a context that is not allocated (a fault), or in a wait that does not end (a hang).
--              Machine/Outcome says what a command ensures: it excludes a fault always, and the other
--              two where it is strict. Machine/Sent reads the messages off the record of the calls
--   Tipc       the message helpers of app/hwcrypto/main.c; Tipc/Receive proves the receipt of a message in
--              two parts, Tipc/Whole that of one of exactly one length
--   Caam       app/hwcrypto/caam.c with caam.h and fsl_caam_internal.h: Regs (constants), Ring (clock, job
--              ring, run_job), Jobs (blobs, AES, SHA-1, root key), Rng (caam_hwrng), SelfTest (the self
--              tests), Init (caam_open and init_caam_env). Device names what the driver relies on in the
--              hardware; Frame says what is left alone; Protocol, Results, Operations, Fill, Descriptors,
--              Silent, Ready, Open and SelfTest/Buffers are the proofs
--   Hwkey      Provider (app/hwcrypto/hwkey_srv_provider.c), Slots and Server (app/hwcrypto/hwkey_srv.c);
--              Lookup, Clean, Sanitize, Messages, Silent, Replies, Exchange (a message and its
--              answer), Channels, Derive and KeyBox are the proofs
--   Hwrng      Server (app/hwcrypto/hwrng_srv.c and hwrng_srv_provider.c); Links names what is relied on
--              in the list library; Fate and Serve (one request), Queue (a pass over the queue),
--              Contexts and Channels (an event of a channel), Ports (a new channel), Asked and Requests
--              (what a message adds to a request), Rounds and Progress (passes that empty the queue),
--              Accounts, Reply and Totals (what a client is sent by them), Shares and Fair (what one
--              pass does for every client), Owed, Delivery (a request from its message to its last byte)
--              and Resume (a client whose channel has room again) are the proofs
--   Main       the dispatch of events, the event loop and the start, of app/hwcrypto/main.c. RandomSide
--              and KeySide say what the handlers of one service leave alone of the other, Invariant puts
--              both together over an event, Loop over the states that the server reaches, Start and
--              Program over the start
--   Dump       the hex dump of app/hwcrypto/main.c, which stands in app/hwcrypto/hwrng_srv.c once more
--   Kernel     platform/imx: Soc (what is taken from outside, as an interface, and the addresses of
--              platform/imx/soc), Exec (the state of the kernel's code and its effects), Uart
--              (platform/imx/drivers/imx_uart.c and platform/imx/debug.c), Tzasc (platform/imx/tzasc.c, tzasc.h
--              and tzasc_regions.h), Boot (platform/imx/platform.c and secondary_init.c of the i.MX7D). The
--              kernel and the server share no state
--   Examples   a concrete platform that keeps all the laws, and runs of the theorems on it
--
-- Functions keep their C names. A block inside a C function that has a name of its own here (submit_job,
-- start_job and collect_job of run_job, serve_request of hwrng_handle_req_queue, hwkey_dispatch of
-- hwkey_chan_handle_msg) is composed with the others in the order of the source. A buffer is an address;
-- a result through a pointer is part of the returned value. Words are of 32 bits, as on both SoCs, and
-- their wrap-around is written out.
--
-- Bounds: a wait on a register is followed for as many reads as the platform names (poll_rounds), and
-- hangs beyond them; the laws of the device say that a job is done within them. The loop of caam_hwrng
-- has len + 1 rounds, which is enough because each round that goes on fills at least a byte; that of
-- _hexdump8 has len + 1 rounds, enough unless its count of 32 bits wraps. The event
-- loop, which does not end in the source, is followed for a number of events. The waits of the console
-- driver are followed for wait_rounds reads.
--
-- Laws of the outside are named hypotheses: DeviceLaws and WithinBuffer (Caam/Device) of the CAAM and the
-- DMA calls, ListLaws (Hwrng/Links) of the list library, ReqLenFits (Hwrng/Channels) of the length in
-- a request, IpcLaws (Tipc/Receive) of get_msg and read_msg, SendsSucceed (Hwrng/Rounds) of room for
-- messages, Transmits (Kernel/Uart/Transmit) of the console, MappedApart and ErrorLaws (Main/Program) of
-- mmap and the error codes. KeyLayout (Hwkey/Clean), BoxLayout (Hwkey/KeyBox), StackLayout
-- (Caam/SelfTest/Buffers), ServerLayout (Main/Invariant) and StartLayout (Main/Start) say where buffers
-- lie, and laws in Platform speak of HKDF, of error codes, and of how many bytes a job of each format
-- stores at its output address (job_stores), be they within the range that was prepared or past it.
--
-- Not modelled: the log, which changes no state of the server and is recorded for the self tests only;
-- the assembly and the build files. The bytes that the CAAM computes are the platform's: the theorems
-- say which job it is given and where its output goes.
pub mod Common
pub mod Imx6ul
pub mod Platform
pub mod Machine
pub mod Tipc
pub mod Caam
pub mod Hwkey
pub mod Hwrng
pub mod Main
pub mod Dump
pub mod Kernel
pub mod Examples
