-- ===== src/Lib.antt =====
-- ZiranOS: a kernel in Rust, a bridge in JavaScript that gives visitors of a capture-the-flag a
-- kernel each, and pages that run the kernel in a browser. The parts modelled here:
--
-- Bridge (ctf-server/bridge.mjs) admits WebSocket connections, starts one QEMU for each, and passes
-- bytes between the two until a limit, a timer or either end stops it.
--   Bridge/Config: CONFIG, int and paused. Bridge/Startup: the kernel check and the listen log.
--   Bridge/Limits: rateLimited and overHourlyBudget; Limits/Rate and Limits/Budget compare them
--     with counts over the whole history.
--   Bridge/Qemu: mintFlag, buildQemuArgs, spawnQemu, USE_SYSTEMD_RUN; Qemu/Flag is about flags.
--   Bridge/Session: the handlers of one connection (ws.on('message'), handleControl, sendCtl,
--     qemu.stdout, the two timers), each from a session to a session and a list of effects;
--     Session/Input is about what reaches the guest, Session/Submit about the control channel.
--   Bridge/Server: the shared counters (metrics, livePerIp, rateHits, spawnTimes) and the connection
--     handler: admission, verifyTurnstile, reserve, cleanup. One event is one callback of the Node
--     event loop; step handles one and run a list of them in any order. The await of verifyTurnstile
--     splits the handler into on_connect and on_verified. Server/Counts, Server/Caps and
--     Server/Overlap are about runs, Server/Cases holds lemmas on the tables.
--   Bridge/Health: the HTTP handler.
-- SHA-256, JSON.parse and the decoding of text frames are the record Host, an argument; random bytes,
-- clock readings and the state of a socket come with the events. Times and counters are natural
-- numbers; `a - b < c` is written `a < b + c`.
--
-- Loader (web/load.js) fetches the firmware package and creates its files in Emscripten's file
-- system. Calls of Module are recorded in order. Loader: DataRequest, processPackageData, runWithFS
-- and the callback of the fetch. Loader/Script: the whole script, the end of the fetch and the preRun
-- hook. Loader/Run, Loader/Order and Loader/Slices are about the calls, Loader/Progress is
-- xhr.onprogress. PACKAGE_PATH, which nothing reads, and preloadResults are left out.
--
-- Fs (src/fs.rs) is the read-only file system over the boot image. Fs/Image: reads of the image, where
-- an index out of bounds is the outcome panic. Fs/Mount: mount_inner and validate_dir, whose depth
-- counts down from MAX_DEPTH + 1, so that no fuel is chosen. Fs/Resolve: resolve, list_dir, read_path.
-- Fs/Writer: write_entry and boot_image. Fs/Checked, Fs/Mounted, Fs/Safe, Fs/Layers, Fs/Extended and
-- Fs/RoundTrip are about them. String::from_utf8_lossy is an argument. usize has 64 bits, of which only checked_add and
-- checked_mul can notice the end.
--
-- Keyboard (src/keyboard.rs): translate, handle_interrupt, and the input ring with push and pop, each
-- whole; the byte of the port is an argument. Keyboard/Ring and Keyboard/Layout are about them.
-- Keyboard/Atomic is push and pop again, as their single loads and stores, one to a step, with a
-- program counter for the producer and one for the consumer; Keyboard/Linear and Keyboard/Interleaved
-- are about any order of the steps. Memory is sequentially consistent.
--
-- Heap (src/heap.rs) is the global allocator: align_up, add_free_region, find_region, alloc_from_region,
-- alloc, dealloc, size_align and stats over a memory of words, in which the free list is threaded. The
-- walks have one round more than the heap has room for nodes. Heap/Run is what the kernel does with the
-- heap: it asks for blocks, gives them back, and writes to those that it has. Align, Owners, Chain, Find,
-- Sound, Choose, Alloc, Reclaim, Consistent, Reuse and Stats are about them. core::alloc::Layout is
-- modelled as far as it is used; the pages under the heap, which heap::init maps, are there from the
-- start.
--
-- FwCfg (src/fw_cfg.rs) is the reader of QEMU's named items: read_file and read_flag over a device that is
-- an argument, the record Ports. FwCfg/Device states what QEMU documents of it, FwCfg/Sample has one
-- that does so, FwCfg/Directory is about read_file. Tier2 puts the parts together that a flag passes:
-- the bridge's command line, fw_cfg, kernel_main (src/lib.rs) and the image that load mounts; what QEMU
-- documents of its option -fw_cfg is the record Launched.
--
-- Task (src/task.rs): spawn, yield_now and task_exit on the table, the ready queue and the current
-- task; step is one of them and run a list of steps. Task/States holds lemmas on the table, Task/Queue
-- and Task/Turns are about runs. The stacks and the switch itself (boot/switch.asm), snapshot and the
-- self tests are left out.
--
-- Shell (src/shell.rs): Shell/Path is canonicalize, Shell/Line the line editor, Shell/Base64 the decoder
-- and encoder, Shell/Disk the active image, the flag of the server mode and the end of load,
-- Shell/Commands parse, cd, ls, cat and the main loop, as one step for each byte that comes in; while
-- load reads its payload the shell is in the mode loading. Canonical, RoundTrip, Editing, Planted, Typed,
-- Accepted, Sound and Session are about them. TIER2_FLAG and String::from_utf8_lossy are arguments. The texts of help,
-- mem, ps and net and the echo are left out.
--
-- Memory is physical memory and its page tables. Memory/Multiboot (src/multiboot.rs): the walk to the
-- memory map and over its entries; memory is a function from addresses to bytes, and the fuel is the
-- size of the structure, as each round moves on by 8 bytes at least. Memory/Frames
-- (src/frame_allocator.rs): the bitmap, init, alloc and free; Memory/Bits does `1 << i` digit by digit.
-- FrameLaws, FrameLoops, FrameAlloc, FrameCount, FrameSafe and FrameInit are about it, Counting counts,
-- MapWalk is about the walk. Memory/Paging (src/paging.rs): translate_from, page_user_accessible and
-- user_range_ok over any contents of the tables, with masks written as quotients and remainders; the
-- fuel of user_range_ok is the length of the range, which has no more pages than bytes.
-- Memory/AddressSpace is build_address_space and init; IdentityMap and PagingInit are about them.
-- Memory/Mapping is map_inner, map_page, map_user_page and unmap_page, with the tables and the frame
-- allocator as state; MapSteps, MapTranslate and Unmap are about it.
-- Memory/Syscall (src/interrupts.rs): syscall and sys_write, where a read of the processor in ring 0 is
-- an argument. UserWalk, UserRange and Deputy are about them.
--
-- Vga (src/vga_buffer.rs) is the text console over the bytes of the VGA buffer: put_cell, blank_row,
-- scroll_up, new_line, backspace, write_byte, write_str and clear. Vga/Cells is about its loops, byte by
-- byte, Vga/Screen and Vga/Console compare it with an endless paper.
--
-- Net (src/net.rs) is the loopback network: bind, send, recv, close and poll on the transmit queue, the
-- table of sockets and the drop counter. Net/Delivery is about poll.
--
-- Prelude holds the lists over native numbers, maps, texts and tests that the parts share; each part
-- has a module Tests of runs on concrete inputs.
--
-- Not modelled: the exceptions in src/interrupts.rs, user mode, the device registers and the serial
-- reports of the kernel under src/, the assembly under boot/ and the embedded scripts of the pages;
-- web/libv86.js, web/out.js and web/vendor are copies or products of other projects. Log texts with no
-- decision behind them are not modelled either.
pub mod Prelude
pub mod Bridge
pub mod Loader
pub mod Fs
pub mod FwCfg
pub mod Heap
pub mod Keyboard
pub mod Task
pub mod Shell
pub mod Memory
pub mod Net
pub mod Tier2
pub mod Vga
