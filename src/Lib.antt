-- ===== src/Lib.antt =====
-- The DMA core of the XDMA driver: the engines of xdma/libxdma.c, the completion threads of
-- xdma/xdma_thread.c, the device's BARs and interrupts, the character device of xdma/cdev_sgdma.c, and the transfers of tools/dma_utils.c.
--
-- A read or write of the driver becomes a request (`xdma_init_request`), which is cut into descriptors
-- of bounded length. `transfer_init` writes as many of them as there is room for into the ring of an
-- engine, as one linked chain, and makes a transfer of them. `transfer_queue` puts the transfer on the
-- engine's queue and starts an idle engine. The device works off the chain and interrupts, or writes back a
-- count of descriptors that the driver polls; `engine_service` then completes the transfers that the
-- count covers, wakes their waiters and starts the engine again. A waiter that times out stops the
-- engine and aborts its transfer. `xdma_xfer_submit` does all this for one request, transfer by transfer, and
-- `char_sgdma_read_write` calls it for a user's buffer; a channel with double buffering has two transfers
-- queued by turns, and a read copies the one that is done. In poll mode a completion thread polls for a
-- group of engines.
--
-- Files:
--   Base          shared names; numbers, lists and Booleans; 32-bit and 64-bit arithmetic and bit masks.
--   Hw            the bits of the registers and descriptors (xdma/libxdma.h).
--   Desc          `struct xdma_desc` and the functions on it; Desc/Adjacent, Desc/Fields: their proofs.
--   Engine        `struct xdma_engine` and `struct xdma_transfer`, register reads and writes.
--   Engine/Control   `engine_status_read`, `xdma_engine_stop`, `engine_start` and the like.
--   Engine/Service   `engine_service` and all that it calls.
--   Engine/Poll      `engine_service_wb_monitor` and `engine_service_poll`.
--   Engine/Submit    `transfer_queue`, `transfer_abort`, and the timeout of `xdma_xfer_submit`.
--   Engine/Device    the device's registers as the driver's writes leave them.
--   Engine/Complete, Engine/Wakes, Engine/Queued, Engine/History   what a service call does to the
--                 queue, to the waiters, and to what holds over a history of calls.
--   Request       `xdma_init_request`, `transfer_build`, `transfer_init`; Request/Segments: the cut into
--                 descriptors; Request/Program, Controls, Slots: the ring.
--   Xfer          `xdma_xfer_submit`; Xfer/Parts, Round, Loop: its loop; Xfer/Submit, Served: the call.
--   Aperture      `xdma_xfer_aperture`; Aperture/Inside, Cover: the card's window and the scatter list.
--   Sgdma/Dbuf    double buffering of xdma/cdev_sgdma.c: start, stop, read and the end of a transfer.
--   Sgdma/Buffer  `char_sgdma_map_user_buf_to_sgl`, `check_transfer_align`, `char_sgdma_read_write`.
--   Tools         `read_to_buffer` and `write_from_buffer` of tools/dma_utils.c.
--   Thread        `xdma_thread_add_work`, `xdma_thread_remove_work`, `xdma_threads_create`,
--                 `xdma_threads_destroy`, a round of `xthread_main` (Thread/Main).
--   Xdev          `struct xdma_dev` and its registers; Xdev/Offset: where they stand.
--   Xdev/Bars     `map_bars` and what it calls; Xdev/Bars/Scanned, Roles: its loop and the whole.
--   Xdev/Create   `engine_init` and what it calls, and `engine_destroy`.
--   Xdev/Probe    `probe_engines`, `remove_engines`; Xdev/Probe/Found, Scan: an engine and all engines.
--   Xdev/Isr      `xdma_isr` and the other handlers; Xdev/Isr/Dispatch: what it serves.
--   Xdev/Irq      `irq_setup`, `irq_teardown` and what they call; Xdev/Irq/Lines, Requested, SetUp, Released,
--                 Balance: the lines that are held.
--   Xdev/Open     `xdma_device_open` and `xdma_device_close`; Xdev/Open/Kept, Ready: what it ends in.
--   Xdev/User     `xdma_user_isr_register`, `xdma_user_isr_enable` and `xdma_user_isr_disable`.
--   Tests         runs at concrete inputs.
--
-- The model:
--   An engine is a record. A pointer to a transfer is a number, and `xfers` is the memory that it
--   points into; the queue `transfer_list` is a list of such pointers. `log` holds the register writes and
--   wake-ups in order, the newest first.
--   `Host` is what the driver cannot know: the module's parameters, and the word that the n-th read
--   of a register gives; `reads` counts the reads. Theorems hold for every `Host`.
--   `struct xdma_engine`'s flags are Booleans. A `u32` that the code adds to or subtracts from wraps
--   around (`add32`, `sub32`).
--   A call under the engine's lock is a function from the engine to the engine; threads and interrupts
--   interleave as sequences of such calls (Engine/History). The locks themselves are not modelled.
--   `World` is what `xdma_xfer_submit` meets: the host, and for each wait what other threads and interrupts do
--   to the engine meanwhile, which is any function that leaves alone what `desc_lock` guards.
--   Double buffering counts the blocks that the device writes; a buffer's content is the number of a block. A
--   transfer that failed is reported like one that is done, as `engine_transfer_completion` does.
--   The counts of `xdma_init_request` do not wrap around; its size in bytes is bounded where that matters.
--   A file that the tools move has a position, which seeks and calls move.
--   `Xdev` is the device. An engine's fields for creation and interrupts are in `SgEngine`, those for transfers in
--   `Engine`; `engine_service_work` has both. `DevHost` answers for registers, memory, BARs and lines.
--   Errors are results: `ok` is 0, `err e` a negative errno, `none` a NULL.
--
-- Fuel: the cut of a scatter entry has its length + 1 as fuel, enough since every descriptor takes a
-- byte from a positive length. The loop that polls the writeback runs until a round times out, and has any fuel
-- beyond that round. The loop of `xdma_xfer_submit` has the number of its pieces + 1, since every round takes up
-- one at least. The fuel of `xdma_xfer_aperture` is an argument; its rounds are the subject. The loops of
-- tools/dma_utils.c have a round for each `RW_MAX_SIZE` bytes and one more. The
-- loop over the vector registers has a round for each vector, and takes up one at least in each.
--
-- Not modelled: the wait queues and the scheduler, the PCI core and the mapping of memory for DMA,
-- prints and register dumps beyond their reads, cyclic submission, performance
-- submission, asynchronous requests beyond the call back of the last transfer, taking a device
-- offline and online, the check of the handle in
-- `xdma_xfer_submit`, the clearing of a transfer's descriptors by `transfer_destroy`, the ioctls of xdma/cdev_sgdma.c other than those of double buffering, and the other character devices.
pub mod Base
pub mod Hw
pub mod Desc
pub mod Engine
pub mod Request
pub mod Xfer
pub mod Aperture
pub mod Sgdma
pub mod Thread
pub mod Xdev
pub mod Tools
pub mod Tests
