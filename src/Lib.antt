-- ===== src/Lib.antt =====
-- Verification of the CAN-to-Ethernet gateway for the TMS570LC4357: four CAN buses are each bridged
-- to UDP datagrams in the cannelloni format.
--
-- The program. `main` (src/main.c) brings up the chip, the lwIP stack and four channels, and then
-- calls `run_cannelloni` for each channel for ever. A channel (src/cannelloni.c) has two queues of
-- CAN frames. Datagrams from the network come in by the lwIP callback `handle_cannelloni_frame`,
-- which puts their frames into the transmit queue; `transmit_can_frames` offers these to the CAN
-- controller by the callback `can_tx_fn`. Frames from the bus are put into the receive queue by
-- `can_rx_fn`, through `get_can_rx_frame`; `transmit_udp_frame` packs them into datagrams. On a Linux
-- host bridge/cannelloni_bridge.cpp passes frames between such datagrams and CAN interfaces.
--
-- The files.
--   Prelude            the names of the libraries, Boolean tests, lists, bits and masks, and `Exec`, the
--                      outcome of a piece of C code: a value, an access out of bounds, or no fuel.
--   Cannelloni/Frame   `struct canfd_frame`, the constants, `canfd_len` (src/cannelloni.h), and the
--                      frame arrays as a store with addresses, so that queues may share an array.
--   Cannelloni/Queue   `frames_queue_t` and `queue_init`, `queue_put`, `queue_take`, `queue_peek`.
--                      Inv has its invariant; Fifo relates it to the list of the frames in it.
--   Cannelloni/Short   frames of at most eight bytes of data, and stores of them.
--   Cannelloni/Bytes   reads and writes of byte arrays.
--   Cannelloni/Lwip    the lwIP calls as a record of operations with their documented behaviour.
--   Cannelloni/Wire    the wire format as functions on lists of bytes.
--   Cannelloni/Handle  `cannelloni_handle_t` and `init_cannelloni`.
--   Cannelloni/Receive `handle_cannelloni_frame`. Grammar reads a datagram's body as a list; Prefix,
--                      Loop and Refine relate the code's loop to it; Accept says what queueing the
--                      frames does; RoundTrip and Deliver put a whole datagram through.
--   Cannelloni/Transmit `transmit_udp_frame`: Pack is about its loop, Datagram about the function.
--   Cannelloni/Run     `transmit_can_frames`, `receive_can_frames`, `get_can_rx_frame`,
--                      `run_cannelloni`: Can, Flush and Cycle.
--   Can                src/drivers/can.c: `can_if_wait_ready`, `can_mbox_has_data`,
--                      `can_fill_rx_mbox`, `can_send`, `can_init` over a record of registers. Frames is about
--                      messages, Wait about waiting, Mailboxes about `can_init`,
--                      Overrun about lengths above eight, Bytes about bytes; Controller says what the
--                      driver relies on of a controller, Messages what its mailboxes hold.
--   Mmio               memory-mapped registers: devices, and commands that read and write registers,
--                      with the trace of the writes. Runs has their postconditions, Orders the order
--                      of the registers that they write.
--   Drivers/Spi        src/drivers/spi.c.
--   Drivers/Sja1105    src/SJA1105.c, the Ethernet switch. Config has the array of the source; Format
--                      says what the switch reads as a configuration, with tables and checksums.
--   Drivers/Mdio       src/drivers/mdio.c. Phy has the registers of a PHY and what the MDIO module does
--                      with a request; Phy/Access is about the driver on such a module.
--   Drivers/Dp8386     src/DP8386.c, the Ethernet PHY.
--   Drivers/Pinmux     src/pinmux.c and its constants in TMS570LC435/HL_pinmux.h; Lock has the lock.
--   Drivers/Vim        src/drivers/vim.c, the interrupt manager.
--   Drivers/Timer      src/drivers/timer.c.
--   Drivers/Gio        src/drivers/gio.c.
--   Drivers/System     src/HL_system.c: clocks, flash and power.
--   Port/SysArch       lwip/ports/hdk/sys_arch.c and the functions at the end of src/main.c.
--   Port/Hdkif         lwip/ports/hdk/netif/hdkif.c, the Ethernet driver: Emac is about its reset,
--                      Swizzle about the byte order, Start has the rings and the start of the
--                      hardware, Transmit the way of a packet into the ring, and Interrupts
--                      `hdkif_tx_inthandler`. Receive has `hdkif_rx_inthandler`: Gather is about its loop
--                      over a packet's descriptors, Step and Link about a round of it, Refill about the
--                      loop that gives them new buffers and Fill about a round of it, Packet about
--                      a packet when there are none; Memory and Slots say what memory they touch.
--   Main               src/main.c: `node_id` and the configuration of the channels; Receive has
--                      `on_can_receive`, with Messages about what it takes out of the
--                      mailboxes, Transmit `on_can_transmit`, Start the loop of `main` that
--                      starts the channels, Loop its endless loop, with datagrams that arrive
--                      between the rounds: Pass is about a channel's pass, Arrival about a
--                      datagram, Reachable about sequences of both.
--   Bridge             bridge/cannelloni_bridge.cpp: reading and writing at the two kinds of endpoint,
--                      and the event loop. Written is about the datagrams that it builds, Received
--                      and Reading about those that it reads, Serve about its event loop and the
--                      gateway together.
--   Tests              concrete devices, a lwIP stack, frames and nodes, and the theorems at them.
--
-- Conventions. Numbers are natural numbers with the wrap-around of their C type written out:
-- positions and frame counts wrap at 2^16, sequence numbers and queue indices at 2^32. A pointer to
-- a frame is the address of an array and an index. Callbacks are arguments.
--
-- Fuel. The loops of `transmit_udp_frame`, `transmit_can_frames` and `run_cannelloni` take frames
-- out of a queue in each round; they run on the queue's `count`, or one more, of rounds, which is
-- more than the frames that a valid queue holds. `on_can_receive` runs 64 rounds, one for each
-- mailbox from the second on and one to find the end. The busy waits of the drivers, the retries of
-- `DP8386_init` and the walks along chains of descriptors and packet buffers have no bound in the
-- code: their fuel is an argument. The bridge's loop over a datagram has a round for each byte.
-- Running out is the outcome `stuck`.
--
-- Hardware is a parameter: what it does with a write or a read is a record of operations, and what
-- a theorem relies on is a record of laws, with concrete devices in Tests. Of a CAN controller it is
-- that each transfer ends within the fuel and that a message which a mailbox gives out has at most
-- eight bytes; the theorem on `on_can_receive` has, beside this, that no message comes in while the
-- function runs.
--
-- Not modelled: lwIP and its mDNS responder, which are third-party code and parameters here; the
-- device headers but for the constants that are used; the calls of `main` that bring up the chip,
-- which are modelled one by one but not composed, and the names that it gives to mDNS; of
-- `hdkif_init` the members of `netif`, and the link statistics of the Ethernet driver, which the
-- configuration switches off; the assembler code before `main`; the bridge's set-up of sockets, its
-- discovery of gateways and its command line. Delays that count to a number do nothing. Of a
-- chained packet buffer that comes to `handle_cannelloni_frame` only the first segment is visible,
-- which is all that the code reads. Interrupts are not modelled: each function runs to its end, and
-- datagrams arrive only between two rounds of the loop of `main`.
pub mod Prelude
pub mod Cannelloni
pub mod Can
pub mod Mmio
pub mod Drivers
pub mod Port
pub mod Main
pub mod Bridge
pub mod Tests
