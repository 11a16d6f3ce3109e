-- ===== src/Lib.antt =====
-- serialusb: a USB proxy in two programs. The PC program (sw/) opens a USB device, and the firmware
-- (fw/emu.c, on an atmega32u4 with the USB stack LUFA) presents that device to a target host. The two
-- talk over a serial line, in packets of a type, a length and at most 254 bytes of value
-- (include/protocol.h).
--
-- At the start the PC sends the descriptors of the device; each acknowledgement makes it send the next
-- table: the index of the descriptors, then the endpoints. The firmware then attaches to its host and
-- answers requests for descriptors from the tables. It forwards other control requests and OUT data to
-- the PC. The PC reads the IN endpoints of the device, queues their data, and sends one IN packet at a
-- time, the next one when the firmware acknowledges the last.
--
-- The modules, and the code that they are about:
--   Common      numbers, lists, options, `int` results and byte buffers, for all the others
--   Protocol    include/protocol.h: constants, packets and tables, as bytes
--   Adapter     sw/adapter.c: `adapter_recv`, `adapter_send`, `adapter_open`. Adapter/Line is the
--               interface of the serial layer (sw/lib/gasync/include/gserial.h) that it stands on;
--               Adapter/Framing is the reference that cuts a stream into packets
--   Proxy       sw/proxy.c. Proxy/State is its static variables as one record; Proxy/Fifo the queue of
--               IN packets; Proxy/Callbacks what the lower layers call; Proxy/Dispatch
--               `process_packet`; Proxy/Descriptors the descriptor table; Proxy/Endpoints `fix_endpoints`
--               and its tables; Proxy/Delivery the IN path; Proxy/Polling the reads and
--               acknowledgements as steps of a relation; Proxy/Selection `proxy_init`; Proxy/Run
--               `proxy_start`
--   Firmware    fw/emu.c: its static variables, the serial interrupt, and the callbacks and tasks.
--               Firmware/Receive, Lookup, Control and Output are about one of them each
--   Gasync      sw/lib/gasync/src: Gasync/Poll is poll/linux/gpoll.c; Gasync/Timer, Gasync/Async and
--               Gasync/Serial are timer/linux/gtimer.c, common/linux/async.c and
--               serial/linux/gserial.c, each over an interface of the system's calls.
--               Gasync/Usb is usb/gusb.c over libusb, which is the interface of Usb/Calls:
--               Usb/Transfers the table of transfers, Usb/Events what libusb reports, Usb/Probe and
--               Usb/Walk the parser of descriptors, Usb/Reading what it reads from a device,
--               Usb/Opening and Usb/Finding the opening, closing and enumeration of devices
--   Startup     both programs together, up to the first descriptor request of the host
--
-- How state and calls are represented. A function on static variables takes and returns a record of
-- them, beside its C result; a C `int` is the type ℤ of Common/Int. A call of a lower layer is an
-- operation of the interface `Serial` for the adapter. For the proxy it is a request in a log, answered
-- by an arbitrary function of the log. What LUFA and the hardware answer is an argument. An access
-- outside an array, or a call through NULL, is the result `none`. Unsigned arithmetic of 8 and 32 bits
-- keeps its wrap-around (`% 256`, `% 2 ^ 32`); the functions that subtract on ℕ do so where the code's
-- guard keeps the result positive, or write the wrap-around out.
--
-- Loops and fuel. The sending loop of the adapter runs on fuel, one more than the bytes to send,
-- which is proved enough. The loop of gpoll runs on fuel, since it ends only when a callback asks for
-- it. The loop of `proxy_start` runs on fuel for the same reason; its theorem asks for the turns of
-- the run. The loops with a timeout of async.c run on fuel; for the one that reads, a round for each
-- byte that is asked for, for each idle round and one more is enough. The walk through the
-- descriptors of a configuration and the cancelling of transfers in gusb.c run on fuel, as many
-- rounds as there are descriptors or transfers and one; the walk need not end, since a descriptor may
-- have the length 0. The interrupts of the firmware run on fuel, one for each packet on the line; the
-- theorems give the amount. Other loops run over a list or a bounded index.
--
-- Not modelled: the USB stack LUFA and the registers of the processor; terminal dialogue, argument
-- parsing and process priority (sw/serialusb.c, sw/names.c, sw/prio.c, and `usb_select` of
-- sw/proxy.c).
pub mod Common
pub mod Protocol
pub mod Adapter
pub mod Proxy
pub mod Firmware
pub mod Gasync
pub mod Startup
