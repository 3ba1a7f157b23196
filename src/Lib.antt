-- ===== src/Lib.antt =====
-- esp-hostdriver: a driver for the ESP8266 WiFi module, run on a host, in C.
--
-- The program has these parts. A user calls the functions bos_* of net/netdev.c on descriptors. Each
-- descriptor (bos/fs.c) leads to a node, and the node to a socket. A socket is given to a device, whose
-- driver esp01/esp01.c turns the calls into AT commands on a serial line (esp01/serial.c). A thread
-- reads the line: it hands messages and news of connections to callbacks of the driver, which put them
-- into the socket, and wakes the command that waits for an answer. Sockets keep a byte ring
-- (sys/ringbuf.c) or a list of datagrams (sys/list*.c, include/sys/list*.h).
--
-- The files:
-- Sys.Ringbuf: sys/ringbuf.c. `Ringbuf` is `ringbuf_t`, with a function for each of its functions.
-- Sys.List2, Sys.List1: sys/list2.c, sys/list1.c and the macros of include/sys/list2.h and list1.h, on
-- the links of elements at addresses (Sys.Links).
-- Inet: net/inet.c and include/inet.h. Libc.Decimal and Libc.Strings have the functions of the C
-- library that it and others call: atoi, printf's %d, strcmp, strncmp, strtok.
-- Host: the state that the other parts share, the structures of include/netdev.h, include/bos/fs.h,
-- include/net.h, esp01/esp01.c and esp01/serial.c at their addresses, and the commands over it.
-- Bos: bos/fs.c.
-- Net: net/netdev.c. Net.Device has devices and sockets without descriptors, Net.Calls the calls that
-- set sockets up and tear them down, Net.Transfer those that move bytes, Net.Itoa its itoa.
-- Serial: esp01/serial.c. Serial.Line takes a line apart, Serial.Reader is the thread, Serial.Command
-- the commands, Serial.Port opens and closes the line.
-- Esp: esp01/esp01.c. Esp.Driver has the operations that net/netdev.c calls, Esp.Notice the callbacks
-- of the reader, Esp.Format the formatting of commands, Esp.Init the set-up. Esp.Connect, Esp.Wire and
-- Esp.Incoming put the driver together with net/netdev.c and the reader: a connection that the program
-- makes, a message, a connection that comes in.
-- Fixdep: scripts/build/fixdep, a tool of the build that turns the dependencies which gcc found into those
-- that make needs. Fixdep.Hashtbl is hashtbl.c, Fixdep.Files util.c, Fixdep.Prereq the search for options
-- and Fixdep.Depfile the rest of fixdep.c.
-- Opt: main/opt.c.
-- Main: main/main.c, its loops as their rounds; Main.Threads has the rounds of its threads in any order.
-- Program: all of it together, the calls of a program in any order (`Call`, `perform`), and the states
-- that they reach from boot (`Reaches`).
-- The modules below these state and prove; those named Tests hold concrete runs, on the test data of
-- Samples.
--
-- How the code is modelled. A function that changes state is a function from the state to a run, which
-- ends with a result and a state, is a fault (undefined behaviour, such as a read through a null
-- pointer), or blocks (waits for input that never comes). fixdep is a program of its own, with a state of
-- its own (`Tool`); its runs can end with a call of exit, too. `malloc` returns addresses that were never in
-- use, and null once a budget is spent. Numbers are natural numbers, with the wrap-around of size_t,
-- uint32_t and uint16_t written out; an int result is `ret n`, or `fail` for -1. The list macros are
-- modelled in full in Sys.List1 and Sys.List2, and lists in Host are lists of addresses. A driver is a
-- table of operations (`NetdevOps`), and the callbacks of the serial line are `SerialClient`, both
-- arguments of the functions that call them. What memory holds before it is written (the address of a
-- new socket, `idx` of a new datagram, the bytes in front of the line buffer) is an argument, too.
--
-- The reader thread runs while a command waits, where the lock lets it, or when no command is under
-- way. What the device sends is the list `input` of the bytes to come; what is written to it goes to
-- `output`.
--
-- What a driver may not touch is an interface. `IsStable` (Host.Stable) says of an invariant that it
-- survives every change of the serial line, the sockets and the driver's own state; a driver whose
-- operations keep every such invariant satisfies `Respect` (Net.Sound), and the calls of net/netdev.c
-- over it keep the invariant of descriptors and nodes (`Sound`, Bos.Sound). Program.Counts fills the
-- interface with the driver of esp01/esp01.c.
--
-- Fuel. `read_until_signal` and `accept_loop` take a byte in each round, so one more than the length of
-- the input is enough. The loops over linked lists take fuel, and the theorems on them have an amount
-- that is enough as a condition. `node_destroy` has fuel 4, more than the depth of the tree of sockets.
-- `scan_words` takes an int and `dep_loop` at least a byte in each round, so the size of the file is enough
-- for the one, and one more for the other.
--
-- Not modelled: threads of main/main.c that run within the rounds of others; the terminal and the sleeps in main/main.c; the debug output; what fixdep writes to
-- stderr; scripts/build/mconf, a copy of the configuration tool of the Linux kernel. The operating
-- system is a parameter where it is called (`Os` of Serial.Port and of Fixdep.Files).
pub mod Prelude
pub mod Libc
pub mod Sys
pub mod Inet
pub mod Host
pub mod Bos
pub mod Net
pub mod Serial
pub mod Esp
pub mod Fixdep
pub mod Opt
pub mod Main
pub mod Program
pub mod Samples
