-- ===== src/Lib.antt =====
-- A model of RTEgetData: it reads the logging structure g_rtedbg out of an embedded system, through a
-- GDB server or a COM port, and writes it to a file.
--
-- The parts, from the wire to the program:
--   Gdb/Socket, Gdb/Message      Code/gdb_lib.cpp: gdb_send, gdb_send_ack, gdb_flush_socket, gdb_get_message,
--                                gdb_error_reported, get_core_content
--   Hex                          get_hex_digit, and the hexadecimal formats of its printf
--   Gdb/Packet, Gdb/Memory       read_memory_packet, write_memory_packet, gdb_read_memory, gdb_write_memory,
--                                gdb_send_command. The checks on a reply are `check_reply`, the exchange of a
--                                request and an answer is `transact`
--   Gdb/Memory/Answers           a server that reads the requests, for the theorems on Gdb/Memory
--   Gdb/Sizes                    calculate_max_message_sizes, parse_capability_data
--   Gdb/Session, Gdb/Console     connecting, acknowledgements, detaching; console output and commands
--   Gdb/ErrorText                gdb_get_error_text, gdb_display_errors
--   Gdb/Safety                   all operations of the client as steps of one machine
--   Gdb/Frame, Com/Frame, Bridge/Frame, App/Buffer/Frame
--                                what the transfers leave as it is (Keeps: a property that the state keeps)
--   Com/Port, Com/Protocol       Code/com_lib.cpp as it is compiled on Windows, and the commands of Code/rte_com.h
--   Com/Open                     com_open and com_close on Windows
--   Com/Linux, Com/Serial        the same functions as they are compiled on Linux, with set_serial_attributes
--   Com/ErrorText                the error texts of either system
--   Bridge, Bridge/Priority      Code/bridge.cpp: the port_* functions, over either link and on either
--                                system; the priorities of processes
--   Logger, Platform             Code/logger.cpp; Code/platform_compat.cpp
--   App/Header, App/Load         Code/rtedbg.h, and load_rtedbg_structure_header of Code/RTEgetData.cpp
--   App/Filter, App/Buffer       the message filter; the buffer on the target, and the binary file
--   App/Transfer, App/Modes      single_data_transfer; the switches of the logging mode
--   App/Display, App/Benchmark   print_filter_info and the display of the header; benchmark_data_transfer
--   App/Commands, App/Keys       command files; persistent_connection and main
--   CmdLine                      Code/cmd_line.cpp
--   Scan                         what sscanf and strtoul do with the numbers that the program reads
-- Below a part stand the modules with its theorems, named for what they prove. Prelude holds the shared
-- lists, texts, words and tests, State the types and the globals, Loop the loops with fuel, and Tests
-- concrete runs.
--
-- The globals of the program are one record, `State`, and a function of the program is an action on it:
-- from the globals to a result and new globals. RTE_OK and RTE_ERROR are `Status`. What a function stores
-- through a pointer is part of its result.
--
-- The operating system and the other side of a connection are scripts in the state: lists of the answers
-- that recv, send, ReadFile, malloc and the others give, in order. A theorem for all states is one for all
-- answers. `recv` hands out a segment in as many pieces as its callers ask for; the script that has run dry
-- is a closed connection. A read buffer holds what was read, and the bytes of an unfilled rest are not kept.
--
-- Fuel: the loops over `recv` have as many rounds as the script has answers (`answers`), and each round that
-- goes on takes one away. The loops over packets have one round more than the block has bytes, and no packet
-- that succeeds is empty. The COM loops are the same.
--
-- Addresses and sizes are 32-bit words: `add32`, `sub32` and `mul32` wrap around.
--
-- A display returns the text that it prints. A run of the persistent connection lasts as long as its script
-- of polls of the keyboard, so its result has a case for a program that still runs.
--
-- Not modelled: times and speeds, which are floating-point numbers (log_timing, time_elapsed, the report of
-- the benchmark, the frequency of the timestamps), the help texts, what the modules other than Logger write
-- to the log, and the terminal modes behind kbhit and getch.
pub mod Prelude
pub mod Hex
pub mod Logger
pub mod Platform
pub mod Scan
pub mod State
pub mod Loop
pub mod Keeps
pub mod Gdb
pub mod Com
pub mod Bridge
pub mod App
pub mod CmdLine
pub mod Tests
