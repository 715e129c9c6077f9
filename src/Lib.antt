-- ===== src/Lib.antt =====
-- The reliable USB and serial protocol of the arm: a host sends requests and gets each answered or
-- told of a timeout, a device runs each request once, and both speak through one byte stream.
--
-- The parts, from the bottom up, and the files that model them:
--
--   include/IdRingBuffer.hpp    IdRing       the ids seen last (test_and_insert, clear), and the key
--                                            of a command id and a transaction id
--   include/ISRRingBuffer.hpp   IsrRing      the bytes between the interrupt and the protocol task
--                                            (write, read, available, clear);
--                                            IsrRing/Interleave has write and read as steps that
--                                            run at the same time
--   include/ArmCommand.hpp,     Packet       the packed structs, their enums, and the traits that
--   include/ArmStatus.hpp                    give each packet its command
--   include/ReliableSession.hpp Session      pending requests, window, retries and timeouts of a
--                                            host, duplicate requests and cached responses of a
--                                            device; Session/Device and Session/Poll are its parts,
--                                            Session/Run its operations in any order
--   include/ProtocolStack.hpp   Packet/Region  which commands are requests or telemetry, and where
--                                            a packet has its transaction id
--                               TxQueue      the transmit queue and what it drops when it is full
--                               Stack        all of it joined: sending, the handling of packets
--                                            that come in, and the cycle of the protocol task
--   include/ProtocolDispatch.hpp Dispatch    the thread-local pointers that lead a packet to a stack,
--                                            with the constructor, the destructor and
--                                            bind_to_current_thread of include/ProtocolStack.hpp
--   examples/send_serial.cpp,   Example      a host and a device: the request of the one, the handler
--   examples/receive_serial.cpp              of the other, and their loops over a line that may lose
--                                            frames (Example/Loop)
--   examples/test_arm.cpp       Example/TestArm  a host with handlers for telemetry
--
-- Prelude has the shared names and lemmas, Tests the runs at concrete inputs. Operations keep the
-- names of the functions of the source. An object is a record and a method takes and returns it; a
-- method that also returns a value returns a pair. A byte buffer is a list with the bytes that the
-- length beside the pointer counts; an array keeps its full length. Unsigned arithmetic that can wrap
-- has its wrap written out. In IdRing and IsrRing `size_t` has `w` bits and the capacity is `2 ^ k`,
-- as the static_assert of the source asks.
--
-- Parameters. Platform stands for `size_t` and for ankerl::unordered_dense::map; IsPlatform states
-- what is documented of the map, and Platform/AssocMap is a map that meets it. Rpl stands for the
-- parser and the serializer of 3rdparty/rpl: the parser lists the packets whose `after_parse` it
-- calls. App stands for what the application does in a handler or a callback, which the stack calls
-- at the places of the source and which may change the stack; a std::function is a number, and an
-- empty one is `none`. What the clock and the transport answer are arguments. The field `calls` of a
-- Stack is not in the source: it lists the handlers and callbacks that have been called.
--
-- Loops. Loops over a list are by recursion on it. The loop of `poll` over the map, the one of
-- `handle_session_outbound` and the one of `drain_rx` have a number of rounds: the entries of the
-- map, one more than the ids of the outbound queue, and the bytes in the receive ring: a round passes
-- or erases an entry, takes an id, or reads a byte. PollRun and OutboundRun are the first two without
-- a number of rounds, as relations from a state to the one in which the loop ends.
--
-- In Example/Loop a round is a cycle of the host and one of the device, and what the one sends is
-- there, if it arrives, when the other begins its next cycle; the host has the 1000 rounds of its
-- loop. The timeout of a request is the default of `send`, 200000 of the clock's nanoseconds, and the
-- programs sleep 10 milliseconds between two cycles, so a request without an answer is due in each.
--
-- Runs. Session/Run, Stack/Run, Dispatch and IsrRing/Interleave are step relations: a step is a
-- call of the session or of the stack, a construction, binding or destruction on a thread, and a
-- load, a store or a copied byte; Reach are the states after any number of them. In IsrRing/Interleave
-- WriteRun and ReadRun are the steps of one call. In Session/Run and
-- Stack/Run the transaction ids are those of next_tx_id, which a run uses before they wrap;
-- set_next_tx_id is not a step. In IsrRing/Interleave the accesses are sequentially consistent, and
-- so is m_read_idx, which the source does not make atomic. Stack handles the packets that its
-- parser lists itself; Dispatch sends them through the pointers of the thread.
--
-- Not modelled: `get_write_buffer`, which hands out memory of the parser; weaker orders of memory
-- than sequential consistency; of the examples the serial port, the sleeps of the loops, and of
-- examples/test_arm.cpp the loops of main with the ramp that it computes in floating point; and
-- 3rdparty/rpl, another project's library. The sizes in the stack's `Config` that no code reads have
-- no field.
pub mod Prelude
pub mod IdRing
pub mod Platform
pub mod Session
pub mod IsrRing
pub mod Packet
pub mod Rpl
pub mod TxQueue
pub mod Stack
pub mod Dispatch
pub mod Example
pub mod Tests
