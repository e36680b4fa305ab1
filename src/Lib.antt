-- ===== src/Lib.antt =====
-- The computer-network lab programs: file transfer over unreliable channels, in C.
--
-- Most of the programs modelled send a file, or lines, in packets to a server over a channel that
-- may lose them, and wait for ACKs with a timer. One pair keeps a file of pairs of numbers, and one
-- plays a guessing game.
--
-- Practice-RDT/GBN/UDP (GoBackN): Go-Back-N over UDP. GoBackN.Packet is packet.h. GoBackN.Input is
-- what client.c does with the input file: getfilestream, inputintobuffer (input_into_buffer),
-- createPacket (create_packet) and compute; its child modules say which slice of the file a packet
-- carries. GoBackN.Client has the variables of main and the parts of its loop that both transports
-- share, and GoBackN.Udp the loop itself, where GoBackN.Udp.Budget counts the packets that a file
-- allows: fill is the inner loop, enter the way to select, handle what follows select, round one
-- pass; serve is the loop of server.c, with the state of GoBackN.Server. GoBackN.System composes
-- client and server: what arrives is anything that the other side has sent before, at any time and
-- any number of times.
--
-- Practice-RDT/GBN/TCP (GoBackN.Tcp): the same two programs over TCP, which differ in the end of
-- the loop. Both transports fill the interface GoBackN.System.Transport.
--
-- Practice-RDT/SR/UDP_selectiverepeat (SelectiveRepeat): Selective Repeat from client.c over the
-- two relays r1.c and r2.c (SelectiveRepeat.Relay) to server.c. Odd packets go by r1, even ones by
-- r2. SelectiveRepeat.Relay.Passes describes what a relay passes on.
--
-- lab6 and Lab10 (StopAndWait): stop and wait with one bit. StopAndWait.Spec is the protocol as a
-- step relation, with lossy channels that keep the order, and StopAndWait.Safety its invariant.
-- StopAndWait.Lab6 and StopAndWait.Lab10 are udp_client.c with udp_server.c and client.c with
-- server.c; their System modules have the steps of the composed programs and the view that the
-- protocol has of them. StopAndWait.Scan is read_packet of Lab10/client.c with its fscanf.
--
-- Practice - 2023 (Merge): a server that takes packets from two clients by turns and writes one
-- file. Merge is server.c and packet.h, with round for one pass of the loop and taken for the
-- packets that changed state. Merge.Client is client-2.c, whose main holds an unresolved merge: the
-- model is the side called HEAD. Merge.System composes the server with two such clients, on two
-- pairs of channels like those of StopAndWait.Spec. client-2.c itself sends to PORT2, the server's
-- socket s2; the client at the socket s has the place of client-1.c, and is taken to run the same
-- code with PORT1. Merge.Passes, Merge.Sends and Merge.Serves say what a pass does to its channel,
-- Merge.Turns what the four states are, Merge.Fields and Merge.Reads how the input file is cut into
-- fields, Merge.Output and Merge.Merged what is written, and Merge.Exchange follows one field on
-- its way.
--
-- lab5/exercise_2_key_value (KeyValue): KeyValue is server_key.c, where put, get, del and bye are
-- the four tests that a message passes through in that order, round one pass of a child's loop, and
-- run the inner loop; KeyValue.Client is client_key.c. KeyValue.Table is the file as a list of
-- pairs, KeyValue.Answer what the commands mean for it, KeyValue.Keys what they do to the value of
-- a key.
--
-- Practice - 2019/TCP_Transfer (TcpTransfer): TcpTransfer is client.c and packet.h, with the heap
-- that malloc fills and the addresses pkt and lastUnack; the scan of the file is shared with
-- GoBackN.Input where the code is the same. TcpTransfer.Server is server.c. TcpTransfer.System
-- composes the two, and TcpTransfer.Created says what holds between their passes.
--
-- lab3/guess game (GuessGame): GuessGame is server.c, where round is one game over the buffer msg,
-- which is not cleared, and GuessGame.Client is client.c. GuessGame.Answers says what an answer
-- leaves in the buffer, GuessGame.Game puts the two together.
--
-- Text models the functions of the C library that KeyValue and GuessGame use: printing and scanning
-- of %d, atoi, strtok, strcmp and fgets, on lists of character codes.
--
-- Prelude has the lists over native numbers, the results of calls, C strings and files.
--
-- A call of die or exit ends a process: the model's Result is then err, or the status finished.
-- rand, select, recvfrom, sendto, malloc and gettimeofday are not defined here: what they return is
-- an argument of the functions. A dropPacket takes the value that rand returned. Logs that the C
-- code does not keep (wire, sent, taken) list what was sent or taken, for the statements only.
--
-- Sequence numbers are natural numbers; the C code has int, and an overflow needs 2^31 packets.
-- Only Selective Repeat wraps its numbers, and does so here. Loops run on fuel: the inner loop of
-- Go-Back-N on the room of its window, that of Selective Repeat on the bytes left in the file plus
-- two, since every pass but the last reads a byte at least, and its sliding loops on six, since
-- every pass clears one of the five slots.
--
-- A recv over TCP returns one whole packet, or leaves the last one in place; TcpTransfer.System has
-- the first case only, which is that of a connection that stands. The pointer pkt of the Go-Back-N
-- servers, which the code never sets, stands for valid storage. A failing recvfrom of the Selective
-- Repeat client, whose result the code does not look at, is not among its events.
--
-- The children of the key-value server do not overlap: a child finds the file as the others have
-- left it. The status finished of a child means that bye has left its inner loop; the child does
-- not exit there, but what it does next is not modelled. Its loops over the file run on the number
-- of bytes left, since every line has one.
--
-- Not modelled: what is printed, addresses and ports, randomDelay, functions that nothing calls,
-- fork and accept, the echo and number servers of lab3, the programs of lab4, the echo programs of
-- lab5, those of 2020, client-1.c of 2023, whose HEAD side lacks the functions that it calls, and
-- the copies of Selective Repeat.
pub mod Prelude
pub mod GoBackN
pub mod SelectiveRepeat
pub mod StopAndWait
pub mod Text
pub mod KeyValue
pub mod Merge
pub mod TcpTransfer
pub mod GuessGame
