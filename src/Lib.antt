-- ===== src/Lib.antt =====
-- The access point bridge: a process that couples an access point, reached over a serial line,
-- with a network manager, reached over TCP. Packets from the access point go to the manager, and
-- packets from the manager to the access point. This library models the parts that decide what a
-- byte or a packet becomes on the way.
--
-- HDLC (APInterface/HDLC.h, HDLC.cpp) frames packets on the serial line. Hdlc.antt has the encoder
-- (encodeHDLC, appendHDLC), the frame check sequence (computeFCS16 and the steps of it) and the
-- decoder class CHDLC: its state is the record Chdlc, addByte is add_byte, and the packet that
-- addByte hands to frameComplete is returned beside the state. Hdlc/Table.antt is the table of the
-- check sequence. Hdlc/Fcs, Reference and Residue are about the check sequence, Frames and Stream
-- about encoding and decoding, Stream/Sound about what may be delivered.
--
-- CAPCCache (APInterface/APCCache.h, APCCache.cpp) keeps the packets that the manager has not
-- acknowledged, in a ring. ApcCache.antt has the state and every method; ApcCache/Ring says when a
-- ring holds a history of packets, Add, Confirm and Replay are about addPacket, confirmedSeqNum,
-- and prepForGet with getNextPacket, and Session is about calls in any order. The counters are
-- taken modulo 2^32 and 2^64 as in the source. The ring has at most 2^31 slots, so that the sum of
-- a position and the size does not wrap; the bridge is configured with far fewer.
--
-- CAPCSerializer (APInterface/APCSerializer.h, APCSerializer.cpp) puts messages into the TCP
-- stream and cuts them out of it. ApcSerializer.antt has prepMsg, convert, fillInpBuf_p and
-- dataReceived, whose loop has a round for each byte and one to see the end as fuel: each round
-- uses up a byte. The receiver of messages (ISerRxHandler) is a parameter, a state and a function
-- on it. ApcSerializer/Framing is the specification, the stream read byte by byte; Fill, Deliver,
-- Round, Part and Stream take the buffer, the end of a message, the end of a round, a round with
-- all the bytes it wants and any round, and Calls whole calls. Convert, Undo and Roundtrip are
-- about the byte order and about prepMsg. `size_t` is 64 bits wide, and a buffer of less than 2^62
-- bytes keeps its counters from wrapping.
--
-- CAPCConnector (APInterface/APCConnector.h, APCConnector.cpp) is one TCP connection to the
-- manager; it uses the serializer in both directions. ApcConnector/State has its state and the
-- pool of two output buffers, Send has sendData, connect, stop and the timers, and Receive has
-- messageReceived and handle_read_p. Calls of the socket and the timers are events, and what
-- happens while a thread waits for a buffer is a list of wake-ups. Who is told of messages
-- (IAPCConnectorNotif) may call the connector back and is a parameter, the record Notif. Outgoing,
-- Incoming and Stop are about what is written, what is read, and the end of a connection.
--
-- CAPCCtrlNotifThread (APInterface/APCCntrlNotifThread.h, APCCntrlNotifThread.cpp) is the queue
-- through which what a connector reports reaches the client. NotifThread.antt has the calls that
-- fill it and the rounds of its thread; a round with the lock held is one step. Order is about
-- what comes out.
--
-- CAPCClient (APInterface/APCClient.h, APCClient.cpp) is the session with the manager, which
-- outlives a connection: it has the cache, opens connectors, sends the unconfirmed packets again
-- after a reconnection, and gives up after a time. ApcClient/State has the state, Send the methods
-- that send, Notices what the notification thread calls, and Control the start, the stop and the
-- timer. Calls of the connector, the timer, the service thread and the notified input are events,
-- and what such a call returns is the parameter World, by all the events before it; so a theorem
-- for every World holds whatever connectors do. The replay of the cache has as fuel the distance
-- of its two positions and two more rounds. Replay and Restore are about a restored session,
-- Invariant and Session about calls in any order, Offline about the end of a connection, and
-- Sending about sendData_p.
--
-- CAPMSerializer (APInterface/APMSerializer.h, APMSerializer.cpp) reads what the access point
-- reports. ApmSerializer.antt has handleCmd, handleGetParam, handleError and prepMsg; the call of
-- the coupler's IAPMNotifHandler is the last thing a method does and is returned beside the state.
-- Boots is about the counter of boots, and Sizes about the lengths of the structures.
--
-- CAPCoupler (APInterface/APCoupler.h, APCoupler.cpp) couples the two sides. ApCoupler/State has
-- its state, Send the commands that it puts into the queue of the transport and sendEvent_p, Clock
-- the clock source of the access point, Inputs and GpsInputs what the manager's client, the access
-- point and the GPS report, Time the times of day, Machine the state machine, and Control the
-- opening, the start and the stop. The thread of the state machine is cut at its waits: a Place
-- says where it is, and a turn takes it from there to the next, so that whatever other threads do
-- comes between the turns. In a turn the thread looks at the events, or goes on from the end of a
-- wait. ApCoupler/Session puts inputs and turns in a row. The events are bits, as in the source.
-- Calls of the transport, the client, the GPS and the watchdog are noted, and what they return is
-- the parameter World. Resets is about an access point that does not boot, Restarts about starts
-- and stops of the client, Settle about the clock source, Day about times of day, Header about the
-- header of a packet, and LateJoin about a connection that ends as it begins. Bridge.antt follows
-- a packet through the components both ways.
--
-- CAPMTransport (APInterface/APMTransport.h, APMTransport.cpp) is the transport to the access
-- point over that framing: a queue of commands, one of which is sent at a time and repeated until
-- it is answered, the acknowledgement of notifications, flow control towards the manager, pings,
-- and the join. ApmTransport/State has the state; a call of the serial port, of the notification
-- handler or of a timer is an event in it, the last one first, and the clock, the readiness of the
-- port, how far a new opening of the port gets and the byte behind a packet are fields that the
-- world sets. Send, Join and Receive have the methods, with the names of the source in lower case.
-- The command handler (IAPMCmdHandler) and the callbacks of insertMsg may call the transport back,
-- so they are a parameter, the record Handlers. Invariant, with Timeout, Join and Receive below
-- it, is about what every method keeps, Session about calls, timers and packets in any order,
-- Notification about handleNotification, Retry about the retry timer, Response about one answer
-- and Fifo about a run of them. The packet rates of handlePPSTimeout are floating point numbers
-- for display and are left out.
--
-- CGPS (APInterface/GPS.h, GPS.cpp) reads the records of gpsd and tells the coupler the status of
-- the signal. Gps.antt has the rounds of its thread, each with the answer of gpsd and the time;
-- Gps/Stable is about when the signal counts as synchronised.
--
-- CStatDelaysCalc (common/StatDelaysCalc.h, StatDelaysCalc.cpp, StatDelays.h) counts events by
-- their delay, for the connection and the serial port. StatDelaysCalc.antt has the methods under
-- their names (default_stat is the constructor, clear_stat is clear), and Counts is about what
-- they count.
--
-- ApcProto.antt has the constants of the protocol (APInterface/APCProto.h, public/APCError.h and
-- the buffer size of APCConnector.h). Prelude.antt and the files below it are the shared names:
-- tests on numbers, lists, memcpy, and the laws of exclusive or.
--
-- Not modelled: the serial port, logging, the RPC service and the start of the program, which are
-- mostly calls of boost, ZeroMQ, protobuf and the system; the formatting of text; and the time of
-- the system (NTPLeapSec.cpp), whose answers are parameters of the coupler.
pub mod Prelude
pub mod Hdlc
pub mod ApcProto
pub mod ApcCache
pub mod ApcSerializer
pub mod ApmTransport
pub mod ApcConnector
pub mod NotifThread
pub mod ApcClient
pub mod ApmSerializer
pub mod ApCoupler
pub mod Bridge
pub mod Gps
pub mod StatDelaysCalc
