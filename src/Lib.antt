-- ===== src/Lib.antt =====
-- Astraea: congestion control for TCP by a learned policy. A client sends over a TCP connection
-- whose kernel counts round-trip times, throughput and losses. At each control interval it takes a
-- report from the kernel, sends it as JSON to an inference service (or, in training, to a
-- controller), and sets the congestion window that comes back.
--
-- The parts, at their paths below the repository's src/, and the files that model them. The types
-- and functions keep the source's names, and the comment above each says what it stands for.
-- * net/tcp_info.hh, the kernel's report and the merge of two reports: TcpInfo. The whole merge
--   is computed in the widths of the source, `% 2 ^ 32` and `% 2 ^ 64`.
-- * net/deepcc_socket.cc, the reports of a socket, with observations in between: DeepCc.
-- * net/serialization.cc, the two-byte length before each message: Wire.
-- * net/file_descriptor.cc, descriptors and who owns them: FileDescriptor. Reading is over the
--   kernel's segments, a list, and then its end or a failure; the loop of `read_exactly` runs on
--   fuel, one more than the bytes asked for, and each of its rounds but the last adds a byte, so
--   that it never runs out. Write is over the results of `::write`. Ownership has the objects at
--   their places and the numbers that are open, and Lifetimes a program's steps on them.
-- * net/poller.cc, the actions and the loop that calls back: Poller, with Calls and Rounds for
--   the loop, Pairing for the two lists and Polls for a whole poll. The callbacks are a record
--   of functions on the state of the program around the poller, which also says which number a
--   descriptor has: an action holds a descriptor, and a callback may close or move it.
-- * net/child_process.cc, children and their manager: ChildProcess for one child, with Ending
--   for the destructor, and ProcessManager for the map of children, with Visit, Reports and
--   Sweep for the loop of `handle_signal`, and Lifetimes for a program's steps. The loops of the
--   destructor and of `wait` run over the answers of the system so far, and say whether they
--   wait on.
-- * net/system_runner.cc, running a command and gathering its output: SystemRunner, with Streams
--   and Output for a run over the answers of the system, Deadlock for the steps of child and
--   parent over pipes of a capacity, and Child for the half that runs in the child. The loop
--   over a stream runs on fuel, two more than the bytes to come: each round but the last two
--   adds a byte.
-- * net/address.cc and ezio.cc, addresses and their order: Address.
-- * net/socket.cc, sockets over UDP and TCP: Socket.
-- * net/signalfd.cc, masks of signals: Signals.
-- * net/timestamp.cc, the time since a start: Clock.
-- * net/ipc_socket.cc, connecting and writing: IpcSocket, with Server for the other operations.
--   Each `::write` is an attempt, with its result and the `errno` after it; a call that never
--   returns is the end of the list of attempts.
-- * inference/context.cc, the features of a report, the window of the last five, and the
--   congestion window that an action stands for: Context.
-- * inference/tf_inference.cc, requests that wait for the network and callbacks that wait for
--   answers: Inference. Its children hold the interleavings of the loop with the threads that
--   submit (Batch), a whole round (Rounds), and the loop against `stop` (Shutdown).
-- * inference/server.hh, udp_server.cc and unix_socket_server.cc, the service over both
--   transports: Service, with Udp and Session for the handlers, Registry for the flows that are
--   known, and Transport for the agreement of the two.
-- * inference/infer.cc and define.cc, the main of the service: Infer.
-- * client.cc, client_eval_batch.cc, client_eval_batch_udp.cc, client_eval.cc and
--   passive_client.cc, the clients: Client, with Train, Unix, Udp, Helper and Passive for the
--   programs, Polling for the polling thread of the first, and Threads for the control and data
--   threads, over a list of laps that says what the world does in each. A run of `main` is the
--   list of the calls that succeed, and a result; the world that makes calls succeed or fail is
--   an argument.
-- * server.cc, the receiver of a client's traffic: Receiver.
-- * tcp_astraea.c and tcp_astraea_bypass.c of kernel/tcp-astraea (at the repository's root), the
--   congestion control of the kernel: Kernel, with Windows for the calls of the kernel as
--   events, and Pacing for the rates. The functions that both files have are modelled once.
--
-- The clients build their messages from the reports of DeepCc and frame them with Wire; the
-- service reads the frame, keeps a Context for each flow and asks Inference; the answer goes back
-- the same way.
--
-- Exceptions are values (Result). Code that is not the repository's is a parameter: nlohmann::json
-- (Json, with its laws as a record, and Json.Tokens as a value of it), floating-point arithmetic
-- (Real, and Real.Thousandths), TensorFlow's session (a function from rows to values), the
-- kernel's answers and the clock (arguments of each call), `stoi` and `rand`. The laws of Real
-- speak of numbers that compare, so what is said with them is not said of a NaN. A conversion to
-- `int` that is out of range, and a read past a buffer, are the error `undefined`.
--
-- Assumed: the callbacks of the manager of children return or throw, without a use of the manager.
--
-- Not modelled: net/logging.cc and net/util.cc, which are copies from other projects; the loops
-- of the threads of the passive client, of the monitor and of the receiver's log, which repeat
-- the rounds; loading the network; the patch of the kernel, of another project; and the Python
-- agent, which is another program. The counters of reads and writes of a FileDescriptor grow
-- without wrapping; those of a Socket wrap.
pub mod Prelude
pub mod Wire
pub mod FileDescriptor
pub mod Poller
pub mod ChildProcess
pub mod ProcessManager
pub mod Infer
pub mod SystemRunner
pub mod Address
pub mod Socket
pub mod Signals
pub mod Clock
pub mod IpcSocket
pub mod Kernel
pub mod TcpInfo
pub mod Json
pub mod Real
pub mod Result
pub mod DeepCc
pub mod Context
pub mod Inference
pub mod Service
pub mod Client
pub mod Receiver
