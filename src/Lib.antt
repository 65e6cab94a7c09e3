-- ===== src/Lib.antt =====
-- Verification of ContainerSSH, an SSH server that starts a container for each connection.
--
-- The SSH server hands what a client asks for to a stack of handlers. Each handler offers the interface
-- that it takes from the one below it; at the bottom is a backend, which runs containers. The files here
-- model parts of that program over the native natural numbers and prove what makes them correct.
--
-- Message.antt: the errors and log entries of message/message.go and internal/sshserver/rejection.go.
--   fmt.Sprintf is written out, with no number put into a text; label values are texts.
--
-- Security.antt and the files below it: internal/security and config/security.go, the handler that
--   applies the execution policies. Config.antt has the configuration's types, with the policies, which
--   are texts in the source, as a data type; Validate.antt has the Validate methods and config/error.go;
--   Policy.antt getPolicy and contains; Backend.antt the interface SessionChannelHandler, as a data type
--   of requests and a function from a request and a state to an answer and a state; Command.antt and
--   Session.antt the methods of sessionHandler (handler_session.go); Connection.antt the methods of
--   sshConnectionHandler (handler_ssh.go); Sessions.antt a connection with its session channels. The
--   logger is a list of entries. Rules.antt states the rules that the handlers apply apart from the
--   code, Documented.antt those that the comments in config/security.go state, and where they agree;
--   Confinement.antt, Decisions.antt, Forced.antt and Forwarding.antt compare the code with them.
--
-- Agent.antt and the files below it: agentprotocol, by which connections are forwarded into and out of a
--   container. Protocol.antt has the packets; State.antt the state of a ForwardCtx with its connections,
--   its wait group, its channel and the lock on its map; Connection.antt the methods of Connection;
--   Forward.antt the handlers of packets and the calls that open connections; Handshake.antt the start
--   of a context on both sides; Run.antt a run of packets and calls, one after the other; Kill.antt the
--   two parts of Kill. Ledger.antt and WaitGroup.antt are about the wait group, States.antt about the
--   life of a connection, MapLock.antt about the lock, Kill/Balance.antt and Kill/Finish.antt about the
--   end of a context. The CBOR encoders and decoders are functions that the definitions take. A call
--   returns, waits, or panics; the goroutine that handles packets waits, with the lock of
--   the connection, until its pipe is read, and at the channel of connections until one is taken; both
--   are events of a run, and what waits goes on later in the run. Else each call runs to its end before
--   the next, as its locks have it. Integers of 64 bits
--   wrap where the source adds to them.
--
-- Metadata.antt: metadata, what is known of a connection before, during and after authentication. A map
--   that may be nil is an Option of a list.
--
-- AuthIntegration.antt and the files below it: internal/authintegration, the handlers that ask the
--   authenticators and the authorization provider. Interface.antt has the interfaces of
--   internal/sshserver and internal/auth as records of functions; Questions.antt the questions of a
--   keyboard-interactive login; Authentication.antt networkConnectionHandler; Authorization.antt
--   authzNetworkConnectionHandler, authzGssApiServer and OnNetworkConnection (handler.go). The
--   authenticators, the provider and the backend are parameters, and the state of all that is outside is
--   one state that they hand on. What an authenticator has found does not change afterwards. Outcomes.antt
--   and Admission.antt are about the answers to a login, Answers.antt about those to questions.
--
-- SshServer.antt and the files below it: internal/sshserver, the server itself. Payloads.antt has the
--   requests and what they carry (internal/ssh); Reply.antt the answers; Requests.antt the requests on a
--   session channel, Global.antt those on the connection; Authenticators.antt the callbacks by which the
--   SSH library authenticates; Handshake.antt handleConnection; KeepAlive.antt its keepalives;
--   Registry.antt shutdownRegistry.go; Channels.antt the opening of channels; ChannelWrapper.antt channelWrapper.go. The SSH library, with its
--   decoding of payloads, the writing and reading of JSON, and the client are parameters; Library.antt
--   says what is relied on. A loop over a Go channel goes over the list of what comes before the channel
--   is closed, and the fuel of the keepalives is how many rounds are looked at. Numbers that come from a
--   counter of the server without a lock are any numbers. The goroutines that open channels take turns in
--   any order; the one that waits for the end of a connection is a step of its own, before or after the
--   registration that it runs beside. Calls.antt, Replies.antt
--   and GlobalCalls.antt compare the loops with what the requests stand for; Refusals.antt adds the
--   security layer, Admission.antt and Entry.antt the authentication integration; Keyboard.antt is about
--   questions, Openings.antt about the answers to channels, Reached.antt and Release.antt about the end of a connection, Exit.antt about what goes
--   out on a channel. Log lines without a code, and labels of loggers, are left out.
--
-- Asciinema.antt and the files below it: internal/auditlog/codec/asciinema, which writes the audit log of
--   a connection as a recording. Encoder.antt has encoder.go: the loop goes over the messages that come
--   before the channel is closed; the JSON encoder and the storage are functions that may fail, and
--   the lookup of countries is a function of the address. Timestamps are not negative, and the time of a frame stays in nanoseconds.
--   Recording.antt is about the lines that are written, Closing.antt about the end.
--
-- AuditLog.antt and the files below it: internal/auditlog/codec/binary. Header.antt has header.go, the
--   header in front of the compressed messages, with bytes as numbers below 256 and a reader as the bytes
--   that are left in it; RoundTrip.antt compares what is written with what is read.
--
-- Service.antt and the files below it: service, how services start and stop. Lifecycle.antt has the
--   state of a lifecycle (lifecycle_impl.go) with its hooks and its methods; what a service does while it
--   runs is the sequence of the calls that it makes. Announced.antt is about a whole run, Mutex.antt about
--   the mutex and the request to stop. Pool.antt has a pool of services (pool_impl.go): the services are
--   events that come in any order, and the channels are counters; Pool/Ends.antt is about its end,
--   Pool/Startup.antt about its start. The hooks of one list are called one after the other, and the
--   methods one after the other; Stop is modelled up to its wait.
--
-- Each Examples.antt, and SshServer/EntryExamples.antt, has runs of the definitions and the theorems at
--   concrete inputs. Loops go over lists, but for the keepalives.
--
-- Not modelled: the SSH protocol and the sockets, the data on forwarded channels, the listener, the container backends, the HTTP servers and clients,
--   the rest of the audit log, the single authentication methods, the metrics, and the loading of configurations.
pub mod Agent
pub mod Asciinema
pub mod AuditLog
pub mod AuthIntegration
pub mod Common
pub mod Message
pub mod Metadata
pub mod Security
pub mod Service
pub mod SshServer
