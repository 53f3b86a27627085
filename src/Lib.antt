-- ===== src/Lib.antt =====
-- RUN-DSP, an implementation of the Dataspace Protocol in Go. Two parties, a consumer and a
-- provider, negotiate a contract on a dataset and then transfer its data, by messages over HTTP.
-- Each party keeps a record of the negotiation or transfer with its state, and a state machine of
-- which `Recv` takes a message of the other party and `Send` makes the next message to it, which
-- the reconciler sends out; once that message is answered, the reconciler sets the state that was
-- asked for.
--
-- The parts:
--   Prelude        names of the libraries, tests on numbers and texts
--   Exec           methods that change a value and may return an error or panic
--   Extern         the packages that the program calls (uuid, net/url, time) and the generated gRPC
--                  types, as one record of operations; `IsLawful` is what the theorems rely on of them
--   Optional       steps that may have no result
--   Json           encoding/json on the types that are kept in the database; Columns: the columns that
--                  negotiations and transfers share
--   Role           dsp/constants/roles.go
--   Jsonld         jsonld/context.go, and `GetDSPContext` of dsp/shared/validation_helpers.go
--   Odrl           odrl/types.go and odrl/validators.go (Validators)
--   Oid            oid/oid.go: `Parse`, `MustParse`, `String` and `URN`, over the decimal numbers of
--                  strconv (Decimal); what a parsed identifier holds (Arcs), and its text and URN read
--                  back (RoundTrip, Urns)
--   Shared         dsp/shared: the messages (Messages, TransferMessages), the types of the catalogue
--                  (Catalog), `URNtoRawID` and `IDToURN` (Ids) and what they make of each other's
--                  results (Urns), and the validators of state names
--                  (Validation, StateNames)
--   Contract       dsp/contract: the states and their table (State), `Negotiation` and its methods
--                  (Negotiation), ways through the table (Paths), its database row (Model) and the
--                  round trip (RoundTrip)
--   Transfer       dsp/transfer: states, table and directions (State), `Request` (Request), its
--                  database row (Model) and the round trip (RoundTrip)
--   StateMachine   dsp/statemachine:
--     Env            what `Recv` and `Send` call and return
--     ContractRecv   `Recv` of contract_transitions.go, one function for each state
--     ContractSend   `Send` of contract_transitions.go, and contract_messages.go
--     Triple         proof rules for `Recv`; RecvLaws: its theorems
--     Histories      the states that a negotiation has in turn
--     Peers          two parties of one negotiation; Exchange: both ends of one message
--     PublishInfo    data addresses
--     TransferRecv, TransferSend   transfer_request_transitions.go and transfer_messages.go
--     TransferTriple, TransferLaws, Shutdowns   the proof rules and the theorems of `Recv` of a transfer
--     Updater        the store, and the state updaters of reconciler.go
--     Reconciler     the reconciler: its queue, its attempts and when it gives up
--     Locks, GivingUp, Queue, Acknowledgement   the theorems of the reconciler
--   Handlers       dsp/contract_handlers.go: `processMessage` and what it calls (Contracts), its locks
--                  (ContractLocks) and its responses (Answers), the handlers that start a
--                  negotiation (FirstMessages), and those of the routes (ContractRoutes)
--                  And dsp/transfer_handlers.go: `processTransferMessage` (Transfers), its locks
--                  (TransferLocks) and responses (TransferAnswers), the handlers of the routes
--                  (TransferRoutes, RouteAnswers), and the start of a transfer (NewTransfer)
--                  And dsp/catalog_handlers.go (Catalog), dsp/error_wrapper.go and
--                  dsp/common_handlers.go (Http)
--   Auth           internal/authforwarder/authnmiddleware.go: the check of a requester
--   Control        dsp/control: the status codes (Code), the requests to a provider (Provider), the
--                  calls of contracts.go (Contracts), what they do (Sending, Steps, Starting), and of
--                  control.go `InitiatePushTransfer` (Transfers) with its theorem (Pushing), and
--                  `SignalTransferComplete` (Completion);
--                  `GetProviderCatalogue` and `GetProviderDataset` (Catalog), and a catalogue on its
--                  way from one participant to another (Fetching); and the loops by which two calls
--                  of control.go wait (Waiting, with their theorems in WaitingEnds)
--   Sqlite         dsp/persistence/backends/sqlite/contract_saver.go: the conditions of a query (Query),
--                  SQL as an interface with its laws (Database), and `GetContract`, `PutContract` and
--                  `ReleaseContract` (Contracts); its theorems are in Locking, Releasing, Reading
--                  and RoundTrip; and agreement_saver.go (Agreements)
--                  And transfer_saver.go: the query (TransferQuery), SQL as an interface
--                  (TransferTable), its operations (Transfers) and a transfer that is stored and read
--                  (TransferTrip); with the options of dsp/persistence/options
--   Examples       an instance of `Extern`, and the theorems at concrete inputs
--
-- How the code is read. A pointer that a method changes is a state that is passed on, and
-- what was written before an error or a panic stays written. An interface value of a message
-- is a sum, with one case for every type that the code does not know. A state value selects
-- its `Recv` and `Send` as `GetContractNegotiation` and `GetTransferRequestNegotiation` do.
-- The answers of the provider, of `uuid.New`, of `time.Now` and of the marshalling of a
-- message are fields of an environment. Calls of the provider that change something are
-- recorded in a trace. A message that `Send` leaves for the reconciler is the entry that the
-- returned function adds. A gRPC value that the code only passes on is a parameter. The
-- store, the HTTP requester, the clock and the random interval of the reconciler are fields
-- of a `World`, and those of the handlers of a `Service`, whose answers may depend on the log
-- of all calls so far. The reconciler's manager and its one worker are steps that follow each
-- other in any order, where an operation that is sent over the channel waits for the worker
-- and an attempt is one step. The loops go over lists, over the ten attempts of `terminate`,
-- or over the attempts to lock a row, whose number is an argument, so that no fuel is needed.
-- The loops that wait for a negotiation or a transfer have no bound in the code: they take a
-- number of turns, which the theorems leave open, since no number is enough for every store. The digits of a
-- number are made in at most as many rounds as its value. What others do to the database
-- while an attempt waits is a function of the interface.
--
-- A value of a Go type `any` is one that encoding/json decodes. An agreement comes out of JSON without
-- the ID of its policy, since its own ID has the same key, and with its time as JSON keeps it, without a
-- monotonic reading. A step of a history of a negotiation is a message that `Recv` accepts, a state that
-- is set, or a step that keeps the state, such as storing, reading and sending.
--
-- Not modelled: logging, with the panic of `GetLogFields` for an undefined role, which `ParseRole` lets
-- no stored record have; tracing and metrics; the context that is passed along; HTTP, gRPC
-- and SQL input and output; the table of routes; start-up and configuration; mocks and
-- migrations; the parts of the two calls of dsp/control/control.go that wait for a whole
-- transfer which come before and between their loops; and the opening of the database.
mod Prelude
pub mod Exec
pub mod Optional
pub mod Extern
pub mod Role
pub mod Jsonld
pub mod Odrl
pub mod Oid
pub mod Shared
pub mod Contract
pub mod Json
pub mod Columns
pub mod Transfer
pub mod StateMachine
pub mod Handlers
pub mod Auth
pub mod Control
pub mod Sqlite
mod Examples
