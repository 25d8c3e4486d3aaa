-- ===== src/Lib.antt =====
-- The domain of the EventPro backend: quotes, payments, outgoing messages and availability.
--
-- The program is a Python service in layers. app/domain holds the aggregates (dataclasses whose
-- methods raise or mutate), the value objects and the pure services; app/application the use cases
-- that load an aggregate, call it and save it; app/infrastructure the database, the web API and the
-- gateway of WhatsApp. A quote is priced by the financial engine, paid by a payment that an
-- encargado verifies, booked against the availability services, and the client is told by messages
-- of the outbox.
--
-- Method: exceptions as values, and methods that change an object as functions that return the
--   object beside the result, also where they raise, so that what a call wrote before it raised is
--   seen. The message of an exception is not kept, its class is.
-- Clock: `datetime` values with and without a time zone (microseconds), `_require_aware`, and the
--   sum of an instant and a `timedelta`, which raises out of the range of `datetime`.
-- Prelude: tests on numbers, lists, signed integers, and Python's `str` as its code points.
-- Outbox: app/domain/entities/outbox_message.py and app/domain/value_objects/outbox.py. Every method
--   has the name of the source; Payload is validate_payload over values of any type. Calls is the
--   life of a message as a sequence of calls.
-- Money, Financial: app/domain/value_objects/money.py, liquidation.py and mobility.py, and
--   app/domain/services/financial_engine.py. An amount is its cents, since the constructor rounds
--   to two decimals; Decimals are exact coefficients and scales, without the limit of 28 digits of
--   Python's default context, which the stored amounts (at most ten digits) do not reach, and without
--   NaN and infinities.
-- Quote, Payment: app/domain/entities/quote.py and payment.py. Payment/Store has the repository's
--   load and save (app/infrastructure/.../sqlalchemy_payment_repository.py) and the refund use case.
-- Event: app/domain/entities/event.py and event_extension.py. Outcomes says what a call does if it does
--   anything; the hours are local times and the day of the event, in microseconds.
-- Conversation: app/domain/entities/conversation_link.py.
-- Assignment: app/application/use_cases/messaging/conversation_assignment.py over a table of links
--   (sqlalchemy_conversation_link_repository.py). The answers of Chatwoot and what other commands
--   commit between the steps of a command are parameters (Around).
-- Phone: app/domain/value_objects/phone_number.py; the patterns are written out over code points. A row
--   of the outbox is taken to hold a canonical number, which its load parses again.
-- Schedule: app/domain/value_objects/time_window.py and the services concurrency_evaluator.py,
--   inventory_availability.py and travel_interval_service.py of app/domain/services.
-- Dispatch: app/application/use_cases/messaging (the worker of the outbox, and enqueue, retry and
--   delivery notices) over a table of rows. Table is sqlalchemy_outbox_repository.py with what its
--   statements ask of the database; a transaction keeps what it wrote only if it raises nothing.
--   What other transactions commit while a message is sent, the rows they hold, the clock and the
--   gateway's answers are parameters (World). Gateway is the sending and its exceptions;
--   the file of a document is read before the call, and that may fail.
--
-- Contract: app/domain/entities/contract.py. Table is sqlalchemy_contract_repository.py over a store of
--   rows, with the data of an event as one record and the outbox of Dispatch; Notice enqueues a message
--   to the phone of the client, and Messages is what the queue still sends about a contract.
-- Signing: app/application/use_cases/contract/sign_contract.py. Rules are the parts of its methods; the
--   methods stand in Signing. SHA-256, HMAC and JWT (Crypto), the seal, the storage, the random code,
--   the clock and what others commit while the lock of the event is awaited (Around) are parameters.
--   Protocol has the same calls on one contract, in a row; Phases is an abstract protocol and Refinement
--   relates the two; Steps relates the use case to the calls of Protocol.
-- Issuing: app/application/use_cases/contract/manage_contracts.py over the same store (all but `list`).
--
-- Advance: pay_advance.py, cancel_quote.py and expire_due_quotes.py of app/application/use_cases/quote over
--   the tables of quotes and payments (sqlalchemy_quote_repository.py). A row is taken to hold a quote that
--   its load accepts. The catalogue, the availability of a date, the rows that others have locked and the
--   payments of the second look of the sweep are parameters; the instructions of the payment are left out.
-- Repricing: override_mobility.py of the same directory, over the same tables and an audit.
-- Occupancy: app/application/services/event_extension_availability.py over the occupancy that a query gives,
--   which is an argument; it calls the services of Schedule with the window of Event.
-- Approval: verify_payment.py, approve_overbooked_payment.py and audit_payment.py of
--   app/application/use_cases/payment, over Payment/Store and the store of Issuing. The queries that sum up
--   the payments of an event for its contract are a parameter (sums).
--
-- Identifiers (UUID) are numbers, since the program only compares them; a fresh one is an argument, as
-- is the current time where the code asks for it. Checks by isinstance of what the types of the
-- model already give are left out. The loops are structural recursions over lists; no fuel is used.
--
-- Not modelled: the web layer, the SQL of the repositories but for the statements above, the
-- adapters of external services, the bot, and the aggregates and use cases that have no file here.
pub mod Prelude
pub mod Method
pub mod Clock
pub mod Outbox
pub mod Money
pub mod Financial
pub mod Quote
pub mod Payment
pub mod Repricing
pub mod Occupancy
pub mod Schedule
pub mod Event
pub mod Dispatch
pub mod Conversation
pub mod Assignment
pub mod Phone
pub mod Contract
pub mod Signing
pub mod Issuing
pub mod Advance
pub mod Approval
