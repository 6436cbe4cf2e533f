-- ===== src/Lib.antt =====
-- The agent of a2a/a2a-service: it discovers other agents, lets a language model choose one of their
-- resources, fetches it, and pays for it when the answer is HTTP 402, either by a payment on its
-- own or by a voucher of a payment channel.
--
-- The parts, from the outside in, with the paths of what they model:
--   * Executor: a2a/a2a-service/host/executor.py. `execute` reads the payload out of a request,
--     announces the task and runs the pipeline.
--   * Pipeline: host/pipeline.py. `run` is the `try` with its two handlers; `run_body`, `select` and
--     `deliver` are the body, cut behind its early returns. `Parts` is what it calls on the service
--     and the planner, and Pipeline/Wired.antt is what the program puts there.
--   * Events, Messages: host/lib/a2a/events.py and host/lib/enums. A queue is the answer of the A2A
--     library to each event; the events taken are a list, the newest first.
--   * Planner: host/lib/openai/client.py and planner.py.
--   * Service: host/service.py, a child for each method, and host/lib/a2a/discovery.py in
--     Service/Discover.antt.
--   * Channel: host/channel_manager.py. `Manager` is the object's state; Channel/Voucher.antt is
--     `create_voucher`, Channel/Ensure.antt is `ensure_channel`, its five steps one function each,
--     and Channel/Close.antt is `close_channel`.
--   * Errors: host/lib/errors. The decorator `handle_errors` is a function on actions.
--   * Demo: demo/cli.py, the interactive demo: its counter of payments, the settlement after every
--     third, the query to the agent, the loop of the prompt in Demo/Prompt.antt, and in
--     Demo/Balance.antt the balance that it reads out of what another script prints. `Screen` says
--     which texts the library draws and which it refuses for their markup.
--   * CloseAll: scripts/close_all_channels.py, which goes over all channels of the agent to close
--     them.
--   * Sequencer: sequencer/src, the service that keeps the channels and settles vouchers. Its state is
--     the in-memory map of service.rs; Sequencer/Payment.antt is `compute_next_state` with what it
--     calls of crypto.rs, Sequencer/Service.antt the operations, Sequencer/PayVoucher.antt what the
--     resource service passes on, and Sequencer/Agent.antt sets the agent's books beside the
--     sequencer's. `Backend` is its libraries and `Moment` the clock and the database of a request.
--     `settle` holds the write lock from its look-up to its end, so a request is one step. `U256` and
--     `u64` go round: `% 2 ^ 256` and `% 2 ^ 64`.
--   * Contract: contracts/contracts/StreamChannel.sol, which holds the money. A call gives the next
--     storage or is reverted. `Deployment` is the contract's configuration with the token, the
--     recovery of signers and the hash of an identifier; the token does not call back. The mapping
--     `balances` is kept apart from the channel, since `delete` leaves it. Contract/Steps.antt is
--     any sequence of calls, Contract/Finalizing.antt is `finalize_channel` of service.rs up to its
--     call, and Contract/Sequenced.antt sets that call beside the contract.
--   * Resource: a2a/resource-service/src, the service that sells: the map `paid` and the paywall of
--     lib/middlewares/require.middleware.ts, and the handlers of POST /api/pay and
--     /api/pay-voucher with what they call of services/resource.service.ts and
--     lib/sequencer.client.ts. A `Shop` is the map with the sequencer's channels; `Facilitator` is
--     the client of the facilitator, and `Transport` what becomes of the request to the sequencer.
--   * Benchmark: scripts/benchmark_suite.py, its client and its two benchmarks, with the clock that they
--     measure by as a parameter, in microseconds. The `while` loop of the live one takes fuel for a
--     round in each microsecond of its duration, and each round makes a call.
--   * Scripts: the other scripts of scripts/, one file each: list_open_channels.py in Listing,
--     verify_reusable_channel.py in Reuse, check_balance.py in Balance, verify_llm_flow.py in
--     Planning, verify_llm.py in Engine and verify_settlement.py in Settling.
--   * World: all that the program reaches outside itself. A `World` answers each call from the calls
--     before it, so the same call may be answered differently later, and an answer may be an
--     exception. The calls made are kept, the newest first, which is how an order is stated.
--   * Python: dynamic values, dicts in insertion order, exceptions as values, `int()` and `str()`.
--   * Tests: runs in a small world, and the theorems at concrete data.
--
-- An action takes a state to an outcome and the state, which comes back after an exception too, as
-- what Python code has written stays written. The three kinds of exception are those that the
-- handlers tell apart: an `AppError`, another `Exception`, and an interrupt, which passes them all.
-- Python's integers are unbounded, and so is `ℤ`; the loops on fuel are the one that writes a
-- number, which is given one more than the number, and a step divides it by ten, and the live
-- benchmark's.
--
-- Not modelled: what is printed and logged, but for the record that a log entry was made; the
-- context dict of an `AppError`; the encoding of JSON as text, the text of a float, a list or a
-- dict, and the libraries for HTTP, the chain, signing, the facilitator, the model and the A2A
-- protocol, which are parameters in `World`, `Views`, `Context`, `Backend` and `Facilitator`;
-- scripts/open_channel.py, which sends a call that the contract does not have; what the demo draws
-- on the terminal beyond whether it is drawn, the server's start and the settings; the sequencer's
-- HTTP handlers, its SQL, the loading of its map and the sending of the transaction of
-- `finalize_channel`; the resource service's routes and the offers of its challenge; the contract's
-- events and views, and the token of the test network. A float of JSON is a decimal, and the
-- identifier stored in the state file is a text.
pub mod Prelude
pub mod Python
pub mod World
pub mod Errors
pub mod Channel
pub mod Service
pub mod Planner
pub mod Messages
pub mod Events
pub mod Pipeline
pub mod Executor
pub mod Demo
pub mod CloseAll
pub mod Sequencer
pub mod Contract
pub mod Resource
pub mod Benchmark
pub mod Scripts
mod Tests
