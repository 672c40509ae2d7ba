-- ===== src/Lib.antt =====
-- The controller of an AI cat: a Python service (src/ai_cat_controller) that moves the motors of a
-- robot cat, drives its voice process, and keeps the users, pets and their intimacy in SQLite.
--
-- The parts and how they meet. The HTTP interface calls the services. The motion scheduler
-- (services/motion_service.py) runs one motion at a time through an adapter. The adapter of the device
-- (adapters/local_k1.py) reaches the hardware only through the command runner
-- (adapters/command_runner.py), which adapters/factory.py builds with fixed lists of commands. The
-- product's state lives in the repository (persistence/sqlite_repository.py), and the tables of
-- domain/ say what a level, an action and a personality are. The dialog service
-- (services/dialog_service.py) drives the voice process through the same adapter, the personality service
-- (services/personality_service.py) writes what that process is to be like, and a process of its own
-- (autonomy.py) now and then asks the HTTP interface for a motion and a phrase.
--
-- - Base, with Base/Tests, Base/Lists, Base/Int: Boolean tests on the native numbers, lists, and the
--   integers of Python as far as they occur. Errors: core/errors.py. Exec: calls that may raise and
--   keep what they wrote, and `transaction`, the `with self._connect()` of the repository.
-- - Domain: domain/intimacy.py, domain/actions.py and domain/personalities.py with all their rows.
-- - Repository: Schema has the tables of `initialize` as lists of rows in order of insertion, Tables
--   the inserts with the constraints of their tables and `_owned_pet_row`. Pets, Interactions,
--   Dialogs and Executions have the methods, named as in the source. A call takes the clock and the digits of
--   `uuid4` in an `Env`; `uuid5` is a function argument. The children of each prove its laws.
-- - Motion: State has the fields of `MotionService` and the tasks of the event loop. Service and Stop
--   cut the methods at their awaits: `start` is `_start`, `settle` the `finally` of `_execute`,
--   `stop_begin` and `stop_end` the two critical sections of `stop`, `await_execution` the end of the
--   method of that name. Steps is the relation of all interleavings
--   that the event loop allows, Exclusion what they keep, Futures and EarlyStop the outcomes that are
--   handed out. No critical section awaits, so the lock is always free when it is asked for.
-- - Commands: Runner is adapters/command_runner.py, Factory the runner of adapters/factory.py.
-- - Device: adapters/local_k1.py, with the command runner as an argument: Motors, Power
--   (`_read_power_status`), Readiness (`_ensure_dialog_ready`), Reports (`get_services_status` and
--   `get_dialog_status`, with Liveness for what a status rests on) and Requests (`send_text_dialog` and
--   `speak_text`).
-- - Product: services/product_mock_service.py. Actions has `execute_action` and `_finalize_action` over
--   the repository and the scheduler, Interactions the sessions and `add_interaction`,
--   Catalog `dashboard` and `action_catalog`, Events the events that `_read_native_dialog_events` takes
--   from the voice process, Imports `_sync_native_dialog_events`.
--   `execute_action` is one run that nothing interrupts.
-- - Repository/Ledger: the specification of a pet's points, as the balance of its log of events, and the
--   histories of calls that write users, devices, pets or events.
-- - Status: services/device_service.py, with the cache of the states of the services. Mock:
--   adapters/mock.py, with `_run_motion` cut at its sleep and every interleaving in Mock/Motions.
-- - Config: core/config.py with its validators and `from_env`, and core/security.py.
-- - Personality: services/personality_service.py. Prompt has the functions and the prompt, Profile
--   `_build_profile`, Sync the runtime file with `sync_pet` and `initialize`. The hash of the profile
--   and how the writing of the file ends are arguments.
-- - Dialog: services/dialog_service.py. State, Wake and Requests cut the methods at their awaits as Motion
--   does; here `send_text` and `speak` hold the lock across their awaits, so a submission is a part of
--   the state, and Steps lets no other critical section begin while it lasts. FollowUp is the file with
--   the configuration.
-- - Autonomy: autonomy.py and local_speech.py. Values are the JSON that the controller answers with,
--   Setup `AutonomyConfig.from_env`, Client the `LocalControllerClient`, Speech the `LocalPhrasePlayer`,
--   Worker `run_once`, Loop `run_forever`.
--
-- Bounds. Only the loop of `run_forever` runs on fuel, one unit for each turn; Autonomy/Pauses has how
-- much is enough. Every other loop is structural recursion on the rows, the arguments
-- or the readings that it walks. The polling of `_ensure_dialog_ready` takes the finite list of what it
-- reads until its deadline. Times are natural numbers of milliseconds, and floats of the settings are
-- counted in thousandths.
--
-- Not modelled: the listings of the repository, the rest of the product service (`send_dialog`,
-- `bind_pet` with its synchronization, the summaries of conversations), `get_device_status`,
-- `wake_dialog` and `interrupt_dialog` of the device's adapter, the HTTP interface, the entry points,
-- and the native programs.
-- Python's floats, JSON and the subprocess itself are arguments. A caller that is itself cancelled
-- while it waits in `stop` is not a step of the scheduler.
pub mod Autonomy
pub mod Base
pub mod Errors
pub mod Exec
pub mod Dialog
pub mod Domain
pub mod Repository
pub mod Status
pub mod Mock
pub mod Motion
pub mod Commands
pub mod Device
pub mod Product
pub mod Config
pub mod Personality
