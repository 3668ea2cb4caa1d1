-- ===== src/Lib.antt =====
-- Secure aggregation for federated learning: the Python server.
--
-- Clients on microcontrollers train a model, mask their updates and send them in chunks to a server,
-- which adds them up in GF(3329). host_server/protocol_bridge.py is the server: the wire format of its
-- messages, a handler for each message, the key setup, the recovery of clients that dropped out, and
-- the weighted average of the others. It calls host_server/shamir_recovery.py for field arithmetic,
-- Shamir reconstruction, key derivation and mask streams.
--
-- host_server/baseline_server.py is the same server with X25519 in place of the key encapsulation,
-- host_server/flower_server.py averages the updates that Flower collects, and
-- host_server/mock_client.py plays a client. experiments/ compares and drives them.
--
-- shamir_recovery.py and protocol_bridge.py hold an unresolved merge. In the reconstruction of a
-- secret, where the sides differ by a few lines, the definitions take the side as an argument. Bridge
-- is the side of protocol_bridge.py above the `=======` line, Incoming the side below it; where the
-- two have the same code, Incoming, and Classical for baseline_server.py, use the definitions of
-- Bridge, which take the methods that they call on `self` as arguments.
--
-- Prelude   shared names and helpers: Tests, Lists, Int (Python's integers), Dict (Python's dict
--           in insertion order), Exec (methods that change an object and may raise), Exec.Keeps
--           (their invariants), Exec.Returns (their runs without an exception), Table (checks by
--           evaluation over a range).
-- Field     remainders by FIELD_MODULUS; Shape: lists and chunks of field elements.
-- Shamir    shamir_recovery.py: barrett_reduce, mod_inv, evaluate_polynomial, reconstruct_secret,
--           reconstruct_secret_bytes, recover_mask_seed_from_shares; Weights, Interpolation and Recovers
--           hold the interpolation at 0 that reconstruct_secret computes.
-- Bytes     byte strings, and the calls of struct, bytes and int that the code makes.
-- Wire      MessageHeader, _parse_header, _build_header and the MSG_TYPE_... constants.
-- Platform  the libraries outside the repository, as one parameter with their documented laws.
-- Kdf       hkdf_extract, hkdf_expand, the derive_... functions and the AES-CTR key stream; Standard has
--           HKDF as RFC 5869 defines it.
-- Masks     generate_mask_from_seed and the recover_dropped_client_... functions.
-- Bridge    ProtocolBridge: State (ClientState, RoundState, the server), Keys (_encapsulate,
--           _setup_keys_and_masks, _orchestrate_pairwise_kem; Keeps is about its invariants,
--           Secured and Seeds about secrets and seeds, Total about runs without an exception),
--           Aggregate (_finalize_aggregation), Fedavg (_unmask_client_chunks, _compute_fedavg),
--           Telemetry (_collect_telemetry, _pack_telemetry), Round (_trigger_recovery,
--           _unmask_and_aggregate, _check_round_completion, _handle_round_failure), Handlers (the
--           message handlers, _dispatch_message, _handle_client).
-- Incoming  the ProtocolBridge below the `=======` line: MsgType, Wire, Keys and Round.
-- Classical the server of baseline_server.py: MsgType, Wire, Keys (the key exchange) and Round.
-- Flower    flower_server.py: _model_to_chunks, _chunks_to_model, aggregate_fit and the rest of
--           ChunkedFedAvg. Its tuples of arrays come with their shapes (Flower.Arrays).
-- Client    mock_client.py: its cryptography (Crypto) and run_client, a function of what it reads.
-- Workflow  experiments/scripts/run_workflow.py: WorkflowOrchestrator; Log and Steps say what each
--           step of a round adds to the log of each node.
-- Benchmarks  what experiments/run_benchmarks.py reads of the telemetry.
-- Metrics   experiments/metrics_logger.py: MetricsLogger, its flush and its summary.
-- Sweeps    the rounds of the scripts run_dropout_sweep.py, run_model_scaling.py,
--           run_chunk_optimization.py and run_variant_comparison.py (Scripts has their constants), and
--           those of run_benchmarks.py (Benchmark).
-- Baselines the Shamir sharing and reconstruction of experiments/baselines.py, and its key derivation
--           (Kdf); the draws of secrets.randbelow are a function of the number of the draw.
-- Samples   the data of the examples, which stand in the modules called Examples.
--
-- A function that may raise returns a Result with the class of the exception. A method that changes
-- the server is a function of the state, and gives the state back beside the result, since what was
-- changed before an exception stays changed. An exception that comes from a name or a method that is
-- not defined is modelled as Python raises it.
--
-- Loops over lists and dictionaries are structural. Two kinds of loop run on fuel: `hkdf_expand`,
-- whose every round adds 32 bytes, on the length asked for; and the loops of a connection, whose
-- every round takes a header of 16 bytes, on the length of what the peer sends plus one.
--
-- Not modelled: the interleaving of several connections at an `await` (each message is handled in
-- one piece); the contents of what the network does to `writer.write` beyond the list of what was
-- sent; closing a connection; logging; locks and the clock; the base classes of Flower;
-- run_all_experiments.py and plot_metrics.py, which are files and processes; the command lines;
-- and the scripts that rewrite source text. The hash, the cipher, the key encapsulation, the key
-- exchange, os.urandom, the casts of NumPy, and the processes, the files and the clock of the
-- experiments are the parameters of Platform, Flower.Arrays and Sweeps, and so is whether a
-- connection is closing or lost while a handler runs.
pub mod Prelude
pub mod Field
pub mod Shamir
pub mod Bytes
pub mod Wire
pub mod Platform
pub mod Kdf
pub mod Masks
pub mod Bridge
pub mod Baselines
pub mod Samples
pub mod Benchmarks
pub mod Classical
pub mod Client
pub mod Flower
pub mod Incoming
pub mod Metrics
pub mod Sweeps
pub mod Workflow
