-- ===== src/Lib.antt =====
-- LAIC: a message protocol for agents, with its transports, and the compiler `laicc` of its
-- interface descriptions. This library models the protocol core in `crates/laic/src` and the
-- compiler in `crates/laicc/src`, and proves what each part promises.
--
-- The parts, and the files that model them:
--
--   crates/laic/src/error.rs, error/protocol.rs    Error.antt, Error/
--   crates/laic/src/protocol/constants.rs          Protocol/Constants, PayloadFormat, Qos
--   crates/laic/src/protocol/header.rs             Protocol/Header.antt: `encode`, `decode`
--   crates/laic/src/protocol/message.rs            Protocol/Message.antt
--   crates/laic/src/flow.rs                        Flow.antt
--   crates/laic/src/pattern.rs                     Pattern.antt
--   crates/laic/src/transport/framing.rs           Transport/Framing.antt: `write_frame`, `read_frame`
--   crates/laic/src/transport/ipc.rs               Transport/Ipc.antt
--   crates/laic/src/transport/quic.rs              Transport/Quic.antt: `QuicConnection`
--   crates/laic/src/transport/mod.rs               Transport.antt
--   crates/laic/src/gateway.rs                     Gateway.antt
--   crates/laic/src/emergency.rs                   Emergency.antt
--   crates/laic/src/codec/proto.rs                 Codec/Proto.antt
--   crates/laic/src/handshake.rs                   Handshake/Wire, Check, Session, Run
--   crates/laicc/src/ast.rs, error.rs              Laicc/Ast.antt
--   crates/laicc/src/validate.rs                   Laicc/Validate/Types, Names, File
--   crates/laicc/src/parser.rs                     Laicc/Parser/Text, Types, File
--   crates/laicc/src/laic.pest                     Laicc/Parser/Tree (the rules), Grammar (the trees)
--   crates/laicc/src/codegen/mod.rs                Laicc/Codegen/Text.antt
--   crates/laicc/src/codegen/rust_types.rs         Laicc/Codegen/Rust/Types
--   crates/laicc/src/codegen/rust_serialize.rs     Laicc/Codegen/Rust/Schema, Columns, Serialize
--   crates/laicc/src/codegen/rust_deserialize.rs   Laicc/Codegen/Rust/Deserialize
--   crates/laicc/src/codegen/rust_deserialize_fields.rs
--                                                  Laicc/Codegen/Rust/DeserializeTensors,
--                                                  DeserializeLists, DeserializeFields
--   crates/laicc/src/codegen/rust_contract.rs      Laicc/Codegen/Rust/Contract
--   crates/laicc/src/codegen/python_*.rs           Laicc/Codegen/Python/Types, Serialize, Tensors,
--                                                  Deserialize, Contract
--   crates/laicc/src/codegen/typescript_*.rs       Laicc/Codegen/TypeScript/Types, Serialize,
--                                                  Deserialize, Contract
--   crates/laicc/src/lib.rs, main.rs               Laicc/Driver.antt, Laicc/Driver/Inspect;
--                                                  `compile` in Laicc/Parser/File
--
-- A message is a header of 40 bytes with a payload (Protocol). The framing puts messages one after
-- the other on a byte stream (Transport/Framing), which a QUIC connection owns; the IPC connection
-- puts each into a slot of shared memory instead. The gateway passes messages between one of each,
-- the handshake runs over a QUIC connection, and the emergency channel carries raw bytes. The
-- compiler parses a source (Laicc/Parser), validates what it has parsed (Laicc/Validate), and prints
-- a contract in one of three languages (Laicc/Codegen) or a report of its schema (Laicc/Driver).
--
-- How the model corresponds to the code. A function is a definition of the same name. `Result` is
-- a sum of `Ok`, `Err` and a panic (Prelude/Outcome), with `do` for the `?` operator; a method of
-- `&mut self` takes the state and returns it with the result, also where it fails (Prelude/Exec).
-- A `u8`, `u16`, `u32` or `u64` is a natural number, with its range as a hypothesis where it
-- matters and the wrap-around, the saturation or the check written out. A byte string is a list.
-- The text of an error is a list of pieces, literal text and numbers to print (Prelude/Detail).
-- So is generated code: a generator, which in the source appends to a buffer, is the list of what it
-- appends, and one that can reach `unreachable!` has an `Option` of it (Laicc/Codegen/Emitted). A
-- text that is taken apart is the list of its code points; the names that are put in PascalCase are
-- ASCII, as the grammar's identifiers are.
--
-- What is not under `crates` is a parameter: tokio's `write_all` and `read_exact`
-- (Transport/Framing/Stream), an iceoryx2 publisher and subscriber (Transport/Shm), quinn's
-- connection (`Quinn` in Transport/Quic), prost's encoder and decoder (`ProstMessage` in
-- Codec/Proto), the clock, the parser that pest makes of the grammar, the parsing and the display of
-- floats, the file system (`Files` in Laicc/Driver). `WriteLaws`, `ReadLaws`, `ShmLaws` and `ProstLaws` are the documented
-- behaviour that the proofs use; lists satisfy the first three (`buffer_write_laws`,
-- `buffer_read_laws`, `list_shm_laws`).
--
-- The receive loops of shared memory wait without a bound. They run on fuel, one unit for each
-- poll, and give `none` while they still wait; fuel for one poll more than there are empty polls
-- before a frame is enough (`receive_loop_lem` in Transport/Ipc/Polling and Emergency/Delivery).
-- What other processes publish while a loop yields or sleeps is a parameter, `wait` of `ShmPort`.
--
-- Not modelled: the setup of endpoints, services and TLS, which is calls of quinn, iceoryx2 and
-- rustls; the Arrow codec, which is calls of arrow; the command line of laicc, which clap parses;
-- and what generated code computes, which is code of three other languages.
pub mod Prelude
pub mod Error
pub mod Protocol
pub mod Flow
pub mod Pattern
pub mod Transport
pub mod Gateway
pub mod Emergency
pub mod Codec
pub mod Handshake
pub mod Laicc
pub mod Examples
