-- ===== src/Lib.antt =====
-- The server of Melissa-DA: it deals out the propagation of an ensemble of states to runners, many
-- programs that run and fail on their own, and assimilates data when all states are back.
--
-- The parts of the program and where they are modelled, with paths from the repository's root:
-- Part.antt: common/Part.cxx, which cuts the bytes of a field into parts, each between one runner
-- rank and one server rank.
-- Field.antt: server/Field.cxx and server/EnsembleMember.cxx, which hold the parts of a field and
-- the states of the ensemble members on one server rank.
-- LauncherConnection.antt: server/LauncherConnection.cxx, the heartbeat with the launcher.
-- Containers.antt: the standard containers that the server uses, as lists.
-- Server.antt and below: server/server.cxx. Its global variables are the record Server, and every
-- function takes the state and returns the next one, or the way in which the process ends (a failed
-- assertion, exit, or a read out of range). Connections: what goes out to runners, frame by frame.
-- Registration: configuration messages and the broadcast of the field. Tasks: add_sub_tasks,
-- try_launch_subtask, kill_task, schedule_new_task, check_schedule_new_tasks, init_new_timestep.
-- Requests: check_due_dates and check_kill_requests. Responses: handle_data_response. Updates:
-- check_finished. Loop: a round of the main loop, which calls all of these in the order of the
-- source.
-- Api.antt and below: api/api_common.cxx and api/melissa_da_api.cxx, one rank of a runner: send and
-- receive on its connections, put_state and get_state over all of them, melissa_expose and
-- melissa_finalize. Connections: initConnections and ServerRanks::get. Registration: what
-- melissa_init_with_index_map sends, and the index maps of all ranks. Chunks: api/chunk_based.cxx, which
-- copies the memory of a model to the buffers that are exposed, and back. Exchange, Handover and
-- Registration/Accepted are about both sides together: the messages of the server are those that the
-- runner expects, and the other way round.
-- Storage.antt and below: api/p2p/StorageController/storage_controller.cxx, the head that keeps states on
-- the node of a runner: delete_request, prefetch_request, m_pull_head, m_request_post and the pool of
-- slots. Storage/Callback.antt is callback, which handles one event in each call. Storage/Io.antt is
-- io_controller.hpp, an interface with laws, which the theorems assume; a storage that keeps them is
-- lawful. Storage/Fti.antt is fti_controller.cxx in the same folder, over FTI and the file system as a
-- parameter, which Tests/Disk.antt fills. A request after the connection to the server has been closed is
-- left out.
-- Tests.antt: concrete inputs.
--
-- What the sockets, MPI, the clock and the assimilator bring is an argument of the functions. What is
-- sent is kept in the order of sending in the field `sent`. The books are the lists of tasks: in
-- Server/Ledger.antt they are counted per state and per runner, and Server/Consistency.antt has the
-- invariant on them.
--
-- Bounds: `size_t` and `int` wrap as in the source where field sizes are computed. Ids, counters and
-- times do not wrap. The only fuel is that of the loop of rank 0 after an update: the number of states
-- that wait; a turn of the loop takes one of them. The loop that makes room on a node goes over the
-- slots that are used; each deletion frees one.
--
-- Not modelled: the encoding of messages, sockets, timing and logging; the files of a checkpoint; the
-- assimilators behind their update step; the Fortran wrappers in api; the app cores of the
-- peer-to-peer variant in api/p2p, its controller of MPI, and server-p2p; the launcher; PDAF.
pub mod Prelude
pub mod Part
pub mod Containers
pub mod Field
pub mod LauncherConnection
pub mod Server
pub mod Api
pub mod Storage
pub mod Tests
