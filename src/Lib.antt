-- ===== src/Lib.antt =====
-- A model of dinner-is-served, a web server in C++, with the theorems that its parts are right.
--
-- The program reads an nginx-like configuration, keeps the paths that it serves, and sends each
-- request to the handler of the longest path that begins its target. All threads log through one
-- buffer of two queues, which one thread empties.
--
--   Prelude       Booleans, lists and strings that the parts share. A string is a list of bytes,
--                 a byte a natural number.
--   Config        src/config_parser.cc: `parse_token` is ParseToken, `parse` is Parse over a
--                 stream and `parse_file` over a file name, `to_string` is ToString. The stack of
--                 pointers into the tree is a list of open configs, put together when a block is
--                 closed.
--   Interpreter   src/config_interpreter.cc: `get_port` is getPort, `set_server_paths` is
--                 setServerPaths. The static members are fields of `World`.
--   Logging       src/logging_buffer.cc: `add_to_buffer`, `write_to_log` and `empty` are the
--                 methods. Logging/Interleaving splits writeToLog into the steps between which
--                 other threads may run.
--   Dispatch      src/request_dispatcher.cc: `get_request_type`, `get_static_file_path` and
--                 `get_crud_entity_path`; `normalize` is the first part of each. Dispatch/Send is
--                 dispatch_request.
--   Http          The responses of boost::beast::http, a parameter: a record of operations, and a
--                 record of their documented laws.
--   Handlers      src/echo_handler.cc, src/health_handler.cc, src/sleep_handler.cc,
--                 src/not_found_handler.cc and src/static_handler.cc, a module each. What the
--                 size of a directory is that was opened as a file, and whether a vector of that
--                 size can be made, is a parameter, Handlers/Static.DirectoryEnd.
--   Crud          src/crud_file_manager.cc (Crud/Ids is generateEntityId and writeEntityId, and
--                 Crud/Manager the rest, with Crud/Manager/Store as a map from paths to texts and
--                 Crud/Manager/Listing for listObjects) and src/crud_handler.cc (Crud/Handler,
--                 whose children are named for what they prove of it).
--   App           src/app_handler.cc: App/Landing is generate_landing_page, App/Form is
--                 get_relevant_information and get_images, App/Scores is get_best_image_index, and
--                 App/Answer is generate_caption, process_post and handle_request. What curl and
--                 the JSON library do is a parameter, App/Services.
--   Registry      src/registry.cc, and the registration of the handlers in src/_main.cc.
--   Session       src/session.cc: a session has at most one asynchronous operation pending.
--   Server        src/server.cc: the functions are those of the class. Server/Steps are the runs of
--                 the server, in any order of connections, reads, writes, signal and logging, and
--                 Server/Service is what the clients see of them. Whether the logging thread reads
--                 program_terminated_ before the constructor initialises it, and ends, is a
--                 parameter of the constructor, as are the bytes behind the literal that it
--                 logs. A port of 0 leaves the choice of the port to the system, and is kept as 0.
--   Logger        src/logger.cc and src/signal_handler.cc.
--   Main          src/_main.cc: `main` up to the join of the threads.
--   Runtime       What the functions run in: `M` is a function of the `World` that returns, throws,
--                 or has undefined behaviour. Runtime/Dictionary is std::map over strings,
--                 Runtime/Files is what <fstream> and <filesystem> show of the files and
--                 Runtime/Disk how they change them, Runtime/Numbers is std::stoi and
--                 std::to_string, and Runtime/Words is std::stoull and `>>` on a stream.
--   Tests         Runs at concrete inputs.
--
-- Loops are by structural recursion where the code walks over a sequence. Parse runs on one more
-- step of fuel than the stream has bytes: a round takes a byte or ends the loop. The loop that
-- takes trailing slashes away runs on one more step than the length: a round takes a byte away. The
-- verdict `out_of_fuel` of Parse is the model's own.
--
-- handle_logging runs on fuel, a step for each round of its loop.
--
-- Not modelled: boost::asio and boost::log themselves, the messages of BOOST_LOG_TRIVIAL other than
-- those of writeToLog, and two handlers at once: a handler is one step, though the pool has two
-- threads. Memory exhaustion, permissions and links are left out, and a string is as long as it
-- needs to be.
pub mod Prelude
pub mod Config
pub mod Logging
pub mod Runtime
pub mod Dispatch
pub mod Interpreter
pub mod Http
pub mod Handlers
pub mod Registry
pub mod Session
pub mod Server
pub mod Logger
pub mod Main
pub mod Crud
pub mod App
pub mod Tests
