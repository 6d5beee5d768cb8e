-- ===== src/Lib.antt =====
-- The INO-A9 local bridge: the Python program that talks to a camera on the local network, keeps
-- its images and its audio for HTTP clients, and offers its controls to Home Assistant.
--
-- How the program fits together. A camera speaks a packet protocol over TCP. `CameraClient` reads the
-- socket, cuts the stream into packets, answers the camera's time requests, and hands audio and
-- image fragments on; commands and responses are protobuf messages under AES. `CameraSession` shares
-- one such connection between the media reader and the controls. `CameraState` keeps the latest
-- image and the recent audio for the HTTP threads. `ControlAPI` answers the requests of Home
-- Assistant with calls on a camera, and `ControlStateStore` keeps in a file what the cameras took. The
-- app's runtime prepares the files of the bridge and tells Home Assistant where it is.
--
-- Which file models which part; paths below ino_a9_bridge/src/wificam_bridge.
--   Varint               `decode_varint` and `encode_varint` of pprpc.py.
--   Packet               the headers, the bodies, `parse_packet` and `iter_tcp_packets` of pprpc.py.
--                        A cursor into bytes is an index, and each raise site has a fault of its
--                        own, whose message the stream reader searches as the code does.
--   Crypto               crypto.py, with `derive_rpc_key` and `derive_av_key` of pprpc.py. The cipher,
--                        the PKCS#7 padding and MD5 come from `cryptography` and `hashlib`: they are
--                        the record `Primitives`, with what their documentation says as its laws.
--   Protobuf             the field encoders, the field readers and the time messages of camera.py.
--   Camera.Rpc           `pack_rpc` and `decrypt_rpc_payload` of camera.py.
--   Camera.Pending       `_pending_commands` of `CameraClient`, with `send_control` around its wait,
--                        `_resolve_pending`, `_fail_pending` and the sequence numbers. The objects
--                        that a call and the reader share have a store of their own. What runs under
--                        a lock and each write to an object are functions of their own, and
--                        `Pending.Routed.Interleaved` has them as the steps of threads in any order;
--                        `resolve_pending` and `fail_pending` put them together for one thread alone.
--   Camera.Client        `CameraClient` as the thread sees it that connects and reads: its fields, sending,
--                        `_receive`, `close`. What it calls, the clocks, the socket and its consumer,
--                        is the record `World`: the calls are numbered and each has its answer, so a
--                        camera may send anything, in any pieces, or be silent. A method is a
--                        function of the client that may raise (`M`). `Connect` has `connect` and
--                        `start_audio`, cut at their waits, and `Frames` the generator `frames`, whose
--                        local variables are the record `Stream`.
--   Camera.Reassembler   `MJPEGReassembler` and `extract_g711_alaw_payload` of camera.py. `_drop` is
--                        `forget`; `push` is cut at its early returns into `push_payload`,
--                        `push_fragment`, `accept`, `take_fragment` and `decode_frame`. `Assembly` is
--                        what it promises for one sequence number, as a machine without dicts.
--   Commands             commands.py: the payload builders and `read_response_value`.
--   Controls             controls.py: `IntrusionSchedule` with its `__post_init__`.
--   Session              the control methods of `CameraSession` in session.py. A method that tests
--                        the connection twice takes the session as it is at either test. `Reader`
--                        has `start`, `close` and `_reader_main` as the steps of two threads, of
--                        which any interleaving is possible; what the client answers is left open.
--                        `Attempt` is one attempt of `_reader_main` as the client makes it.
--   Config               `parse_config` of bridge.py, on the decoded value.
--   CameraState          `CameraState` of bridge.py. A method under the lock is one step, and a wait
--                        is given the states and the clock that its rounds see.
--   Value                the values of `json.loads`.
--   ControlApi           control_api.py: `Values` the validation, `Store` the state file, `Handle` and
--                        `Handle.Routes` the requests. The API and its cameras share a world, which
--                        the methods of a camera change; `CameraSession` and the bridge's workers
--                        are such cameras.
--   Bridge               the choice of a handler in `BridgeHandler` of bridge.py, and `_api`.
--   Runtime              app_runtime.py: `prepare_runtime` on the contents of the data directory's files,
--                        and `Runtime.Discovery` with the requests to the Supervisor, whose HTTP is a
--                        function of a world.
--   Integration          custom_components/ino_a9, from the repository's root: the validation of
--                        config_flow.py; `Api` the client in api.py, over a function that makes an HTTP
--                        request; `Coordinator` coordinator.py; `Entity` what the entities, the selects
--                        and the switches read and send. `Served` joins the client to the bridge: HTTP
--                        is taken to bring requests for plain paths to `Bridge.serve` as they are.
--                        `datetime.time` is the record `TimeLibrary`.
--   Base                 numbers, lists, dicts, texts, and Python's exceptions as `Result`.
-- The modules named Examples hold the tests.
--
-- Numbers are natural numbers, and integers only where a negative one is possible; a mask of 64 bits
-- is written out. A loop over bytes is recursion on as many rounds as the payload has bytes. Each
-- round takes a byte at least, so the rounds suffice; running out would be the exception
-- `out_of_fuel`, which is none of Python's. `encode_varint` recurs on the well-founded order of its
-- value. A wait of the client has as many rounds as its deadline has nanoseconds, and one more, which
-- suffices where each call of the world takes a nanosecond at least. `frames` goes on until it fails,
-- so it is looked at for any number of rounds.
--
-- Not modelled: sockets, threads and the clock themselves, and the time that a call of `recv` is
-- given; the tests of argument types in `send_control` and `send_command`, `open_session` and the
-- context manager; the workers and the writing of media to HTTP clients; the command line; and, of
-- the Home Assistant integration, the registration of entities and services, the service for the
-- schedule and the diagnostics; the probe script. The parsing and printing of JSON is Python's
-- own: a text stands as its value, and as none where it is no JSON. A write of a file is one step,
-- since the code replaces the file in one. The store's disk may refuse a write, and its file may be
-- unreadable; the writes of `Runtime` succeed, and a token file is UTF-8. The digits of a
-- clock text are those of ASCII. Log messages and the texts of exceptions are left out.
pub mod Base
pub mod Bridge
pub mod Camera
pub mod CameraState
pub mod Commands
pub mod Config
pub mod ControlApi
pub mod Controls
pub mod Crypto
pub mod Integration
pub mod Packet
pub mod Protobuf
pub mod Runtime
pub mod Session
pub mod Value
pub mod Varint
