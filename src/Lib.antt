-- ===== src/Lib.antt =====
-- The probe agent: what its own code decides, as executable definitions and theorems on them.
--
-- The agent takes a job from its scheduler, runs the script that it carries with a pool of threads,
-- and answers with the result. Around that run it records where the run is on the wire, so that a
-- run out of time can be put down to the endpoint, the path or the agent itself; it keeps probes out
-- of internal networks; it masks secrets in recorded bodies; and it enrols with the gateway and
-- renews its certificate. The parts and the files that model them, with the Python source of each:
--
--   Job           src/models/job.py: `_as_int` and the validator of the run's budget. Job.Number is
--                 Python's `int` of a text and of a float. A decoded JSON value is one of its kinds.
--   Redact        src/services/executor.py, `_redact_body_bytes`: UTF-8, `bytes.replace`, the stable
--                 sort by length.
--   Tcp           src/services/tcp_state.py: Tcp.Layout and Tcp.Reading read the kernel's struct,
--                 `lossy` and `verdict` judge a reading, Tcp.Reach is the loop of `reach`.
--   Progress      src/services/run_progress.py: the record of one run. Each hook that `install` puts
--                 around a library call is an event, and a run is a list of events.
--   Attribution   src/services/executor.py, `_attribute_call_timeouts`: from the verdicts that
--                 Progress recorded, with Tcp, to the verdict on the run.
--   Egress        src/services/egress_guard.py: blocked hosts and addresses, and the guarded socket
--                 calls. Egress.Guard runs a program of nested guards on one thread.
--   Hooks         what the three `install`s of src/services/egress_guard.py, run_progress.py and
--                 wire_metrics.py make of the entries of `socket` and `http.client`, in any order,
--                 and in that of src/main.py.
--   Config        src/config.py: the settings that the parts below read, and the agent's version.
--   Trust         src/mtls/bootstrap_trust.py: how the gateway is authenticated. Trust.Pins parses the
--                 configured fingerprints.
--   CaPins        src/mtls/ca_pins.py: the pinned trust anchors and their file.
--   Renewal       src/mtls/renewal.py: Renewal.Causes is the search of an exception's causes,
--                 Renewal has the POST, which turns to Trust when mutual TLS is rejected, and
--                 Renewal.Install has the writes, with CaPins' check before them, and the reload.
--                 Renewal.Rounds has `renewal_loop`, as any finite number of its rounds.
--   Contexts      src/mtls/ssl_context.py, and the contexts of src/mtls/bootstrap_trust.py: the calls
--                 of `ssl` that build each context, over an interface of that library.
--   Storage       src/storage/s3.py: the addresses of uploaded bodies. Storage.Contract is
--                 src/storage/base.py, as operations with laws, Storage.Directory is
--                 src/storage/filesystem.py, and Storage.Kept makes both storages fill the contract.
--   Bodies        src/services/executor.py, `_upload_bodies`: the upload of a run's bodies, each
--                 through Redact first. Bodies.Replayed has the storage behind it, by its contract.
--   Execution     src/services/executor.py, `_run_sync`: the settings of the executor, and, in
--                 Execution.Synchronous, the run of a job, through Wire, Attribution and Bodies.
--                 Execution.Guarded has what of it, and of `_reach_sync`, runs under Egress.
--   Wire          src/services/wire_metrics.py: the bytes that a thread counts, beside the record
--                 of Progress. A call of `http.client` comes with its end.
--   Expired       src/services/executor.py, `_run_budget_timeout`, with `describe` of
--                 src/services/run_progress.py: the result for a run that outlived its budget.
--   Pool          src/services/executor.py, `execute_probe`: the jobs on the probe pool and the
--                 coroutines that wait for them, as steps that fall in any order.
--   Envelope      src/mtls/envelope.py: sealing and opening a dispatch, on the values of Json.
--   Dispatch      src/routes/probe.py: the endpoint that takes a job, plain or sealed, by Envelope,
--                 and answers in kind.
--   Health        src/routes/health.py: GET /health, and the challenge, with its script's result.
--   Bootstrap     src/mtls/bootstrap.py: the registration, through Trust, and the files it writes.
--   Startup       src/main.py, with `certs_exist` of src/mtls/ssl_context.py: from the settings and
--                 the files on disk, through Bootstrap, to the listener.
--
-- Base has the shared names and lists over native numbers, Int the integers, Result the code that
-- may raise, Bytes and Spaces what Python does with byte strings and blanks, Json the decoded JSON
-- values, Writes the agent's files on disk and code that writes them and may fail in between.
--
-- State is passed explicitly: the record of a run, the thread's guard flag, the files on disk with
-- the live listener. Code that raises gives an error as a value, with the state it leaves. Numbers
-- are unbounded, as Python's are; lengths in the kernel's struct are in bytes. Two functions have
-- fuel: the search of causes, one more than the exceptions there are, which it never needs more
-- than; and `digits_from`, one more than the number whose digits it writes, which has fewer.
-- Every other loop is by recursion on its input. A clock is a number that an event carries, in
-- microseconds, and the comparison of days in a renewal is exact where Python's is in floats.
--
-- Outside the model stand, as parameters, the libraries: `ipaddress.ip_address`, `datetime`,
-- `ssl`, `cryptography`, `hashlib`, `httpx`, `urlsplit`, the resolver, sockets, the kernel and the
-- file system's refusals, base64 and the ciphers of an envelope, the Lace executor, `pathlib`, and
-- boto3's client. The paths of the agent's files are taken to be distinct. Of the ciphers the
-- theorems assume that a key pair opens what was sealed for it; of the pool, that a worker takes
-- the jobs in their order, and only one that is free; of `ssl`, what its documents say that each
-- call does to a context's settings; of `pathlib`, that a joined path is left as it is when it is
-- read again; of a digest, that it is a word in hexadecimal digits.
--
-- Left out are what only hands a call on, the making of directories, of keys and of certificates,
-- and the log.
pub mod Base
pub mod Int
pub mod Result
pub mod Bytes
pub mod Job
pub mod Wire
pub mod Contexts
pub mod Execution
pub mod Health
pub mod Hooks
pub mod Expired
pub mod Redact
pub mod Tcp
pub mod Progress
pub mod Attribution
pub mod Egress
pub mod Config
pub mod Spaces
pub mod Trust
pub mod CaPins
pub mod Writes
pub mod Renewal
pub mod Storage
pub mod Bootstrap
pub mod Startup
pub mod Bodies
pub mod Json
pub mod Envelope
pub mod Dispatch
pub mod Pool
