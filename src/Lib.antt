-- ===== src/Lib.antt =====
-- A verification library for the C code of this repository. It models the library sensor_commands
-- of src/lab4/c/sensor_commands: sensors of a configuration file, and commands that a consumer
-- thread takes from a bounded queue; and the program sensor_cmds that uses them. It models the device
-- server of src/lab3, with its commands, the table that it keeps them in, and the thread that answers
-- requests; and the device library and program of src/proyecto/eie_device.
--
-- How the parts of sensor_commands work together. A sensor manager reads a JSON file, asks a factory
-- for a sensor of each listed type and name, and keeps the sensors in a hash table by name. A client
-- creates commands, either for a message or to read a sensor of the manager, and sends them to a command
-- runner. The runner's queue is a linked list between two counting semaphores and under a mutex; its
-- consumer thread executes the commands until it receives one whose `execute` is NULL.
--
-- The files, with the C files below src/lab4/c/sensor_commands that they model:
--   Base, Base/Lists, Base/Int: shared names, lists, byte strings and integers.
--   Process: allocation, standard output, and the monad of code that may fault; Process/Growth and
--     Process/Frees are about code that only allocates and about freeing several blocks.
--   Files: what the code sees of a file through stdio.h.
--   Uthash, Utlist, Cjson: interfaces of the libraries that the code calls.
--   SensorCommands/Types: the structures of include/sensor_commands/sensor/sensor.h and command.h.
--   SensorCommands/Sensor: src/sensor/sensor.c, src/sensor/sensors/level.c and temp.c.
--   SensorCommands/Command: src/command.c, and the execute function of src/sensor/manager.c.
--   SensorCommands/Factory: src/sensor/sensors/factory.c.
--   SensorCommands/Manager: src/sensor/manager.c. Load and Create are about creating the manager with
--     memory, AnyMemory and Created (with Factory/AnyMemory) about any memory, Frees and Owned about
--     the blocks that destroying it frees.
--   SensorCommands/CommandQueue: the queue of src/command_runner.c, with `cmd_queue_send` and
--     `cmd_queue_recv` as program points of a call (`Call`) and their steps (`call_step`).
--   SensorCommands/CommandRunner: `cmd_runner_consumer` (`thread_step`), and the interleaving of any
--     number of clients and consumers (`Step`, `Reach`).
--   SensorCommands/CommandRunner/Executor: the abstract executor that a runner promises to be. View and
--     Refinement relate the threads to it.
--   SensorCommands/CommandRunner/Api: the functions of include/sensor_commands/command_runner.h.
--   Options: the loop over `getopt` of tools/sensor_cmds/main.c, which the other two programs repeat.
--   SensorCmds: tools/sensor_cmds/main.c. Talk has the requests to other threads; Basic and AnyAnswer
--     are about the first experiment, Executes about its commands in a runner, Reads, AllReads
--     and ReadLoop about the loop of the second experiment, Reports and Prints about what its commands
--     print, Finish and Experiment about that experiment to its end, MainRun about the whole program,
--     and Exit about the exit code.
-- And with those below src/lab3:
--   DeviceServer/Command: src/command.c.
--   DeviceServer/CommandManager: src/command_manager.c. Add, Send, Table
--     and AnyMemory are about its operations, Spacing, Owned and Leaks about the blocks that a manager
--     allocates and frees.
--   DeviceServer/TransportServer: src/transport_server.c. Requests is about one request
--     (with Memory), Sending about its reply, Closing and Thread about the thread from its start to its end.
--   DeviceServer/Program: tools/eie_device_server/main.c.
-- And below src/proyecto/eie_device:
--   EieDevice: src/eie_device.c without its handlers of events; EieDevice/Calls is about its calls.
--   EieDevice/Messages: the handlers of src/eie_device.c.
--   EieDevice/Program: tools/eie_device/main.c; EieDevice/Startup is about its run (with Keys).
-- A C function goes by its own name, in lower case (`server_exec` for `serverExec`). A static
-- execute or read function is a constructor of the type of its pointer, and its body a definition
-- (`msg_cmd_exec` for `msg_cmd_exec_fn`, `level_read` for `level_sensor_read`). The C field `data`
-- of a command is `priv`.
--
-- Memory. A block goes by the number of its allocation, and the process keeps the list of allocated
-- blocks; each allocation may fail (`oom`). Freeing or reading a block that is not allocated, calling
-- through NULL, and printing or measuring a string that is NULL or not terminated are faults. A
-- pointer (`Ptr`) carries the contents of its object, since the code writes these objects only while
-- it sets them up; the queue, which it goes on to write, is state of the system. A block holds
-- arbitrary bytes (`junk`) until it is written, and reading a string past its end is a fault.
--
-- Threads. A step is the code between two operations that other threads can observe; `sem_wait` is a
-- step that is possible only while the semaphore is positive, and `pthread_mutex_lock` one that is
-- possible only while the mutex is open. The histories of a system (appended, taken, executed) are
-- not in the code. The interleaving assumes that a mutex which was initialised reports no error
-- (`AreSound`) and that `sem_wait` is not interrupted by a signal. What `command_execute` does inside
-- the consumer is the sequential model of SensorCommands/Command.
--
-- A program that uses a runner (`Talk`) runs up to a request: to create the consumer thread, to send a
-- command, or to join the thread. An answer is the result of the request and what the other threads
-- have written by then (`play`). The blocks of the queue's nodes are not in the memory of the program.
--
-- The transport server is given what `zframe_recv` and `zframe_send` answer, up to the interrupt. A
-- frame is a list of bytes, and a number of four bytes is little-endian. Its main thread only sleeps and
-- joins.
--
-- Libraries. uthash and utlist, of which the repository holds copies, are parameters with their
-- documented laws; association lists and lists satisfy them. cJSON is a parameter, for each program
-- with the functions that it calls, and so is MQTTClient, over the state of the connection. The
-- memory of cJSON and of the buckets of uthash is not counted, but the handler of messages is
-- modelled with the documents that are allocated. The answers of `getopt`, of the thread functions
-- and of the version functions, which the build generates, are arguments, and so is what a callback
-- function writes. `*return_buff` of the device server is either a block or the text that
-- `cJSON_Print` made. `realloc` with size 0 frees, as in the GNU C library.
--
-- The loops run over a list, or over the rounds that are left, and the consumer's endless loop is a
-- sequence of steps. Only the loop over `getchar` takes fuel, a number of rounds: it is enough from the
-- first Q or q on, and no number is enough where the input has none. Sizes and counts are
-- natural numbers; the bounds are that of a queue's size against SEM_VALUE_MAX, the sizes of the
-- blocks that strings are copied to, PATH_MAX, and that of the `int` in which the server keeps the
-- offset of a payload. A reading is a `double` that was an `int`, and is an integer here. `ftell`
-- answers the length of the file.
--
-- `cJSON_Parse` is given the bytes of the block with the configuration file, which has no room for a
-- terminator, and may read on behind them, a fault. The results about a configuration file that reads
-- as a document have as a hypothesis that cJSON finds its end in these bytes.
--
-- Not modelled: messages on standard error; the Python packages; src/sensor/analyzers, which is
-- empty; and the copies of uthash and utlist, which are parameters.
pub mod SensorCmds
pub mod Options
pub mod Base
pub mod Process
pub mod Uthash
pub mod Utlist
pub mod Cjson
pub mod Files
pub mod SensorCommands
pub mod DeviceServer
pub mod EieDevice
