-- ===== src/Lib.antt =====
-- A chat server and its terminal client, in C: server/src/chatserver.c, server/src/file_queue.c,
-- server/src/log.c, client/src/chatclient.c and client/src/termios_input.c, with their headers.
--
-- The parts, and where they are
--
-- The server keeps two tables of pointers, `connections` and `rooms`, and a queue of uploaded files.
-- `main` accepts a client, agrees on a user name with it and puts it into the first table; from then on
-- a thread of its own, `client_handler`, reads its commands, and writes to the notify sockets of other
-- clients. `/sendfile` puts a file into the queue, from which worker threads take it. The client reads
-- keys in raw mode and edits a line, which it hands to `process_command` on return; a second thread,
-- `recv_thread`, shows what the server sends and saves the files among it.
--
--   Common, CString       lists, options, tests on numbers; the C string functions that the code calls
--   Disk                  files by name, as the client and the log write them
--   Log                   log.c: time stamps, the path of the log file, log_write
--   Queue                 file_queue.c: the ring buffer, one function per function of the source
--   Queue/Threads         the same functions among threads that wait and are signalled
--   Server                chatserver.h: the tables, the heap they point into, and the actions on them
--   Server/Message        the texts that the server sends and logs
--   Server/Names          is_valid_username, is_valid_roomname
--   Server/Rooms          room_find, room_create, room_add_member, room_remove_member, room_broadcast
--   Server/Connections    find_slot, find_connection, find_free_slot, remove_connection and
--                         broadcast_message_via_notify
--   Server/Handler        client_handler: its commands; Upload is /sendfile, Loop one round, the start
--                         of the thread and its clean-up
--   Server/Start          main up to its accept loop, and that loop around the handshake; Ready is
--                         when the start succeeds
--   Server/Accept         the handshake in main
--   Server/Spawn          main and the new thread that it waits for, a step at a time, also if the
--                         thread comes to the mutex before main has initialised it
--   Server/Worker         file_upload_worker
--   Server/Shutdown       handle_sigint, and main behind its accept loop; Interrupted is what may come
--                         between the calls of a goodbye
--   Server/Steps          handshakes, threads and workers, one step after another in any order
--   Server/Threads        the same with `/join` and the clean-up cut at their calls: Reached is what
--                         always holds, Safe which calls are defined, Stale and Emptied what goes
--                         wrong; Frames, beside it, is what a thread keeps of the connections and of
--                         the upload queue
--   Server/Uploads        what the upload queue holds, whichever thread takes its turn
--   Server/Life           the start, the turns of all threads and the shutdown together
--   Terminal              termios_input.c and the key loop of the client's main; Raw is raw mode,
--                         Editing/Typing a line typed without editing keys
--   Client                the client's events and texts; Commands is process_command, Receiver is
--                         recv_thread, Login the start of main, Main the rest of main, Exit
--                         on_exit_signal
--   Client/Requests, Client/Main/Session, Client/Sending, Client/Login/Agreement,
--   Client/Receiver/Arrival, Client/Travel
--                         the client and the server together: each takes what the other sends
--
-- How the code is modelled
--
-- An action of the server takes the state and gives a result and the new state, or `none` where C leaves
-- it undefined: a read through NULL or through a pointer to freed memory. That an action returns is
-- therefore part of what is proved of it. A heap object is found under an address, a natural number;
-- `calloc` and `malloc` are arguments, `none` being NULL. What the process sends, writes, logs and
-- closes is a list of events, newest first. The client's functions give their events in order, and
-- `none` in the same way. Strings are lists of bytes without their terminating zero, buffers are lists of
-- their full length. The queue's indices are 64-bit, with the wrap-around of their addition written
-- out. What `select`, `recv`, `read`, `stat`, `fopen` and the calls that open sockets give are arguments;
-- so are the time, and `basename` of the C library.
--
-- The loop of `recv_thread` that looks for a free file name runs on fuel, one unit for a call of
-- `stat`; one more than there are files is enough while the name has room to grow; for longer names
-- the loop of the code itself may not end. No other loop needs fuel: each runs over an array, a
-- string, the data received, or the results of its calls of `read` and `write`.
--
-- A function that holds a mutex throughout is one step. The calls of the queue are interleaved at that
-- grain. In Server/Steps a round of a client's thread is one step. Server/Threads cuts a round with
-- `/join` and the clean-up into their calls, and `room_create` between its search and its insertion,
-- so that other threads come between. There `room_remove_member` is one call; its gap, between its
-- test that nobody is left and the removal of the room from the table, is cut in Emptied alone, for
-- the code does not work with other threads in it. The reads that `/whisper` and `/leave` make between
-- their calls are not cut. A thread that waits on a full queue inside `/sendfile` ends its round with
-- `waits_full`; in Server/Threads it tries again in a turn of its own, and other turns are not ruled
-- out for it, so that what is proved there is proved of more than the code can do. A worker looks its
-- recipient up and writes to it in one step; that the code lets go of the mutex in between is the
-- subject of a theorem.
--
-- The shutdown takes its steps, from the sentinels to the last goodbye, with no other thread in between,
-- though the code holds no mutex there: another client may queue a file between two sentinels, so that
-- `main` waits, or end its thread between two calls of its goodbye, which is the subject of a theorem. A
-- mutex of zero bytes that has not been initialised counts as a free one, which POSIX does not say.
--
-- What is not modelled: the sockets themselves, so that what one side sends is an argument of what the
-- other receives; pthread_join; the text of perror on the server; two threads of the
-- client that draw at the same time. Failures of `send` and `write`, which the code ignores but in the
-- worker's loop, have no event.
pub mod Common
pub mod CString
pub mod Disk
pub mod Log
pub mod Queue
pub mod Terminal
pub mod Server
pub mod Client
