-- ===== src/Lib.antt =====
-- A net disk: a server that keeps users' files and a client at a terminal (NET_DISK_TASK); the thread
-- pools that went before it, with their clients (thread_poll_task: SERVER_QUIT_WAIT_TASK and client, and
-- the transfer by sendfile of SERVER_SENDFILE_QUIT_WAIT and client_sendfiile); and, of the course's
-- exercises, a template for linked lists with the chat server over it
-- (wangdao/20180704/group_chat_task), the ls that sorts with it (wangdao/20180621/ls_task), a buffer
-- between two threads (wangdao/20180707/cus_pro_queue.c), a pool of processes
-- (wangdao/20180707/process_poll_server), walks over a tree of files (wangdao/20180624/BFS_File.c,
-- wangdao/20180621/finddir.c and printFile.c), and ticket
-- windows (wangdao/20180702/pthread_sale_tickets.c and, as processes,
-- wangdao/20180628/sale_tickets.c). The other exercises, the other variants of the thread pool and the
-- earlier versions in 20180709 are not modelled.
--
-- The client logs in with a name and a password, then sends one command at a time: cd, ls, remove,
-- pwd, gets, puts. The server's main thread accepts connections, reads whole messages and puts tasks
-- into one of two queues; shell workers answer the directory commands and the logins from a MySQL
-- database, file workers move files. While a task of a client is under way the client is marked in a
-- table, and the main thread leaves its next message unread.
--
-- Files of this library, and what they model:
--   Base            shared names; Base/Outcome: a run that ends or meets undefined behaviour;
--                   Base/Int: `int` and `long`; Base/Text: C strings and the functions on them;
--                   Base/Bytes: numbers in memory
--   Memory          pointers and memory of nodes of one type: read, write, free
--   Queue           NET_DISK_TASK/SERVER/src/work_queue.c over a heap of nodes (Queue/Store); a
--                   Queue is the struct less lock and condition variable, and each function runs
--                   under the lock; Queue/Fifo, Marker and Delete relate it to a list
--   Socket          NET_DISK_TASK/SERVER/src/r_s_api.c: `send_n` and `recv_n` against a list of the
--                   kernel's answers; the client's copy has the same text
--   Wire            messages, bytes and files as the transfers use them: streams of results, one for
--                   each call
--   Server          NET_DISK_TASK/SERVER/src/server.c: Log, Table and Path are the parts that its
--                   handlers share; Shell, Account and FileTask are the handlers, and Account/Users
--                   relates the login to the table of users; Worker and FileTask have the bodies
--                   of the two worker loops; Transfer has `send_file` and `recv_file`;
--                   Database is NET_DISK_TASK/SERVER/src/database_api.c
--   Server/Loop     the loop of NET_DISK_TASK/SERVER/src/main.c with the workers, as a step relation
--   Server/Start    the start: the configuration file and the head of `main` in
--                   NET_DISK_TASK/SERVER/src/main.c, `server_init`; Server/Connection is the head of
--                   database_api.c
--   Server/Exit     the start, the waits and the ends of the workers: the head of the worker loops in
--                   server.c and the exit branch of main.c, with a schedule as the list of the workers
--                   that make a turn
--   Client          NET_DISK_TASK/CLIENT/src: Parse, Login, Transfer and Work are client.c, and the
--                   turn of Work is the loop of main.c
--   Exchange        both ends of gets and puts together: one side's `send_file` with the other's `recv_file`
--   ThreadPool      thread_poll_task/SERVER_QUIT_WAIT_TASK/src: the threads of factory.c and main.c and the
--                   exit that waits for their tasks, as turns of the threads that a schedule lists
--   ProcessPool     wangdao/20180707/process_poll_server: the children and what the parent knows of them, as a
--                   step relation; Everyone is about invariants of every child, Busy about the table,
--                   Leave about the order to exit
--   Train           the file that such a worker sends: thread_poll_task/SERVER_QUIT_WAIT_TASK/src/tran_file.c and
--                   the client thread_poll_task/client/src; Sent is the server's side, Received, Ended,
--                   Whole and Cut the client's
--   Sendfile        the transfer by `sendfile`: thread_poll_task/SERVER_SENDFILE_QUIT_WAIT/src/tran_file.c
--                   and the client thread_poll_task/client_sendfiile/src; Short is about the content, Received
--                   and Whole about both ends together
--   BroadcastPool   thread_poll_task/SERVER_SENDFILE_QUIT_WAIT/src/main.c: its workers, its connections and the
--                   exit by a broadcast, as turns over the tasks in memory; Counts, Exiting and Ends are about the
--                   exit, Stale about a task that is served again
--   Ring            wangdao/20180707/cus_pro_queue.c: the buffer of a producer and a consumer
--   LinkList        wangdao/20180704/group_chat_task/LinkList.c over any type of data; Shape says which
--                   list stands in memory, and Insert, Sorting, Delete, Clear and Count relate the
--                   functions to it. The copy in ls_task has the same functions less the searches
--   Bfs             wangdao/20180624/BFS_File.c, with the nodes of LinkList: Queue and Round relate memory to a
--                   list of files, Level relates the walk to the levels of the tree
--   DepthFirst      wangdao/20180621/finddir.c and printFile.c: the listing of a tree and the search in it
--   Tickets         wangdao/20180702/pthread_sale_tickets.c: the threads under every order of turns; Count
--                   is about the tickets, Wait about the end
--   TicketProcesses wangdao/20180628/sale_tickets.c: two processes under every order of turns
--   Chat            wangdao/20180704/group_chat_task/server_group_chat.c: a round of the loop over `select`;
--                   Turn, Walk and Closed are about the walk along the clients
--   Ls              wangdao/20180621/ls_task/ls.c: names, permissions, and the sorted listing
--
-- Undefined behaviour (a write or read past an array, a NULL or dangling pointer) is `fault` (`broken`
-- where a run may also wait for ever, in Train and
-- Sendfile), so the
-- capacities of the source's arrays are tests in the model. Where the outcome depends on unused bytes
-- behind an array, their number is a parameter (`slack`, `room`). Texts are lists of bytes up to the
-- NUL; the command line of the client is a whole array, because its parser runs over the zeros.
--
-- Parameters: the database (from its state and a statement to its next state and rows), `crypt`,
-- `rand`, the digest of openssl, the kernel's answers, the clock. Nothing is assumed of them but what
-- a theorem's hypotheses say. For ls, the tree and the chat also what `malloc`, `opendir`, `readdir`,
-- `stat`, `recv` and `accept` return, and the names of users, groups and times. A scheduler is the list of
-- the threads that make a turn, or a step relation allows every order.
--
-- Fuel: the loops that wait for a peer or a user run on fuel (`recv_loop`, `login_loop`,
-- `copy_word`, `queue_delete`), and `none` says that it ran out. Theorems that need an end name the
-- fuel that is enough: one round more than calls of `recv`, nodes of the queue or bytes of the word.
-- `download` runs on fuel too; one round more than there are pieces of the file is enough;
-- `recv_file` takes a round for each call of `recv`.
-- The walks along a linked list (LinkList, Ls, Chat, Bfs) fault where their fuel runs out; one round more
-- than there are nodes, or files in the tree, is enough, and the theorems about them show that they do
-- not fault then.
--
-- Not modelled: setting up sockets and epoll, what is printed to a terminal but for the listings,
-- wake-ups of a condition variable without a signal, and connections beyond the table's slots.
-- A database lock is held around single statements only; the handlers are taken as one step each.
pub mod Base
pub mod Bfs
pub mod BroadcastPool
pub mod Chat
pub mod Client
pub mod DepthFirst
pub mod Exchange
pub mod LinkList
pub mod Ls
pub mod Memory
pub mod ProcessPool
pub mod Queue
pub mod Ring
pub mod Sendfile
pub mod Server
pub mod Socket
pub mod ThreadPool
pub mod TicketProcesses
pub mod Tickets
pub mod Train
pub mod Wire
