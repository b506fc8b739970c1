-- ===== src/Lib.antt =====
-- A model of the programs of this repository that hold logic of their own, and the theorems that
-- make them correct. The repository collects examples for Linux and Unix programming; each program
-- is one C file with its own main, and the parts below do not call each other.
--
-- Common holds what all parts share. A C function that can fault returns an `Outcome` (Common/Faults):
-- `ok`, an undefined access as a `fault`, the end of the process as `exit`, or `out_of_fuel`, which
-- only a loop with a fuel argument can give. Bytes are numbers; an array is a list, as long as the
-- array is; a pointer into an array is the part of the list from there on, so that a read past
-- the end is a read of the empty list. Common/Decimal is the %d of printf and scanf without sign.
--
-- System holds the calls of the operating system as interfaces. System/Writer is a descriptor that
-- takes bytes: how many a call takes is the environment's choice, as is failure; `IsWriter` states
-- what send(2) and write(2) document. System/Chunked is an instance for examples.
--
-- Http models 11_Network/select/http_server.c. Http/Token is GetToken (`skip` and `scan` are its
-- inner loops, `rounds` the outer one); Http/Send is SendBlock and SendBuf; Http/Header is
-- SendHTTPHeader, with gmtime and strftime as the parameter `Calendar`; Http/Request is httpd, with
-- `Locals` for its variables, `read_header` for the loop, `answer` for what follows; Http/Main is main:
-- `child_loop` is the session of a child, `parent_round` the parent's descriptors. The loops of
-- SendBlock and SendBuf take as fuel one more than the bytes to send, since a call that succeeds
-- takes at least one byte; `read_header` takes one unit for each byte of the request. Not
-- modelled: the output on stdout and sizes beyond int. `httpd` works on the reads that the socket gives, and
-- returns those that its stream has not made.
--
-- MsgQueue models 09_IPC/msq_server.c with 09_IPC/msq_header.h, and
-- 09_IPC/msq_client.c. MsgQueue/Registry is the linked list of clients on an explicit heap, where the
-- result of malloc is an argument and a freed node is no longer readable; MsgQueue/Messages
-- formats and scans the messages; MsgQueue/Server is verteilen and the body of the main loop, with
-- msgsnd as the parameter `Queues`; MsgQueue/Client is main of the client. A loop along the list takes more fuel than the list has nodes.
--
-- Shm models 09_IPC/shm_server.c, 09_IPC/shm_client.c and 09_IPC/shm_header.h: `Step` has a
-- constructor for each piece of code that a process runs between two calls on the semaphores, `End` is
-- exit in a client with what SEM_UNDO does, and `Run` is any sequence of steps, so that every
-- interleaving is covered. A call of locksem that would wait is no step.
--
-- Select models 11_Network/select/multi_server.c: `round` is the body of the loop, `Events` what the
-- system calls of a round give. The table is a list of any length instead of FD_SETSIZE entries.
--
-- Transfer models the file transfer of 11_Network: `send_file` is the client of
-- 11_Network/parallel_server/client2.c for one file, `copy_or_close` is server2.c (and the child of
-- pserver.c) beside it on one connection, `copy_on` is copy of 11_Network/thserver.c. Their loops take
-- more fuel than bytes are left. Transfer/Servers has the mains around them; a thread runs before the
-- next connection is accepted.
--
-- Files models 02_Files/cpy_file.c (Files/Copy), 02_Files/backward.c (Files/Backward) and
-- 03_Attributes/my_stat.c (Files/Rights).
--
-- Terminal/Speed models 13_Terminal/baud.c and 13_Terminal/setbaud.c, over a terminal `Tty` and constants of
-- termios that are parameters.
--
-- Devices models 05_Devices/cdrom.c: `Drive` is what the calls of ioctl answer, `choose` an entry of
-- the menu, `menu_loop` the loop on the numbers that are typed.
--
-- Signals models 08_Signals/sig_sync.c: `parent_step` and `child_step` are the pieces of code between
-- two points at which the other process can be noticed, `Reach` every interleaving of them.
--
-- Semaphore models 09_IPC/sem.c: `Step` is a call of one of any number of processes.
--
-- Printing models the printer service of 09_IPC: `gather` is the loop of printme.c, sender.c, client.c and
-- popen2.c that collects lines in an array, with one unit of fuel for each byte of stdin; `printme_main`,
-- `sender_main` and `request_of` are what stands around it; `serve_round` is the loop of server.c on what
-- read gives, with its arrays. Printing/Mail is popen2.c, over a shell that is a parameter. The request of
-- client.c is the input of server.c. mkfifo and the waiting for a FIFO are left out.
--
-- Filter models 09_IPC/filter.c: strtok as the list of words, strstr as the C library describes it, and
-- `output` with the mask.
--
-- Handlers models 08_Signals/sig.c: the dispositions of signals as a list of actions, `run_check_sig` the
-- handler with its menu, `sig_main` main on the signals that arrive.
--
-- Threads models programs of 10_Threads: Threads/Sum is thread13.c; Threads/Lines is thread5.c, thread6.c and
-- thread8.c, which differ in the mutex; Threads/Cancel is thread14.c; Threads/Condition is thread12.c, where a thread can return from
-- pthread_cond_wait without a signal. A step is one access to what the threads share, and `Reach` is any
-- interleaving.
--
-- Addresses models 11_Network/addr.c: a 32-bit address is a number, `ntohl` changes the order of its bytes,
-- and the functions of the C library that take an address apart are written out.
--
-- Select/Talker is 11_Network/select/client3.c over a network that is a parameter, and Select/Talker/Heard puts it
-- and the server together.
--
-- Files/Dup models 02_Files/dup_fd.c: descriptors stand for open files, which have the offset, so that two
-- descriptors can share it, and what a call of write takes is a parameter. Files/Trash uses the same files for the two processes of 02_Files/trash.c.
-- Files/Walk models 02_Files/ftwalk.c, whose loop over the slashes has as fuel one more than the path's length.
--
-- Terminal models programs of 13_Terminal besides the speeds: Terminal/Keys is keystroke.c, Terminal/Getch
-- my_getch.c, Terminal/Password my_getpass.c, all on the attributes of Terminal/Attributes; Terminal/Windows is
-- cur15.c, on the clicks of the mouse, and Terminal/Ship is cur10.c and cur11.c. `getch_main` runs on what
-- is typed around each call of getch, and waits behind the last.
--
-- Not modelled: programs that are a sequence of calls of the system or of a library with nothing computed in
-- between (most of 04_ProcFs, 06_SystemFiles, 07_Processes, the datagram and multicast programs of 11_Network and
-- the other curses programs of 13_Terminal), 17_Tools, which shows how to build libraries, and web_pages, which
-- holds saved pages. In the programs that are modelled, failures of calls whose branch only prints a message
-- and ends are left out where the component's comment says so.
pub mod Common
pub mod System
pub mod Http
pub mod MsgQueue
pub mod Shm
pub mod Select
pub mod Transfer
pub mod Files
pub mod Terminal
pub mod Devices
pub mod Signals
pub mod Semaphore
pub mod Addresses
pub mod Printing
pub mod Filter
pub mod Handlers
pub mod Threads
