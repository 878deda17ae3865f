-- ===== src/Lib.antt =====
-- The programs of a course in network programming, written in C: a chat with a central server
-- (pro/src), two parallel file downloaders, over TCP (HW3) and over UDP (HW4), an HTTP proxy (hw5),
-- a tool that makes an HTTP request (hw1) and a remote executer of commands (hw2).
--
-- Parts and files.
-- - Prelude: the shared types and lemmas. Prelude/Faults has Result: a value, or the fault that the C
--   code runs into (a NULL pointer followed, a write or read outside a block, a cell that was never
--   written, a number outside `int`, too little fuel).
-- - Libc: the functions of the C library as far as the programs call them: strings with their NUL
--   (Libc/Str), strtok (Libc/Tok), %d, atoi and atol (Libc/Number), the %s of sscanf (Libc/Scan),
--   strstr (Libc/Find), fgets (Libc/File).
-- - Args: pro/src/util.c, of which the other programs have copies. Args/Programs has the tests of the
--   command line of each program, Args/Listening the chat server's port, and Args/UserName what a
--   client's accepted name is for the server.
-- - DynArray: the arrays of pointers of pro/src/dynamicarray.c, initArray to popItem. A block is a list
--   of cells; reads and writes outside it are faults. DynArray/Refine says which list an array holds.
-- - Chat/Lists: the rest of pro/src/dynamicarray.c: findItem, printList, and the list of names.
-- - Chat/Protocol: pro/src/myprotocol.c, the text of each command.
-- - Chat/Server: command_response of pro/src/server.c, a function for each of its branches.
--   Chat/Server/Room is the room that the server promises: who waits, which names are in use, and what
--   each command does to them. Chat/Server/Parts and Chat/Server/Refine compare the two;
--   Chat/Server/Race lets the threads' critical sections interleave, and Chat/Server/Accept main's loop
--   over accept with the starts of the threads.
-- - Chat/Wire: a command from the client's format function to the server's answer.
-- - Chat/Client: pro/src/client.c and pro/src/client_util.c. Chat/Client/Replies reads the server's
--   replies, Chat/Client/Input handles a line of input, ^C and the threads' ends, as functions from the
--   globals to the globals and a list of actions on the terminal and the sockets. Chat/Client/Threads
--   interleaves them, and Chat/Client/Messages is what a peer's thread shows.
-- - Transfer/Jobs: job_list_t of HW4/mydatastructure.c. Transfer/Ranges: createJobsList of
--   HW4/client.c. Transfer/Stream: server_upload_file of HW3/mysocket.c, with download_single_part
--   of HW3/client.c. Transfer/Combine: the loops of combine_file of HW3/client.c and combinefile of
--   HW4/client.c.
-- - Transfer/Session: a connection of HW3: the requests of HW3/mysocket.c and the loop of HW3/server.c.
-- - Transfer/Serving: the loop of HW3/server.c over its connections.
-- - Transfer/Servers: read_server_info and clean_server_info of HW3/client.c, with what stands behind
--   the last server of the list.
-- - Transfer/Table: main's connections, download_file and thread_download of HW3/client.c.
-- - Transfer/Tcp: main of HW3/client.c, from the connections to the download or the farewell, without
--   clean_server_info.
-- - Transfer/Pool: server_list_t of HW4/mydatastructure.c, and thread_download and udp_download_file of
--   HW4/client.c: `advance` runs one section of a thread, between two places where another may run.
--   Transfer/Pool/Interleave lets any thread run next.
-- - Transfer/Udp: main of HW4/client.c behind query_file_exist: the start of the workers, the files
--   temp.i that they write in any order of their sections, and combinefile.
-- - Transfer/Finding: main of HW4/client.c up to the test of query_file_exist's result.
-- - Transfer/Listing: process_server_info of HW4/client.c.
-- - Transfer/Handshake: verify_address_available and query_file_exist of HW4/client.c, on what recvfrom
--   gives.
-- - Transfer/Requests: the requests of HW4/client.c and the loop of HW4/server.c's main.
-- - Transfer/Datagram: the loop of upload of HW4/server.c.
-- - Remote: the loops of hw2/client.c and hw2/server.c, and execute of hw2/executer.c.
-- - Http: hw1/hw1.c: the request of a URL (Http), the reads of the response (Http/Response), and the
--   removal of its head (Http/Body).
-- - Proxy: hw5/dynamicarray.c, and thread_proxy of hw5/proxy.c: Proxy/Sites for the file of sites,
--   Proxy/Filter and Proxy/Errors for the filter and the error responses, Proxy/Request for the checks
--   of a request, Proxy/Relay for the response's way to the browser, Proxy/Thread for the loop over what the browser sends. The results
--   of the calls on the sockets, gethostbyname and strftime are the records World and Exchange.
--
-- The client and the server meet in the texts of the protocol only: a message is a block of bytes, and
-- each read gives one whole message. A line's environment (what listening, the server's replies and
-- the peer's connection give) is a parameter of Chat/Client/Input, and the address of a connection's
-- peer one of Chat/Server. Each message is one step of the server, as its locks mean it to be;
-- Chat/Server/Race takes the sections apart that are not under one lock.
--
-- Loops run on the count of their rounds, or on fuel that the definition itself supplies:
-- server_upload_file and upload_part have one more round than the bytes asked for, and a round sends
-- 1023 or 1024 of them; send_lines, copy_body, read_server_info, process_server_info and load_sites
-- have one more round than the bytes of their text, and each round but the last reads some. An `int`
-- is an integer with its range as a hypothesis where it is read; size_t wraps at 2 ^ 64 where the code
-- relies on it.
--
-- Where the code reads or writes memory that it does not own, the operation is a fault. Three such
-- places come with a parameter for what the memory happens to be, which is nothing where one takes
-- the language at its word: the arrays pre_ip and pre_port of process_server_info, the pointer name
-- of download_single_part, and the bytes behind the buffer of combine_file and combinefile.
--
-- What bind gives for a port is a parameter of Args/Listening, and the descriptor in talk_fd one of
-- Chat/Client/Input. The regex library, inet_pton, inet_aton and the directory of files are
-- parameters of Args and Transfer.
--
-- Not modelled: setting up sockets and threads, freeing memory, the addresses of getclientIP and
-- getlocalIP, the file that remotelog appends to, a file that cannot be opened for writing, and what
-- else the programs' main functions do.
pub mod Prelude
pub mod Libc
pub mod DynArray
pub mod Args
pub mod Chat
pub mod Transfer
pub mod Proxy
pub mod Http
pub mod Remote
