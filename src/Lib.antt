-- ===== src/Lib.antt =====
-- Models and proofs for the programs of a system programming course, written in C.
--
-- Final/src is a client, a server and servants that talk over sockets. The server queues the
-- connections it accepts, worker threads take them from the queue; a servant registers itself with
-- the range of the cities whose transactions it holds, and a client asks how many transactions of
-- a type there were between two dates, in one city or in all.
--   Final/Structs.antt, Final/Structs/Sorting.antt: Final/src/structs.h and structs.c.
--   Final/Queue.antt: Final/src/queue.c, over an explicit heap, and the clean-up loop of server.c.
--   Final/Search.antt: the data searching functions of Final/src/lib.c.
--   Final/Words.antt: split_str of Final/src/lib.c and get_date of structs.c.
--   Final/Client.antt: Final/src/client.c, from the file of requests to what the threads send.
--   Final/Servant.antt: the answer of Final/src/servant.c to a query; Final/Servant/Files.antt its
--   data files, Final/Servant/Folders.antt its folders and the loading of the data set.
--   Final/Server.antt: Final/src/server.c, handling of one request.
--   Final/Pool.antt: Final/src/server.c, its main loop, worker threads and shutdown, interleaved.
--
-- Midterm/src is a server that tells clients whether a matrix is invertible.
--   Midterm/Matrix.antt: Midterm/src/matrix_math.h, with the Matrix of structs.h.
--   Midterm/Server.antt: Midterm/src/server.c, server Y: a parent that hands requests to its workers
--   through a pipe, or to server Z while the pool is busy.
--   Midterm/Reading.antt: the loop by which both servers read a request, which may come in parts.
--   The step of the parent of server Y takes requests that are read whole.
--   Midterm/Backup.antt: Midterm/src/backup_server.c, server Z, with shared memory for its workers.
--   Midterm/Client.antt: Midterm/src/client.c, its file and its log.
--   Midterm/Together.antt: both servers, where Z reads what Y writes.
--
-- Hw1/src applies rules, such as /old/new/i, to the lines of a file.
--   Hw1/Replace.antt: replace of Hw1/src/string_manipulation.c. Hw1/Rules.antt: the parsing of the
--   rules, there and in structs.c, over what stands behind the words.
--   Hw1/File.antt: read_from_file of Hw1/src/lib.c, over what its uninitialised array holds.
--
-- Hw2/src is a parent that starts a child for each ten points of a file, and looks for the closest of
-- the matrices that the children write.
--   Hw2/Closest.antt: the search in Hw2/src/main.c. Hw2/Results.antt: the file of results, which
--   Hw2/src/child.c writes and main.c reads.
--
-- Hw3/src/unnamed is a wholesaler, four pushers and six chefs, processes that share semaphores and
-- memory: the wholesaler delivers two ingredients, the chef that lacks them makes a dessert.
--   Hw3/Kitchen.antt: wholesaler.c, pusher.c and chef.c as a step relation. Its modules follow an
--   order through its phases: Delivery the wholesaler, Turns the pushers, Service the chefs.
--
-- Hw4/src/main.c is a supplier thread and consumer threads: the supplier posts twice for each
-- character of a file, a consumer takes two of each kind at once.
--   Hw4/Supply.antt: the threads as a step relation, with the array of operations that they share.
--   Hw4/Supply/Clean.antt: the runs in which each call of semop copies what its own thread stored.
--
-- Hw5/src/main.c multiplies two matrices and transforms the product, in threads that meet in between.
--   Hw5/Rendezvous.antt: the meeting of the threads.
--   Hw5/Product.antt: the product, the transform and the gathering, with structs.h;
--   Hw5/Product/Input.antt the reading of the files.
--   Hw5/Partition.antt: the rows of each thread, divided in double.
--
-- How the code is read. A C string is the list of its bytes before the NUL (Base/Text.antt, with
-- strcmp and atoi). An int is an integer (Base/Int.antt), or a natural number where the code only
-- counts. The int arithmetic of Midterm/src on numbers that the user gives wraps at 32 bits
-- (Base/Machine.antt); elsewhere bounds are hypotheses or theorems where the code relies on them. A
-- loop over an array is a recursion on its rounds and on the array; a walk along pointers takes
-- fuel, and its theorem says how much is enough. Functions that change globals return the changed
-- state. Threads and processes that share memory are step relations, in which a section under a
-- lock is one step; where a part is modelled by itself, the other processes, the network and the
-- file system are parameters. Output on the terminal is left out.
--
-- Not modelled: system call wrappers, the daemon of Midterm/src, socket set-up, printing, and
-- allocation failure where the code does not test for it; the reading of the points in
-- Hw2/src/main.c and the covariances of Hw2/src/child.c; Hw3/src/named, which runs
-- processes like those of Hw3/src/unnamed over semaphores opened by name.
pub mod Base
pub mod Final
pub mod Hw1
pub mod Hw2
pub mod Hw3
pub mod Hw4
pub mod Hw5
pub mod Midterm
