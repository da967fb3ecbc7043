-- ===== src/Lib.antt =====
-- The C runtime of Mellivora OS (c/rt), the library its C programs and C kernel modules are linked
-- with, and its package manager (tools/hbpkg.c), as functions with proofs about them.
--
-- The system is a 32-bit x86 kernel in assembly (kernel, kernel.asm) that loads programs. A C program
-- is linked with the runtime: c/rt/start.c calls main and exit, c/rt/malloc.c is a heap on SYS_SBRK,
-- c/rt/string.c and c/rt/utf.c are pure routines over bytes, c/rt/stdlib.c has the conversions, search
-- and sorting, and c/rt/stdio.c, c/rt/time.c, c/rt/posix.c and c/rt/thread.c stand on system calls. The parts
-- modelled here are those with logic of their own below the system calls.
--
-- Which file models what:
--
--   Base and its children    shared: three-way results (Cmp), lists (Lists), 8-, 16- and 32-bit words
--                            (Words), bit masks of bytes (Table, Digit), signed numbers (Int), orders (Order)
--   Utf                      c/rt/utf.c: mv_utf8_decode is utf8_decode, mv_utf8_encode is utf8_encode,
--                            mv_utf16_len is utf16_len, mv_utf8_to_utf16 and mv_utf16_to_utf8 are
--                            utf8_to_utf16 and utf16_to_utf8, mv_printw is printw; the children hold
--                            the proofs, Plain a reference encoding without masks
--   Str.Memory               c/rt/string.c: memcpy, memmove, memset, bzero, memcmp, memchr
--   Str.Compare              c/rt/string.c: strlen, strnlen, strcmp, strcoll, strncmp, strcasecmp, strncasecmp
--   Str.Search, Str.Span     c/rt/string.c: strchr, strrchr, strstr, strspn, strcspn, strpbrk
--   Str.Token                c/rt/string.c: strtok_r, strtok
--   Str.Copy                 c/rt/string.c: strcpy, strncpy, strcat, strncat, strxfrm
--   Heap                     c/rt/malloc.c: malloc, free, calloc, realloc, with list_insert, merge_forward
--                            and align8 under their own names; Grow is about malloc, Release about free
--   Stdlib.Sort              c/rt/stdlib.c: qsort, its merge sort (merge, merge_pass, merge_loop) and its
--                            insertion sort (sink, insertion)
--   Stdlib.Search            c/rt/stdlib.c: bsearch
--   Stdlib.Convert           c/rt/stdlib.c: digit_value, skip_space, strtol, atol and their relatives; Short is
--                            atoi of c/rt/malloc.c, Value has the values that digits stand for
--   Stdlib.Process           c/rt/stdlib.c: atexit, mv_run_atexit, abort, and exit of c/rt/malloc.c
--   Stdlib.Numbers           c/rt/stdlib.c: abs and labs (absolute), srand, rand
--   Time                     c/rt/time.c: the zone, days_from_civil and civil_from_days, fill_tm, gmtime, localtime,
--                            mktime, difftime; Time.Format: put, put_num, put_zone, strftime; Time.Leap has the
--                            Gregorian rule that they are held against
--   Stdio.Format             c/rt/stdio.c: out_number and the loop of format_into, over any sink; the parsing of a
--                            directive is read_directive
--   Stdio.Output             c/rt/stdio.c: the sinks, out_char with a buffer (buffer_char) and with a stream
--                            (stream_char, out_flush), vsnprintf, vfprintf and the functions on top of them
--   Stdio.Stream             c/rt/stdio.c: FILE is File; fread and its three sources (read_loop, read_stdin, read_copy),
--                            fgetc, fgets, ungetc; the children: Write (fwrite, fputs, fflush, console_write), Position
--                            (fseek, ftell), Line (getdelim), Open (fopen, mode_flags, fclose), and the proofs
--   Args                     c/rt/args.c: mv_args
--   Package.Order            tools/hbpkg.c: topo_visit, topo_sort
--   Package.Version          tools/hbpkg.c: semver_parse, semver_cmp, semver_satisfies
--   Package.Name             tools/hbpkg.c: sanitise_name
--   Package.Database         tools/hbpkg.c: db_pkg_add, db_pkg_get, db_pkg_installed, db_pkg_remove, cmd_remove,
--                            cmd_audit; Records has the file as a list of records
--   Package.Digest           tools/hbpkg.c: sha256_hex
--   Package.Meta             tools/hbpkg.c: meta_parse_toml; Print writes such a file, as the specification of the parser
--   Package.Install          tools/hbpkg.c: cmd_install, install_files
--   Package.Index            tools/hbpkg.c: db_pkg_list, cmd_list, cmd_search, cmd_info, cmd_upgrade
--   Iface                    c/rt/iface.c: mv_iface_get, mv_iface_query, mv_iface_addref, mv_iface_release and the
--                            functions behind the tables of the two objects
--   Posix.Ctype              c/rt/posix.c: isdigit to tolower
--   Posix.Calls              c/rt/posix.c: open (open_path), creat, read to fcntl, unlink to chmod, fork, execve; Report has
--                            how they report a failure
--   Posix.Getopt             c/rt/posix.c: getopt; Shift has the reordering, Permute a whole command line
--   Thread                   c/rt/thread.c: the table of stacks (remember_stack, forget_stack), mv_thread_create,
--                            mv_thread_join, mv_thread_detach; Thread.Laws has the calls as a step relation
--   Base.Writer              c/rt/stdio.c: out_text (put_all) and out_repeat (put_repeat), and why what is
--                            written does not depend on the sink
--
-- How state and data correspond:
--
--   - A string that is only read is the list of the bytes before its terminator; the terminator is the
--     end of the list, so reading it is a case of the functions, and a pointer into the string is the
--     rest of the list. A routine that stores is over a memory, a function from addresses to bytes, and
--     its pointers are numbers that do not wrap.
--   - An output buffer of the UTF conversions is the list of the units stored in it. Capacities are
--     32-bit and the sums with them wrap as the source's u32 do.
--   - The heap is the two linked lists of malloc.c, block headers in list order, with addresses and
--     sizes as numbers; the sums the source takes in u32 wrap. What mv_sbrk answers is a parameter, a
--     list of answers in the order of the calls, so that every statement holds for any kernel. The
--     bytes are a memory beside the lists, which calloc clears and realloc copies; the headers are not
--     bytes of it. Where an address is that of no header, free and realloc read the magic number from
--     the memory, whose bytes may imitate one.
--   - An array that is sorted or searched is the list of its elements, which have a size that is not 0
--     and whose size together does not wrap, and the comparison is a parameter. The
--     insertion sort's sorted part is given last to first, since the source walks it backwards. Which of
--     the two buffers the elements are in is a flag, since qsort frees one of them.
--   - An int of c/rt/time.c is an integer, and a sum or a product that can leave its 32 bits wraps
--     (Base.Signed); in C such an overflow is undefined, and on this machine it wraps. What the source
--     keeps unsigned is a natural number.
--   - A sink of the formatter is any state with an operation that takes one byte. A buffer is an address
--     in a memory, with sums of 32 bits; a stream is a parameter with the function that writes to it. The
--     arguments of a format are words, and a parameter has the string behind a pointer.
--   - What the streams ask of the kernel, and of the descriptors of c/rt/posix.c, is a record of functions over a
--     world that they change (Kernel); the piped input and errno are beside it (Process). The flushed buffer
--     of a stream is a list, with its capacity as a number, and the copy of a file is a list too.
--   - A pointer to an interface is the name of one of the two objects, or none; each has its count, its mark
--     in the table of factories, and whether its own table is set.
--   - argv is the list of its words, and getopt's optarg is a word with an offset into it, since the source
--     also points into a word that is not the one it scans. What it says on stderr is left out.
--   - The package manager's arrays of nodes are functions of the index, its database is the bytes of the
--     file, and a text in a record is what stands before the first 0. What the shell commands do to the
--     world, the files that a package brings, and sscanf are parameters; a status that the source drops is
--     not in the model.
--   - The saved pointer of strtok_r is an optional rest of the string.
--
-- Loops over a string or a list recurse on it. Where the source loops without one, the recursion is
-- on fuel: the decoding loops take the length of the string, which is enough since each step consumes a
-- byte or a unit, and the splitting into tokens takes one step more than the length. malloc's retry
-- after mv_sbrk recurses on the answers. The passes of qsort take the length of the array, for the
-- width doubles, and so do the rounds of a pass and those of bsearch, which halve the interval.
-- The digits of a number have as fuel the size of the array they are put in. A line that is read
-- takes a round for each byte of the stream and one more, and mv_run_atexit one for each function.
-- topo_visit takes as fuel one call more than there are nodes, for a node that is in progress is not
-- entered again; a database takes the number of its bytes, and so does a file that is read in lines.
-- cmd_install has the depth of its recursion as fuel, which no bound covers for packages that depend on
-- one another in a circle. The loop over a format recurses on the format, with the number of bytes still to skip.
--
-- Not modelled: llabs, div, ldiv, strdup, strndup and getenv of c/rt/stdlib.c, strerror (a table of texts), mv_putwc (output), and the parts of the runtime that
-- consist of system calls: c/rt/start.c, and of c/rt/posix.c getcwd, pipe, execl, the identities of
-- a process, sleep, wait, the signals and the locale; of tools/hbpkg.c cmd_build, cmd_update and
-- main, which compose shell commands or print; and so far remove, rename and perror of c/rt/stdio.c,
-- mv_thread_exit and mv_thread_testcancel of c/rt/thread.c. The kernel and the programs in assembly
-- are outside.
pub mod Base
pub mod Utf
pub mod Str
pub mod Heap
pub mod Stdlib
pub mod Time
pub mod Stdio
pub mod Args
pub mod Thread
pub mod Package
pub mod Posix
pub mod Iface
