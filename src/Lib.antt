-- ===== src/Lib.antt =====
-- C-Shell-and-Networking: the shell of shell/, the reliable transport over UDP of networking/, and
-- the test program of xv6/.
--
-- The parts and how they interact. The shell reads a line, checks and tokenizes it, splits it into
-- commands and pipelines, runs built-in commands itself and other programs as child processes, and
-- keeps two tables: the log of commands and the jobs in the background. The transport has a client
-- and a server that exchange datagrams: a handshake, the file's name, its chunks one at a time, each
-- acknowledged, and a teardown.
--
-- Base has what all parts share: lists with native indices, C strings as lists of bytes, strcmp,
-- strtol, qsort, integers and their casts to int. One module follows each part of the source:
--   Shell.Log: shell/src/log.c. `log_entries`, `log_count` and `log_start` are the record Log;
--     add_to_log, save_log, load_log and log_get_command_by_newest_index are functions on it. A copy
--     that does not fit its row of 4096 bytes is the outcome `none`. load_log runs on sixteen
--     rounds, one more than the rows. Shell.Log.History is the history that a user sees.
--   Shell.Jobs: shell/src/background.c. The array of jobs is a list beside its capacity; printed
--     lines and kill calls are effects in order. Shell.Jobs.Control has activities, ping, fg and bg.
--     What waitpid and kill answer are arguments; an uninitialised status is the outcome `none`.
--   Shell.Parser: shell/src/parser.c. validate_syntax, tokenize, of which the number of tokens that
--     still fit bounds the loop, and process_command over execute_command as an argument, which may
--     change any state of the shell. Shell.Parser.Dictionary has looks_like_command and is_builtin,
--     which nothing calls.
--   Shell.Redirection: shell/src/redirection.c. The four passes of parse_redirections over the
--     tokens, and apply_redirections; open and dup2 are arguments that step a state of the files.
--   Shell.Pipes: count_pipes and parse_pipeline of shell/src/pipes.c, with parse_log_execute_argv of
--     shell/src/log.c. The commands of a pipeline are a list beside their counted number.
--   Shell.System: the system calls of the shell, a record of operations on an unknown state; it
--     stands for the operating system and has no laws but those that a theorem names. What a child
--     process calls between fork and its end is a list.
--   Shell.Commands: hop and reveal of shell/src/commands.c. getcwd that fails, more than 1000 names
--     and a path of 4096 bytes or more are the outcome `none`.
--     Shell.Commands.Directory has reveal on directories without an order, a quotient of lists.
--   Shell.Exec: execute_pipeline of shell/src/pipes.c and execute_command of shell/src/executor.c
--     over the whole state of the shell. Shell.Exec.Builtins has the dispatch and cmd_log, which
--     calls execute_command again: execute_command runs on fuel, and `unfinished` is the end of the
--     fuel. Shell.Exec.Children has the calls of the child processes, Shell.Exec.Text the text of a
--     background command in its buffer. `crashed` is an access to memory that C does not define.
--   Shell.Loop: one turn of shell_loop in shell/src/main.c, from the line that was read on. The state
--     is the log, the text of its file, whether the next calls of fopen in save_log open that file,
--     and anything else that a command may change. Only save_log writes the file.
--   Shell.Prompt: shell/src/prompt.c, the text of the prompt.
--   Shell.Session: init_shell and shell_loop of shell/src/main.c, get_shell_home of
--     shell/src/utils.c, read_input of shell/src/input.c and the handlers of shell/src/signals.c, over
--     the interface Terminal of Shell.System. shell_loop runs on fuel, one for each line; a session
--     that goes on has no end, so `unfinished` is one of its endings. Shell.Session.Steps has the
--     steps of a shell between two commands, the handlers of signals among them, Shell.Session.Runs
--     the runs of shell_loop as such steps, with execute_command put in; where that does not return,
--     the command counts there as one without an effect. Shell.Session.Waiting and
--     Shell.Session.Stolen have the handlers between fork and waitpid of a program in the foreground.
--   Shell.Jobs.Interrupted: add_background_process one assignment at a time, with the removal of a
--     job by the SIGCHLD handler in between.
--   Sham.Handshake: the 3-way handshake of both programs, up to the beginning of the file mode.
--   Sham.Chat: chat_mode of both programs and their teardown after it. A turn is what follows one
--     return of select; the standard input is what is left to read of it.
--   Sham.Checksum: calculate_md5 of networking/sham.h, over the functions of OpenSSL.
--   Sham.EventLog: setup_logging and log_event of networking/sham.h.
--   Sham.Arguments: the arguments of the programs of networking/.
--   Sham.Client and Sham.Server: networking/client.c and networking/server.c in file mode after the
--     handshake. A step is what a program does between two calls of recvfrom. Sequence numbers are
--     32-bit and wrap. The server's output file can be opened: the return of 0 where it cannot is
--     left out. Sham.Transfer puts both beside a network that loses, repeats, delays and
--     reorders; its runs are sequences of steps.
--   Xv6.Readcount: xv6/readcount.c, over an interface of the kernel's system calls. The counts are
--     ints, and their difference wraps.
--
-- Bounds. The safety of transfers asks that the numbers of one transfer do not wrap: base, name and
-- file together stay below 2^32. execute_command takes one unit of fuel for each call of itself by
-- `log execute`, calculate_md5 one for each byte of the file at most. Job numbers and pids are
-- numbers without an upper bound, except where strtol's 64-bit result is cast to int. A line of the
-- shell is shorter than 2^31 bytes.
--
-- Not modelled: which message the transport logs where, datagrams of other senders, failures of
-- malloc and of fwrite, the freeing of memory, handlers of signals at other points inside a command
-- than those named above, the making of sockets, and the kernel patch of xv6/, which is not C code
-- of this repository.
pub mod Base
pub mod Shell
pub mod Sham
pub mod Xv6
