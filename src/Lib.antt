-- ===== src/Lib.antt =====
-- GeckoOS, a hobby kernel for x86-64: a verification library of its C code.
--
-- The parts, and the files that model them:
--   * PhysicalMem models kernel/mem/physical_mem/physical_mem.c: the bitmap of physical blocks
--     (`Pmm`, one word for 32 blocks), `allocate_blocks`, `free_blocks`, `reserve_region`,
--     `free_region` and the initialisation from the Multiboot2 memory map, whose tags and entries
--     are lists of words. Its children prove what each of them does to the blocks and to the count.
--   * Paging models kernel/mem/virtual_mem/paging.c: the walk through four levels of tables, mapping,
--     unmapping and lookup. It takes its tables from the blocks that PhysicalMem grants, here a list.
--   * Heap models kernel/mem.c: `kmalloc`, `kfree` and the free list, as a store of headers.
--   * ProcessQueue models the queue of kernel/process/process.c, a ring of 16 places.
--   * Keyboard models kernel/drivers/ps2keyboard.c: the key state and what a scancode becomes.
--   * Mouse models kernel/drivers/ps2mouse.c: the packets of four bytes and the position.
--   * Lexer models kernel/gk/gk_lexer.c: the tokens of a GK script, with the stack of indents. The loops
--     over the source are one pass over a list of bytes, a turn for each token.
--   * Parser models kernel/gk/gk_parser.c, which takes the lexer's tokens: commands (`Run`) over the tokens
--     that are left and the nodes made so far. Expr is `parse_primary` up to `parse_expr`, Stmt the
--     statements, the blocks and `gk_parse`. A command's postcondition is a predicate `Ensures` of its run,
--     which the children named Ends, Kinds and Choice pass along the calls.
--   * Interp models kernel/gk/gk_interp.c, which evaluates the parser's nodes: Values the texts of values and
--     `int()`, Operators what an operator does with values, Vars the table of variables with its scopes, State
--     the state with its flags for jumps and errors, Eval the walk over the nodes and `gk_run`.
--   * Editor models kernel/editor/editor.c: Edit the buffer with its loops, Lines the lines and the moves
--     between them, Files loading and saving, Events the loop over the keys, whose characters come from
--     Keyboard. The text seen from the cursor is a zipper.
--   * Fat32 models kernel/fs/fat32.c over a drive that is a parameter: Fat the table of clusters, Names the
--     8.3 names, Dir the walk over the root directory with its callbacks, File the content of files and new
--     chains of clusters, Files what is done with files by name; Mount models kernel/fs/fs.c and the drives
--     of kernel/drivers/drives.c.
--   * Net models kernel/net: `net_handle_packet` hands a frame to ARP or IPv4, IPv4 to ICMP, and these
--     answer through `net_send_frame`. The state is one record, `Net`.
-- Prelude has the helpers that these share; files named Tests run the code at concrete values.
--
-- Functions keep their names. State is passed explicitly; a result that the source returns through
-- a pointer is a component of a pair, and NULL is 0 or `none`. Numbers are naturals, with the wrap of
-- a machine word written out. `Option` also stands for what C leaves undefined, such as a write behind
-- a static buffer; the comment at the definition says which.
--
-- Loops over arrays and lists are structural. Loops on fuel: the fold of the checksum's carry, which
-- three rounds finish for a 32-bit sum; the walk over the Multiboot2 tags, where one round for each 8
-- bytes is enough; the walk over the heap's free list, where one more round than the list has blocks
-- is enough; the parser, with two more rounds than there are tokens, since every call takes one; the
-- loop of `ed_load`, which stores a byte in each round of a buffer of 4096; the release of a chain of
-- clusters, with two more rounds than the table has entries; the loops that copy a file, each round of
-- which takes a byte. `eval` has no bound in the source: the fuel is spent by each step into a node
-- and each round of `while`, and a run that uses it up has no result. The walk over the root directory
-- has no bound in the source either: where its chain is a cycle, it has none.
--
-- Hardware is a parameter: bytes read from a port are arguments, frames sent are a list, the TLB and
-- interrupts are left out. So are, for the editor, the entries of a drive and whether a write
-- succeeds, and for FAT32 the sectors of a drive and those that cannot be read or written.
-- Not modelled: the terminal and its commands, the loading of executables, the drivers of the other
-- devices, the boot code, and the printing through nanoprintf.
pub mod Prelude
pub mod PhysicalMem
pub mod Paging
pub mod Net
pub mod Heap
pub mod ProcessQueue
pub mod Keyboard
pub mod Mouse
pub mod Lexer
pub mod Parser
pub mod Interp
pub mod Fat32
pub mod Editor
