-- ===== src/Lib.antt =====
-- Lazyscript: the Core IR with its text form, the lazy evaluator of thunks, and the strings, numbers
-- and tables under them.
--
-- The interpreter turns a program into the Core IR (src/coreir), a language of values and
-- expressions in A-normal form. A Core IR program is printed, read back, checked and evaluated:
--
--   text  --cir_text_reader-->  Expr  --cir_effects_type-->  checks  --cir_eval_runtime-->  value
--         <--cir_lower_print--
--
-- Names and strings are byte strings; the tables of the interpreter are the hash tables of
-- src/common. The files here follow the parts of the program:
--
--   Ast/Pattern          src/pat: patterns of the syntax tree and lspat_print at indent 0.
--   Ast/Syntax           src/expr and src/misc/bind.c: expressions, without their places in the text.
--   CoreIr/Syntax        src/coreir/coreir.h: values, expressions, patterns. A `null` or `no_`
--                        constructor is the NULL pointer or the empty array.
--   CoreIr/Effects       src/coreir/cir_effects_type.c, lscir_validate_effects: the count of errors
--                        with the lines written, or a read through NULL. Below it: Sites says where
--                        effect applications stand, Accepts what the validator accepts, Counts how
--                        its errors are counted.
--   CoreIr/Kind          the same file, lscir_typecheck: effects and arities; Kind/Laws its theorems.
--   CoreIr/Runtime       src/coreir/cir_eval_runtime.c: runtime values, environments, printing.
--   CoreIr/Eval          the same file: eval_value, apply, eval_expr, lscir_eval. Below it: Safety,
--                        Prints, Terminates and Token hold what runs never do, and when they end.
--   CoreIr/Text/Lexer    src/coreir/cir_text_reader.c: skip_ws, match, peek, read_symbol, read_string,
--                        read_int, accept_kw. The state of the reader is the text that is left.
--   CoreIr/Text/Patterns, CoreIr/Text/Reader
--                        the same file: parse_pat, parse_val, parse_expr.
--   CoreIr/Text/Printer  src/coreir/cir_lower_print.c: cir_print_val and cir_print_expr, with the text
--                        that is printed afterwards as an argument.
--   CoreIr/Lower         src/coreir/cir_lower_print.c: lower_value, lower_expr, lower_closure and
--                        lscir_lower_prog, with the counter of cir_gensym as a state (Lower/Monad) and
--                        the heads of applications in Lower/Heads. A subexpression is passed as the
--                        pair of what the two functions do with it. Closed, Pure, Nulls, Plain and
--                        Texts follow a property through it, Safe, Nulls/Forms and Printed draw the
--                        conclusions.
--   CoreIr/Text/Program  lscir_print and lscir_read_text; Program/Laws, Words and RoundTrip relate
--                        the two; Printable says what has a text form.
--   Common/Hash          src/common/hash.c: Entries one chain, Buckets the table as a map, Rehash the
--                        rehash, Laws the operations against a finite map.
--   Common/Str           src/common/str.c: lsstr_calc_hash, lsstrcmp, lsstr_sub; Order its theorems.
--   Common/Str/Literal   src/common/str.c: lsstr_parse with its escapes, and lsstr_print.
--   Common/Str/Intern    src/common/str.c: lsstr_new with lsstr_ht_get_raw, lsstr_ht_resize and
--                        lsstr_ht_put_raw_resizable. Search follows a search while slots are filled,
--                        Packed says when each string is found, Resize moves them, Model and Laws
--                        relate the table to a finite map.
--   Common/LsInt         src/common/int.c; Common/LsList src/common/list.c.
--   Runtime/Effects      src/runtime/effects.c: the guard of side effects.
--   Runtime/Modules      src/runtime/modules.c: the loaded modules, a client of Common/Hash.
--   Thunk/Heap           src/thunk/thunk.c, tpat.c, tenv.c: thunks, patterns, reference targets and
--                        environments in a heap, and the actions on it. Below it: Steps says what
--                        follows when an action ends, Keeps and Rules which actions leave nodes
--                        alone, Reads which only read.
--   Thunk/Env            src/thunk/tenv.c; Env/Lookup and Env/Update its theorems.
--   Thunk/Match          src/thunk/thunk.c, lsthunk_match_pat, and lstpat_clear_binds; Match/Clear,
--                        Match/Shallow and Match/Keeps their theorems.
--   Thunk/Subst          src/thunk/thunk.c, lsthunk_subst_param.
--   Thunk/Bottom, Thunk/Choice, Thunk/Eval
--                        the same file: lsthunk_bottom_merge, lsthunk_eval_choice, lsthunk_eval and
--                        lsthunk_eval0. Eval/Memo, Eval/Lambda and Eval/Keeps are their
--                        theorems; Eval/Whole is about heaps in which every pointer leads to an
--                        object, those in bindings included.
--   Thunk/Build          the same file: lsthunk_new_expr with the function for each form, and
--                        lsprog_eval. Aside, Keeps and Stays say what building leaves alone;
--                        Sound is about heaps in which every pointer leads to an object and each environment is
--                        younger than its parent, Whole joins it to the evaluator.
--   Thunk/Build/Pattern  src/thunk/tpat.c, lstpat_new_pat, with the marks of the check of or-patterns;
--                        Clean follows the bindings, which hold the marks.
--   Builtins             src/builtins/arith.c and seq.c, with ls_eval_arg of src/runtime/error.h: Args,
--                        Arith, Seq, and Table, which gives each function its number for the
--                        evaluator. Keeps, Whole, Sum and Order are theorems of the two
--                        together.
--   Image                src/thunk/lsti.c, lsti_validate: Words its reads of memory, Sections the
--                        header and the section table, Entries the checks of one thunk, Validate the
--                        whole. Within has rules for what a check knows when it goes on; Fits, Bounds
--                        and Safe are the theorems.
--   Prelude              native numbers, lists and byte strings, integers, decimal numbers.
--
-- The interpreter proper evaluates thunks, a graph of mutable nodes that share the bindings of
-- patterns. A run of an action on the heap ends with a value and a heap, in a failed assertion or a
-- read through NULL, or without fuel. A pointer is the place of its object in the list of all
-- objects of its kind, which only grows, as memory is collected and addresses are not compared but
-- for equality. The functions of the builtins are a parameter, and get the evaluator.
--
-- Numbers are natural numbers without a bound, except where the source's width shows: hashes,
-- lengths and the capacity of the table of strings in 32 bits, `long long` in the reader in 64. Overflow of a signed number, which C leaves
-- undefined, wraps. An integer is `pos n` or `negsuc n`, which is -(n + 1).
--
-- Thunks are built from a syntax tree in an environment. The number of the environment of a lambda
-- stands for the address of its parameter, and the origin that the targets of a binding share is
-- written into each of them. The two addresses that mark bindings, and the text that a raise prints,
-- are parameters.
--
-- An image is the bytes that can be read from its base on, and its size. A number of the image is
-- read from little-endian bytes; the sums and products that the validator makes of 32-bit numbers in
-- 64 bits do not wrap around, and neither do those of its natural numbers here.
--
-- A string of the syntax tree has all its bytes; the lowering takes it as a C string, up to its first
-- NUL byte. A bottom of the Core IR evaluator may point to an array in the frame of a call that has
-- returned: that array is `gone`, and to read it ends the run as a read through NULL does.
--
-- Fuel: the search in the table of strings has a unit for each slot, as it has no end when it has
-- gone round; the evaluator spends a unit on each nested call, as programs need not end; a program
-- without lambdas needs its height. The text reader spends a unit on each nested call and each
-- round of a loop, as it does not end on every text; the size of an expression is enough to read
-- its text. The loop of lsstr_parse has a unit for each byte, which is enough as a round takes one.
-- The evaluator of thunks has fuel for its nested calls, and none is enough for every program; the
-- walk to the parents of an environment has one unit for each environment of the heap, which is
-- enough where each is younger than its parent. The doubling of a 32-bit capacity has 33 units, as
-- after 32 rounds the capacity is 0 and the loop has no end.
--
-- Not modelled: the parser, which bison and flex generate in part, and the printer of expressions;
-- the printers of thunks and their patterns, and their images but for the validator; locations and
-- traces; the other builtins, plugins and the command line; the removal of strings from their
-- table; running out of memory. The address of a buffer is a part of a string, and the one that a
-- new string gets is an argument. A run of the reader that stores a NULL name, or the cast table of
-- the cases of a match, leaves the data model, and the model of the reader stops there.
pub mod Prelude
pub mod Common
pub mod CoreIr
pub mod Runtime
pub mod Ast
pub mod Builtins
pub mod Image
pub mod Thunk
