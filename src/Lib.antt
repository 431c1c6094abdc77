-- ===== src/Lib.antt =====
-- A model of the runtime of BreadLang and of its parser of expressions, with the theorems that
-- they rest on.
--
-- The compiler and the compiled programs share a C runtime. A value (`BreadValue`) is a tag and a
-- payload, which is a number or a pointer to a reference counted object. Arrays and dictionaries
-- hold values, compare them by their own tests, take their types from the first value and copy
-- what they store by `bread_value_clone`; the static types are trees of descriptors, which the
-- checks of declarations, assignments and calls compare.
--
-- Files and code:
-- - Prelude: numbers, Booleans, options, lists and texts, with the lemmas that all parts share.
-- - Types: include/core/var.h and src/core/type_descriptor.c. `clone`, `equals` and `compatible`
--   are `type_descriptor_clone`, `_equals` and `_compatible`. Types/Copying, Types/Equality and
--   Types/Assignable hold their theorems.
-- - Values: include/core/value.h, src/core/value_core.c, and the comparison and the hash of keys
--   in src/core/value_dict.c. Values/Keys says which values are keys that a table finds again.
-- - Dicts: src/core/value_dict.c, a function for each operation of the same name without the
--   prefix `bread_dict_`. Dicts/Probing and Dicts/Slots treat the probe, Dicts/Stored the
--   invariant, Dicts/Placing, Dicts/Counting and Dicts/Adding one write, Dicts/Moving,
--   Dicts/Reading and Dicts/Growing the resize, Dicts/Setting and Dicts/RoundTrip `set_safe`,
--   Dicts/Removing and Dicts/Forgetting the removal, Dicts/Literals and Dicts/Listing the
--   literal and the lists of keys and values.
-- - Arrays: src/core/value_array.c, a function for each operation of the same name without the
--   prefix `bread_array_`. Arrays/Shifting treats the two loops, Arrays/Room, Arrays/Validity
--   and Arrays/OneType the invariant, Arrays/Editing insertion and removal, Arrays/Searching the
--   two searches.
-- - Objects: src/core/value_struct.c, value_optional.c and value_class.c. Objects/Fields treats
--   the fields, Objects/Registry the registered definitions, Objects/Inheritance models parents,
--   the method search and instances, with Inheritance/Resolving, Parents, Chains and Methods for
--   their theorems.
-- - Scopes: src/core/var.c, a function for each operation of the same name, `assign_variable`
--   and `init_variable` for `bread_assign_variable_from_expr_result` and
--   `bread_init_variable_from_expr_result`. Scopes/Coercion, Scopes/Assigning and
--   Scopes/Commands model coercions, assignment by name and lines of text; Scopes/Naming,
--   Scopes/Writing, Scopes/Declaring and Scopes/Retyping treat one operation; Scopes/Validity,
--   Scopes/Keeping, Scopes/Lines and Scopes/Sessions the invariant, and Scopes/Retaining and
--   Scopes/Nesting blocks.
-- - Memory: src/runtime/memory.c. Memory/Pool is the pool of small blocks, with its theorems in
--   Pool/Blocks and Pool/Taking; Memory/Objects the list of objects and the statistics,
--   Memory/Collector the mark and sweep, Memory/Allocating allocation, reference counts, roots
--   and settings. Memory/Accounts, Memory/Keeping, Memory/Resizing, Memory/Releasing and
--   Memory/Sessions treat the statistics, Memory/Marks and Memory/Collecting a collection.
-- - Functions: src/core/function.c, a function for each operation of the same name, without the
--   prefix `function_`. Functions/Table treats the table, Functions/Parameters arguments and
--   defaults.
-- - Strings: src/runtime/string_ops.c, a function for each operation of the same name, without
--   the prefix `bread_string_`. Strings/Literals treats the table of literals.
-- - Operators: src/runtime/value_ops.c, a function for each operation of the same name, without
--   the prefix `bread_`. Operators/Order treats comparison, Operators/Division the integers, and
--   Operators/Conversion models equality and `bread_coerce_value`. Operators/Indexing models the
--   index operators of src/runtime/operators.c on arrays, Operators/Evaluating the operators of
--   src/compiler/parser/expr_ops.c.
-- - Syntax: include/compiler/ast/ast.h and src/compiler/ast/ast_expr_parser.c, the nodes of
--   expressions and their parser. Syntax/Lexing, Syntax/Literals, Syntax/Sequences and
--   Syntax/Expressions have a function for each of the same name, Syntax/Source cuts an
--   expression out of a statement. Syntax/Ending treats the text that is left, Syntax/Grammar
--   describes the texts of expressions by operators and by terms: Grammar/Operators,
--   Grammar/Operands and Grammar/Precedence treat the ranks, Grammar/Blanks and Grammar/Comments
--   what stands before an expression, and the modules of Grammar/Terms one kind of text each.
-- - Syntax/TypeNames: src/compiler/ast/ast_types.c and `type_descriptor_to_string`, types as
--   texts, with the children Reading, RoundTrip and Ending.
-- - Tests: runs and examples at concrete inputs.
--
-- State is passed explicitly: an operation that changes an object returns an `Outcome` of its
-- result, the new object, the reference counting calls that it makes in their order, and the
-- error that it sets. What the C allocator answers is a parameter, for each size in the
-- containers and for each call in the other parts. Counts and capacities are unbounded numbers;
-- in the containers they are those of the source, which stay in an `int` as long as memory does.
-- The wrap-around of the hashes, of the 64-bit integers under the operators and of an index that
-- is narrowed to an `int` is written out. Floats and doubles are their bit patterns, of which
-- the comparison of keys reads NaN and zero; the other arithmetic of floats, the casts between
-- number types and the evaluation of an expression in a line of text are parameters, and an
-- evaluation is taken to leave the variables as they are.
--
-- Fuel: the probe runs for as many rounds as the table has slots, the copy of a descriptor above
-- its depth, the walks over the ancestors of a class for their number, and the marking for the
-- rounds that its stack of 8192 entries and its unmarked objects allow.
--
-- The parsers return a node, a failure with the place of the cursor, or `stuck`, which the
-- source does not have: fuel ran out. A loop of the parser has one more than the length of its
-- text, and the nesting of expressions and of types has the fuel that its theorems ask for.
-- `atoi` and `strtod` are parameters, and the buffers of strings are lists.
--
-- Parts meet in the values: the scopes and the operators use the types, values, strings and
-- arrays; a coercion of an argument (Functions), of an assignment (Scopes) and of a compiled
-- conversion (Operators) are three functions of the source. The collector reads the contents of
-- the containers from the memory that it is given.
--
-- Not modelled: the modules of imported files, the parser of statements, the evaluator of
-- expressions, source locations and type tags of nodes, the analyses and the optimization,
-- the generated code and the LLVM backends, the remaining index, member and method operators,
-- the release functions of the containers, input and output.
pub mod Prelude
pub mod Types
pub mod Values
pub mod Dicts
pub mod Arrays
pub mod Objects
pub mod Scopes
pub mod Tests
pub mod Memory
pub mod Functions
pub mod Operators
pub mod Strings
pub mod Syntax
