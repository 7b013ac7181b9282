-- ===== src/Lib.antt =====
-- mocha: a Java compiler written in Go, with the class-file library that it writes its output with.
-- Source is scanned (`scanner`, `token`) and parsed (`parser`, `ast`); `sym`, `types` and
-- `classpath` hold what is known of classes; `analyzer` types the tree and checks it; `lower` walks
-- it and calls the class-file library, which encodes names by `jvm/mutf8`, reads descriptors by
-- `jvm/desc` and lays out bytes. This development is about the bottom of that chain, where one
-- wrong byte makes a class that no machine loads.
--
-- * Jvm/Mutf8 is jvm/mutf8/mutf8.go. `encode`, `encoded_len` and `decode` are Encode, EncodedLen
--   and Decode. A byte slice is a list of numbers, a Go string the list of its runes. `decode_loop`
--   is the loop on fuel; each round takes a byte, so the length of the input is enough fuel.
-- * Jvm/Desc is jvm/desc/desc.go. A descriptor is the list of its bytes. `parse_type` is parse,
--   `parse_field`, `parse_return` and `parse_method` are ParseField, ParseReturn and ParseMethod;
--   the loop over parameters runs on fuel, the length of the text.
-- * Classfile/Wire is classfile/reader.go and classfile/writer.go: the cursor with its sticky error
--   and the sink with its patches.
-- * Classfile/Pool is classfile/poolbuilder.go. The ten maps of PoolBuilder are one list whose keys
--   say which map they belong to; entries call Mutf8 and Wire the way the code does.
-- * Jvm/Op is the part of jvm/op/op.go that the code writer asks for.
-- * Classfile/Code is classfile/codewriter.go. A label is its index in the writer, an opcode a
--   byte. Code has the state with its labels, stack and locals; Code/Instructions, Code/Members,
--   Code/Branches and Code/Delta have the methods and the table of stack effects; Code/Resolve has
--   `resolve` and Code/Rows localRows. Families of methods that differ in an opcode, such as Aload
--   to Dload, are one function of the opcode's kind. Code/Calls says what the closure given to
--   MethodBuilder.Code of classfile/builder.go can do: any sequence of calls, with any arguments;
--   Code/Kept carries an invariant of the writer's parts through all of its methods to such a
--   closure. Depths and offsets are numbers, without the wrap-around of an `int32`: a depth past
--   65535 is refused when it arises, and a code array of 2 ^ 31 bytes is not considered.
-- * Classfile/Builder is classfile/builder.go. Builder has the state and the setters, Builder/Body
--   `code`, which is Code with at most maxReplays passes, Builder/Members the fields, methods and
--   attributes as they are written, and Builder/Bytes `bytes`. Pointers to members are indices, and
--   the shared pool is passed on. Builder/Runs is any sequence of calls of a builder.
-- * Classfile/ConstPool is classfile/constpool.go. `read_pool` is readPool, a structural loop over
--   the slots that are left; ConstPool/Resolve has the methods of Pool, each a function that passes
--   the pool on with the texts that it has decoded. ConstPool/Content says what a builder can have
--   in its slots, which Cursor, Entry, ReadBack, Located, Gives and Meaning follow through the
--   reader.
-- * Classfile/Version is classfile/version.go: the rules for the version of a class file.
-- * Classfile/Attr is classfile/attribute.go and classfile/attrs.go: the attributes, and `where`, a
--   list of rows with the case of `attribute` that decodes each. Classfile/Decoder is
--   classfile/decoder.go: a step passes the cursor and the pool on, and a sub-decoder shares the
--   pool. Decoder/Bodies and Decoder/Attributes have the bodies, `attribute` and `attributes`,
--   Decoder/Members members and methods of decoder.go, and Decoder/ClassFile `read` of
--   classfile/classfile.go. `attributes` is bounded by the depth of the nesting; 2 is enough,
--   because no attribute of a method's code or of a record's component holds attributes.
--   Decoder/Rules and Decoder/BodyRules carry a property of the steps to all of these.
--   Decoder/Header follows `read` through a file that Builder wrote: Header the steps of `read`,
--   Header/Names and Header/Written the file up to the tables, Header/Bare a class without members.
--   Builder/Interns and Builder/TextRules carry a relation of pools through all that `bytes` interns.
-- * Analyzer/Flow is analyzer/flow/bits.go: the bit sets of definite assignment and their pairs. A
--   negative index is a constructor of ℤ. Flow/Digits and Flow/Sets read a word as its digits,
--   Flow/Laws and Flow/Equal an operation as one on sets, Flow/Held and Flow/History a state as the
--   sets that its writes and joins make.
-- * Token is the part of token/file.go that finds the line and the column of a position:
--   `build_lines` is buildLines, `raw_start` rawStart and `position` Position, whose second half is
--   `in_lines`. Token/Walk is the same by a walk over the bytes.
--
-- A `Result` is a value, an error of the model's own enumeration in place of the message text, or
-- `stuck` where fuel ran out. Machine integers are numbers with their wrap-around written out.
-- Not modelled: the parser with its syntax tree, sym, types, lower and the passes of the analyzer,
-- whose state is a graph of shared pointers over the tree; the scanner and the translation of
-- escapes in token/file.go, which stand on their own; the iterator over instructions
-- (classfile/code.go), which serves tools; classpath, android and cmd/mocha, which are mostly files,
-- sockets and processes; and the texts of messages everywhere.
pub mod Analyzer
pub mod Classfile
pub mod Jvm
pub mod Prelude
pub mod Token
