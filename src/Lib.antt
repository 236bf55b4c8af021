-- ===== src/Lib.antt =====
-- rsm2pdb, the converter of Delphi's debug data (RSM and map files) to PDB and DWARF.
--
-- The tool reads a map file and an RSM file, decodes the machine code of the executable where these
-- say too little, joins all of it to a model of the program, and writes that as CodeView or DWARF.
-- Modelled are the decoders of machine code, the reader of map files with its adapter to the model,
-- the scans of RSM files and their lookups, the join, and the whole DWARF writer: its buffer, its
-- abbreviations, its line program and its entries.
--
-- The files and what they model:
--   Base, Base/*            lists, integers, machine words, association lists, fallible steps
--   Model                   src/model/model.h and model.cpp: Module::addType is add_type, getType get_type
--   Pe/Prologue             src/pe/prologue.h: parsePrologue is parse_prologue; its `while` loop is
--                           skip_pushes, the part behind it parse_sub_rsp
--   Pe/SizeSniffer          src/pe/size_sniffer.h: sniffStackVarSizes; one round of the loop is sniff_at
--   Pe/ThunkScanner         src/pe/thunk_scanner.h: scanAdjusterThunks; the inner loop is scan_loop
--   Rsm/Types               src/rsm/rsm_reader.h: the records that the reader produces
--   Rsm/Internal            src/rsm/rsm_internal.h: tags, table of primitives, findBytes
--   Rsm/Opening             src/rsm/rsm_reader.cpp: the header that Reader::open reads
--   Rsm/SubRecord           src/rsm/rsm_procs_vars.cpp: the lambda parseSub is parse_sub
--   Rsm/Procedures          the same file: scanProcedures; its loops are find_first_sub, re_anchor,
--                           wide_scan and walk, one round of the outer one is proc_at
--   Rsm/Variables           the same file: isInsideProcedure and the scan for variables
--   Rsm/Primitives          src/rsm/rsm_primitives.cpp: scanPrimitiveTable
--   Rsm/UnitTables          src/rsm/rsm_unit_tables.cpp: the search for unit anchors and their tables
--   Rsm/Lookup              the rest of that file, and the lookups of src/rsm/rsm_reader.cpp
--   Rsm/AggregateTypes      src/rsm/rsm_reader.h: the types that a program declares
--   Rsm/Aggregates          src/rsm/rsm_aggregates.cpp: the scan of scanAggregateTypes, one round is
--                           aggregate_at. Attach is what follows the scan, Resolve is
--                           resolveAggregateTypes; Rounds, Order, Sound, Changes and Kinds hold the
--                           proofs
--   Map/Types               src/map/map_reader.h: the raw view of a map file
--   Map/Text, Map/Numbers   src/map/map_reader.cpp: the tokenisers, parseSegOffset, parseHex, parseDec32
--   Map/Parser              the same file: Reader::parse; one line is parse_line. Title, Tables and
--                           Sections build the text of a map file from what stands in it
--   Map/Populate            the same file: populate, from a map file to the model. Owner, Grouping,
--                           Buckets, Files and Units hold the proofs
--   Compose/MarkerSizes     src/compose/frame.cpp: buildMarkerSizes
--   Compose/Frame           src/compose/frame.h and frame.cpp: resolveFunction, which calls the decoders
--   Dwarf/BytesBuf          src/dwarf/dwarf_internal.h: the buffer, a method for a function
--   Dwarf/LineProgram       src/dwarf/dwarf_sections.cpp: writeLineProgram. Consumer is a reader after
--                           the DWARF standard, Rows and Program follow it through the instructions,
--                           Unit adds the header and the length fields
--   Dwarf/Abbrev            the same file: writeAbbrevTable; Reader reads it back as the
--                           standard says
--   Dwarf/Info              src/dwarf/dwarf_emitter.cpp: cuRange, symbolEnd, describePrimitive. Types is
--                           emitTypeDIEs, Symbols is emitSubprogramAndVariableDIEs, Unit is
--                           writeCompileUnit and emit. Shown says which entries a unit should have;
--                           Written, TypesWritten, TypesAdded, TypesKept, TypesFound, Levels,
--                           Ranges, UnitRead, UnitWritten and Sections hold the proofs
--   Dwarf/Reader            a reader of entries after the DWARF standard
--   Tests                   concrete inputs
--
-- Bytes are natural numbers below 256 and a buffer is their list; a read outside it is `none`, so a
-- theorem that a function returns also says that it reads inside its buffer. Unsigned words wrap by
-- `%`; a sum of resolveFunction that overflows int32_t is `none`, since it has no defined result.
-- Loops run on fuel: the sniffer has one round for each byte and one more, since every round moves
-- on; the thunk scan has one round for each offset of the section and one more; the LEB128 writers
-- have ten, since ten groups of seven bits hold a 64-bit word; the prologue counts at most 16 pushes;
-- the scans of RSM files and the walk over a procedure have a round for each byte and one more.
--
-- The indices of type size_t do not wrap. An unsigned long has 32 bits, as with MSVC.
--
-- Parameters of the model are LLVM's DWARF codes (LineCodes, AbbrevCodes, InfoCodes), std::sort in the
-- line program and in the lookups, and the order in which an std::unordered_map is gone through (visit).
--
-- Not modelled: what decorates the model with the types of an RSM file, the PDB writer and the
-- injectors; reading files, printing, argument handling, the editor extension and the scripts.
pub mod Base
pub mod Compose
pub mod Dwarf
pub mod Map
pub mod Model
pub mod Pe
pub mod Rsm
pub mod Tests
