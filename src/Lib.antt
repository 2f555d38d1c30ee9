-- ===== src/Lib.antt =====
-- vmdk-rs reads the disk images of VMware: it opens a .vmdk file and the chain of its parents,
-- and reads bytes at any offset of the disk that they make up. This library models its core
-- and states what the core promises.
--
-- The parts, and the files of this library that model them:
--
-- src/spans.rs, the maps of spans that say which extent gives a sector: Spans. A BTreeMap is
-- the list of its entries in the order of the keys (Spans/Map); insert_span is Spans/Insert
-- and remove_span is Spans/Remove. One round of each loop is insert_step or remove_step, and
-- the loops run on fuel of one more than the length of the span: each round moves sbeg up, so
-- that many are enough.
--
-- src/extent_description.rs, the lines of a descriptor: Description, over Text, which has the
-- methods of str that the parsers call. A text is the list of its code points.
--
-- src/cache.rs and src/cachereadseek.rs, reading through a cache: Io. The cache is a record of
-- what its methods return; that a source is served (Io/Exact, Serves) is what the trait asks
-- of an implementation, for a source of less than 2 ^ 63 bytes, since the length of a file is
-- an off_t and that of an object an i64. read_exact is the provided method of std::io::Read,
-- on fuel of the bytes that are asked for.
--
-- src/storage.rs, reading from one extent: Storage, with Storage/Serve for its branches. A
-- file handle is the index of its source, since each read seeks from the start first.
--
-- src/bytessource.rs, src/filesource.rs, src/s3source.rs, src/placeholdersource.rs and
-- src/dummycache.rs, the sources of bytes and the cache that keeps nothing: Sources. A source
-- is a record of what its methods return; the contents of files and the requests of the crate
-- s3 are parameters.
--
-- src/foyercache.rs, the cache of chunks: Foyer. The crate foyer is the parameter HybridCache,
-- and its laws are IsCache of Foyer/Coherent. The chunks are asked for one after the other;
-- the offsets of the chunks are on fuel of the bytes of the read, and each chunk has a byte at
-- least. Foyer/Setup sets the cache up as with_default_cache and open do; its foyer_cache is
-- the cache that the reader uses. Calls of Cache return values here and no new cache, so
-- foyer_cache takes what the store holds at each read as an argument, a History, and Reached
-- of Foyer/Fresh says what earlier reads can have left in it.
--
-- src/descriptor.rs, the text of a descriptor: Descriptor, over Buffered, the BufReader of the
-- standard library, and Text/Utf8. A round of read_until takes a byte at least, so the fuel of
-- one more than the window is enough; the loop over the lines of a file has its fuel as an
-- argument, since it does not end on a file of blank lines.
--
-- src/header.rs, the three kinds of header: Header, over Metadata, which has the headers and
-- what they become. Header/Layout says where each field lies. src/errors.rs, the errors with
-- their conversions and messages: Errors. An OpenError has its path and its kind.
--
-- src/extents.rs, the extents and their grain tables: Extent has the extent and its spans,
-- Grains the two readers of grain tables, Grains/Entries and Grains/Contents what the one for
-- VMDK4 makes of the bytes of the file, Extents has read_extent and read_extents, which thread
-- the sources that have been added to the cache. A HashMap is an association list without a
-- second entry for a key.
--
-- src/vmdk_reader.rs, read_at_offset and open: Reader and Image. Reader finds the span of the
-- offset, asks the extent of the span to read, and goes on with the next span; the interface
-- between the two is ServesSpan of Reader/ReadAt, and Reader/Backs has the storage of
-- src/storage.rs as its implementation. The loop runs on fuel of the bytes to read and the
-- number of spans. Image has the loops of open that add the extents of an image to the two
-- maps of spans and fill what stays uncovered; that the uncovered sectors are accounted for is
-- Accounts of Image/Cover, and the extents of zeros are in Image/Zeros. Open has handle_image
-- and the rest of open: the images of the chain come from handle_image one after the other, on
-- fuel for their number, which is an argument since a chain may have no end.
--
-- src/vmdk_reader.rs, path_or_url_to_url and source_for_url: Location, over the record
-- Platform, which has what the program uses of the crates url and s3 and of the file system.
-- Open/Platform has open from a path or a URL on; Open/Described and Open/Flat follow an image
-- of one flat extent through it, and Open/Handles and Open/Kept the sources of the images of a
-- chain.
--
-- src/main.rs, the hash of an image: Hash, with the crate sha1 as the parameter Hasher. The
-- loop runs on fuel of the size of the image. Main has what main prints and its exit code.
--
-- src/capi.rs, the C interface: Capi, over a heap of the blocks that the calls allocate. A
-- pointer is an address, and a deallocation with another layout than that of the block is
-- undefined behaviour, which is the result none.
--
-- Base has the names, the lists, the Boolean tests and the machine words that the other files
-- share, and Base/Outcome the result of a call: Ok, Err, a panic, or fuel that ran out.
-- Arithmetic on u64 is that of a release build, which wraps around. Crates has the crates
-- byteorder and flate2 as parameters, and Extents.Host the crate url, the opening of sources
-- and the cache that they are added to. Examples applies the theorems to concrete inputs.
--
-- Not modelled: the log, the progress display and the parsing of the arguments (src/main.rs),
-- which are output and other crates. The read-ahead of src/foyercache.rs has no effect, since
-- its iterator is never run. The messages of std::io::Error are parameters.
pub mod Base
pub mod Spans
pub mod Text
pub mod Description
pub mod Io
pub mod Crates
pub mod Sources
pub mod Foyer
pub mod Buffered
pub mod Descriptor
pub mod Storage
pub mod Extent
pub mod Errors
pub mod Metadata
pub mod Header
pub mod Grains
pub mod Extents
pub mod Reader
pub mod Image
pub mod Location
pub mod Open
pub mod Hash
pub mod Main
pub mod Capi
pub mod Examples
