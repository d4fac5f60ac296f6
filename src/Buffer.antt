-- ===== src/Buffer.antt =====
-- common/net/Buffer.h and Buffer.cc: the network buffer. A `char` is a number, `buffer_` a list of
-- them, and the two indices are `size_t` values. A method returns the new buffer; `readv` and
-- `write` are the kernel's, so their outcome is an argument.
pub mod Splice
pub mod Contents
pub mod Space
pub mod Io
pub mod Queue
mod Tests
use talk_system.Prelude.{
  ltb, leb, if◌then◌else◌, length, take, drop, replicate, add_size, sub_size, ℕ, ◌+◌, ◌-◌, Option,
  none, some, List, ◌++◌,
}
use Splice.{write_at}

pub record Buffer : Type 0 where
  pub bytes : List ℕ
  pub reader_index : ℕ
  pub writer_index : ℕ

abbrev pub k_cheap_prepend : ℕ
k_cheap_prepend = 8

abbrev pub k_initial_size : ℕ
k_initial_size = 1024

-- The constructor.
unfoldable pub new : ℕ → Buffer
new initial_size = record {
  bytes = replicate (k_cheap_prepend + initial_size) 0;
  reader_index = k_cheap_prepend;
  writer_index = k_cheap_prepend;
}

unfoldable pub readable_bytes : Buffer → ℕ
readable_bytes b = sub_size b.writer_index b.reader_index

unfoldable pub writable_bytes : Buffer → ℕ
writable_bytes b = sub_size (length b.bytes) b.writer_index

unfoldable pub prependable_bytes : Buffer → ℕ
prependable_bytes b = b.reader_index

unfoldable pub retrieve_all : Buffer → Buffer
retrieve_all b = record b { reader_index = k_cheap_prepend; writer_index = k_cheap_prepend }

unfoldable pub retrieve : ℕ → Buffer → Buffer
unfolding retrieve_all
retrieve len b =
    if ltb len (readable_bytes b)
    then record b { reader_index = add_size b.reader_index len }
    else retrieve_all b

-- `std::string(peek(), len)` beside the buffer that is left.
unfoldable pub retrieve_as_string : ℕ → Buffer → List ℕ × Buffer
retrieve_as_string len b = (take len (drop b.reader_index b.bytes), retrieve len b)

unfoldable pub retrieve_all_as_string : Buffer → List ℕ × Buffer
unfolding retrieve_as_string
retrieve_all_as_string b = retrieve_as_string (readable_bytes b) b

-- std::vector::resize: cut, or filled up with zero bytes.
unfoldable pub resize : ℕ → List ℕ → List ℕ
resize n xs = take n xs ++ replicate (n - length xs) 0

unfoldable pub make_space : ℕ → Buffer → Buffer
unfolding resize
make_space len b =
    if ltb (add_size (writable_bytes b) (prependable_bytes b)) (add_size len k_cheap_prepend)
    then record b { bytes = resize (add_size b.writer_index len) b.bytes }
    else record b {
      bytes =
          write_at k_cheap_prepend
            (take (sub_size b.writer_index b.reader_index) (drop b.reader_index b.bytes)) b.bytes;
      reader_index = k_cheap_prepend;
      writer_index = add_size k_cheap_prepend (readable_bytes b);
    }

unfoldable pub ensure_writeable_bytes : ℕ → Buffer → Buffer
ensure_writeable_bytes len b = if ltb (writable_bytes b) len then make_space len b else b

-- The copy to `beginWrite()` and the move of the index, once there is room.
unfoldable pub put : List ℕ → Buffer → Buffer
put bs b = record b {
  bytes = write_at b.writer_index bs b.bytes;
  writer_index = add_size b.writer_index (length bs);
}

-- `append(data, len)`, with `bs` the `len` bytes at `data`.
unfoldable pub append : List ℕ → Buffer → Buffer
append bs b = put bs (ensure_writeable_bytes (length bs) b)

-- The stack buffer of `readFd`.
abbrev pub extrabuf_size : ℕ
extrabuf_size = 65536

-- How many bytes `readv` is offered: `vec[0]`, and `vec[1]` if `iovcnt` is 2.
unfoldable pub readv_room : Buffer → ℕ
readv_room b =
    let writable = writable_bytes b in
    if ltb writable extrabuf_size then writable + extrabuf_size else writable

-- What a system call on a descriptor gives: bytes (none of them at the end), or `errno`.
pub data Read : Type 0 where
  got : List ℕ → Read
  failed : ℕ → Read

-- `readv` has filled `vec[0]`, and the rest, if any, lies in `extrabuf`.
unfoldable pub scatter : List ℕ → Buffer → Buffer
scatter bs b =
    let writable = writable_bytes b in
    if leb (length bs) writable
    then record b {
      bytes = write_at b.writer_index bs b.bytes;
      writer_index = add_size b.writer_index (length bs);
    }
    else append (drop writable bs) (record b {
      bytes = write_at b.writer_index (take writable bs) b.bytes;
      writer_index = length b.bytes;
    })

-- `readFd`: the buffer, and the error that goes to `*saveErrno`.
unfoldable pub read_fd : Read → Buffer → Buffer × Option ℕ
read_fd (got bs) b = (scatter bs b, none)
read_fd (failed e) b = (b, some e)

-- `writeFd` offers these bytes to `write`, and leaves the buffer as it is.
unfoldable pub peek : Buffer → List ℕ
peek b = take (readable_bytes b) (drop b.reader_index b.bytes)
