-- ===== src/Batch/Vectors.antt =====
-- simcrs/batches/simcrs.cpp: the output operator on vectors, which the program does not call.
use simcrs.Base.{List, [], ◌∷◌}
use simcrs.Stream.{OutStream, put}

-- `std::cout`, and another stream.
pub record Streams : Type 0 where
  pub cout : OutStream
  pub other : OutStream

-- Which of the two a reference is to.
pub data StreamRef : Type 0 where
  to_cout to_other : StreamRef

module _ {A : Type 0} (write : A → OutStream → OutStream) where
  -- `std::copy` to an `std::ostream_iterator` with a space: each element, and the space after it.
  unfoldable pub copy_elements : List A → OutStream → OutStream
  unfolding put
  copy_elements [] o = o
  copy_elements (x ∷ xs) o = copy_elements xs (put " " (write x o))

  -- `operator<<` on a vector: the iterator is on `std::cout`, whatever the stream that is given.
  unfoldable pub put_vector : StreamRef → List A → Streams → StreamRef × Streams
  unfolding copy_elements
  put_vector os v s = (os, record s { cout = copy_elements v s.cout })
