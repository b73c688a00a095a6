-- ===== src/Yio/Writer/Pipe.antt =====
-- The pipe of io.Pipe between the goroutine of ProcessPutExtended and the storage, as its writer
-- sees it: the reader stays open until the upload is over, and takes every byte.
use yproxy.Base.{ℕ, Bool, true, false, Option, none, some, [], ◌++◌, length, if◌then◌else◌}
use yproxy.Bytes.{Bytes}
use yproxy.Yio.Writer.{WriteCloser, YproxyWriter}

pub record Pipe : Type 0 where
  pub content : Bytes
  pub closed : Bool

abbrev pub opened : YproxyWriter Pipe
opened = record {
  offset_reached = 0;
  byte_offset = 0;
  under = record { content = []; closed = false };
}

module _ {E : Type 0} (closed_pipe : E) where
  pipe_write : Bytes → Pipe → (ℕ × Option E) × Pipe
  pipe_write p st =
      if st.closed
      then ((0, some closed_pipe), st)
      else ((length p, none), record st { content = st.content ++ p })

  unfoldable pub pipe : WriteCloser Pipe E
  unfolding pipe_write
  pipe = record { write = pipe_write; close = λ st. (none, record st { closed = true }) }
