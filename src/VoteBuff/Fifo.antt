-- ===== src/VoteBuff/Fifo.antt =====
-- What a client may expect of a `struct vote_pipe`: a FIFO of fewer than 4096 bytes.
use s3res.Prelude.{ℕ, ◌+◌, List, ◌++◌, ◌&&◌, length, ltb, if◌then◌else◌}
use s3res.Sys.{ReadResult, failed, got, Status, ok, error}

module _ (cap : ℕ) where
  unfoldable pub put : ReadResult → List ℕ → Status × List ℕ
  put failed queue = (error, queue)
  put (got bytes) queue =
      if ltb 0 (length bytes) && ltb (length queue + length bytes) cap
      then (ok, queue ++ bytes)
      else (error, queue)
