-- ===== src/Wake.antt =====
-- core/native/src/wake.rs: the write side of the wake socket. Each function is one atomic section;
-- what the socket answers to a write is an argument.
use jupynvim.Prelude.{ℕ, ◌+◌, Bool, true, false, if◌then◌else◌}

-- `Wake`: whether the write end is still there, the pending flag, and the bytes written.
pub record Wake : Type 0 where
  pub open_end : Bool
  pub pending : Bool
  pub writes : ℕ

-- `Wake::new`.
abbrev pub new : Wake
new = record { open_end = true; pending = false; writes = 0 }

-- How a write of one byte ends: written; not written because the buffer is full or the reader is
-- gone; or failed in another way.
pub data Written : Type 0 where
  wrote would_block broken_pipe failed : Written

-- `Wake::signal` up to its first return: the flag is swapped in, and the result is its old value.
unfoldable pub mark : Wake → Bool × Wake
mark w = (w.pending, record w { pending = true })

-- The outcome of the write, in `Wake::signal`.
unfoldable pub after_write : Written → Wake → Wake
after_write wrote w = record w { writes = w.writes + 1 }
after_write would_block w = w
after_write broken_pipe w = w
after_write failed w = record w { pending = false }

-- The rest of `Wake::signal`, under the lock of the write end: a closed end is left alone.
unfoldable pub write : Written → Wake → Wake
unfolding after_write
write r w = if w.open_end then after_write r w else w

-- `Wake::reset`.
unfoldable pub reset : Wake → Wake
reset w = record w { pending = false }

-- `Wake::close`.
unfoldable pub close : Wake → Wake
close w = record w { open_end = false }
