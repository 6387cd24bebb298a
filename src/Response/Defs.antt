-- ===== src/Response/Defs.antt =====
-- core/response.go: `Response` and its methods. The writer is not the program's: its type and its
-- methods are parameters, a method returning the writer's new state. `Flush`, `Hijack` and
-- `CloseNotify` only pass the call on to the writer.
use Prim.Native.Nat.{◌%◌, ◌^◌}
use thinkgo.Base.{ℕ, ◌+◌, Bool, true, false, if◌then◌else◌, Bytes}

-- `http.ResponseWriter`; `write` also returns the number of bytes that it took, and whether it failed.
pub record HttpWriter (W : Type 0) : Type 0 where
  pub write_header : ℕ → W → W
  pub write : Bytes → W → W × ℕ × Bool
  pub set_header : Bytes → Bytes → W → W
  pub add_header : Bytes → Bytes → W → W
  pub del_header : Bytes → W → W

-- `size` is the bit pattern of an `int64`.
pub record Response (W : Type 0) : Type 0 where
  pub writer : W
  pub status : ℕ
  pub size : ℕ
  pub committed : Bool

abbrev pub status_ok : ℕ
status_ok = 200

-- `NewResponse`
abbrev pub new_response : {W : Type 0} → W → Response W
new_response w = record { writer = w; status = 0; size = 0; committed = false }

-- `reset`
unfoldable pub reset : {W : Type 0} → W → Response W → Response W
reset w r = record { writer = w; status = status_ok; size = 0; committed = false }

-- `SetWriter`
abbrev pub set_writer : {W : Type 0} → W → Response W → Response W
set_writer w r = record r { writer = w }

module _ {W : Type 0} (http : HttpWriter W) where
  -- `WriteHeader`; the flag says that the warning "response already committed" is logged.
  unfoldable pub write_header : ℕ → Response W → Response W × Bool
  write_header code r = if r.committed then (r, true) else (
    record r { writer = http.write_header code r.writer; status = code; committed = true },
    false,
  )

  -- `Write`, with the writer's results passed on
  unfoldable pub write : Bytes → Response W → Response W × ℕ × Bool
  write b r =
      let (w, n, failed) = http.write b r.writer in
      (record r { writer = w; size = (r.size + n) % 2 ^ 64 }, n, failed)

  -- `Header().Set`, `Header().Add` and `Header().Del`
  abbrev pub set_header : Bytes → Bytes → Response W → Response W
  set_header k v r = record r { writer = http.set_header k v r.writer }

  abbrev pub add_header : Bytes → Bytes → Response W → Response W
  add_header k v r = record r { writer = http.add_header k v r.writer }

  abbrev pub del_header : Bytes → Response W → Response W
  del_header k r = record r { writer = http.del_header k r.writer }
