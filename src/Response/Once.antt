-- ===== src/Response/Once.antt =====
-- However the methods of core/response.go are called, the writer is sent one header at most: the first.
use thinkgo.Base.{ℕ, ◌≡◌, refl, Bool, true, false, Bytes, List, [], ◌∷◌, arith}
use thinkgo.Response.Defs.{
  HttpWriter, Response, write_header, write, set_header, add_header, del_header,
}

-- A call of a method by a handler.
pub data Call : Type 0 where
  header : ℕ → Call
  body : Bytes → Call
  set add : Bytes → Bytes → Call
  del : Bytes → Call

module _ {W : Type 0} (http : HttpWriter W) where
  abbrev pub call : Call → Response W → Response W
  call (header code) r = (write_header http code r).0
  call (body b) r = (write http b r).0
  call (set k v) r = set_header http k v r
  call (add k v) r = add_header http k v r
  call (del k) r = del_header http k r

  unfoldable pub calls : List Call → Response W → Response W
  calls [] r = r
  calls (c ∷ cs) r = calls cs (call c r)

  -- The same calls made on the writer itself.
  abbrev pub raw : Call → W → W
  raw (header code) w = http.write_header code w
  raw (body b) w = (http.write b w).0
  raw (set k v) w = http.set_header k v w
  raw (add k v) w = http.add_header k v w
  raw (del k) w = http.del_header k w

  unfoldable pub raws : List Call → W → W
  raws [] w = w
  raws (c ∷ cs) w = raws cs (raw c w)

-- The calls without the headers behind the first; the flag says that one was sent.
unfoldable pub once : Bool → List Call → List Call
once sent [] = []
once true (header code ∷ cs) = once true cs
once false (header code ∷ cs) = header code ∷ once true cs
once sent (c ∷ cs) = c ∷ once sent cs

-- The code of the first header, if there is one.
unfoldable pub first_status : ℕ → List Call → ℕ
first_status s [] = s
first_status s (header code ∷ cs) = code
first_status s (_ ∷ cs) = first_status s cs

module _ {W : Type 0} (http : HttpWriter W) where
  calls-committed :
      (cs : List Call) (r : Response W)
      → r.committed ≡ true
      → ((calls http cs r).writer ≡ raws http (once true cs) r.writer)
        × ((calls http cs r).status ≡ r.status)
        × ((calls http cs r).committed ≡ true)
  unfolding calls raws once write_header write
  calls-committed [] r h = ground arith
  calls-committed (header code ∷ cs) r h = ground (arith, calls-committed cs r h)
  calls-committed (body b ∷ cs) r h = calls-committed cs (call http (body b) r) h
  calls-committed (set k v ∷ cs) r h = calls-committed cs (call http (set k v) r) h
  calls-committed (add k v ∷ cs) r h = calls-committed cs (call http (add k v) r) h
  calls-committed (del k ∷ cs) r h = calls-committed cs (call http (del k) r) h

  -- On a fresh response any calls leave the writer as the calls without the later headers would, and
  -- the status is the code of the first header.
  pub calls-once :
      (cs : List Call) (r : Response W)
      → r.committed ≡ false
      → ((calls http cs r).writer ≡ raws http (once false cs) r.writer)
        × ((calls http cs r).status ≡ first_status r.status cs)
  unfolding calls raws once first_status write_header write
  calls-once [] r h = (refl, refl)
  calls-once (header code ∷ cs) r h =
      let t =
        calls-committed cs
          (record r { writer = http.write_header code r.writer; status = code; committed = true })
          refl in
      rw (h, write_header) (t.0, t.1)
  calls-once (body b ∷ cs) r h = calls-once cs (call http (body b) r) h
  calls-once (set k v ∷ cs) r h = calls-once cs (call http (set k v) r) h
  calls-once (add k v ∷ cs) r h = calls-once cs (call http (add k v) r) h
  calls-once (del k ∷ cs) r h = calls-once cs (call http (del k) r) h
