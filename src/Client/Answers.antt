-- ===== src/Client/Answers.antt =====
-- What `request` makes of the daemon's lines: late responses are passed over, and the one with the
-- request's id is the answer.
use py_wayland_auto.Base.{
  concat, ℕ, zero, suc, ◌<◌, ◌≡◌, ap, ◌∙◌, true, false, List, [], ◌∷◌, ◌++◌, none, some, Bytes, All,
  length, arith,
}
use py_wayland_auto.Outcome.{ok}
use py_wayland_auto.Protocol.Responses.{Incoming, Outgoing}
use py_wayland_auto.Daemon.Lines.{newline}
use py_wayland_auto.Client.{
  Client, Arrival, Peer, break_line, read_line, line_response, is_id, answer, await, Ended, Read,
}
use py_wayland_auto.Client.Lines.{IsData, chunks_of, break_line-line, read_line-TakesLine}

-- Lines, each with its newline, and what stands behind them.
abbrev pub lines : List Bytes → Bytes → Bytes
lines [] rest = rest
lines (line ∷ more) rest = line ++ newline ∷ lines more rest

-- A whole line that is read as a response.
pub record Responds (p : Peer) (line : Bytes) (response : Incoming) : Type 0 where
  pub is_line : break_line line ≡ none
  pub decoded : line_response p line ≡ ok response

-- A response to another request.
abbrev pub Stale : Peer → ℕ → Bytes → Type 0
Stale p id line = (r : Incoming) × Responds p line r × (is_id r.id id ≡ false)

module _ (p : Peer) (fuel : ℕ) (c : Client) (response : Incoming) (arrivals later : List Arrival)
    (line buf : Bytes) (read : read_line arrivals c.buf ≡ (ok line, buf, later))
    (decoded : line_response p line ≡ ok response) where
  await-stale :
      is_id response.id c.req_id ≡ false
      → await p (suc fuel) arrivals c ≡ await p fuel later (record c { buf = buf })
  unfolding await
  await-stale other =
      rw (read, decoded, other, await)
        (ap (λ (r : Read). await p fuel r.2 (record c { buf = r.1 })) read)

  await-answer :
      is_id response.id c.req_id ≡ true
      → await p (suc fuel) arrivals c
        ≡ some (answer response.outgoing, record c { buf = buf }, later)
  unfolding await
  await-answer same =
      rw (read, decoded, same, await)
        (ap (λ (r : Read). some (answer response.outgoing, record c { buf = r.1 }, r.2)) read)

-- How a call ends that was answered: with what the response says, the newline behind it taken, and
-- what stands behind that kept for the next call.
pub record Answered (c : Client) (out : Outgoing) (rest : Bytes) (ended : Ended) : Type 0 where
  pub left : Bytes
  pub chunks_left : List Bytes
  pub ends : ended ≡ some (answer out, record c { buf = left }, chunks_of chunks_left)
  pub remains : left ++ concat chunks_left ≡ rest
  pub are_data : All IsData chunks_left

-- However the daemon's bytes arrive: behind late responses to other requests the one with the
-- request's id is the answer.
pub await-Answered :
    (p : Peer) (stale : List Bytes) (fuel : ℕ) (c : Client) (chunks : List Bytes)
    (line rest : Bytes) (response : Incoming)
    → length stale < fuel
    → All (Stale p c.req_id) stale
    → Responds p line response
    → is_id response.id c.req_id ≡ true
    → All IsData chunks
    → c.buf ++ concat chunks ≡ lines stale (line ++ newline ∷ rest)
    → Answered c response.outgoing rest (await p fuel (chunks_of chunks) c)
await-Answered p stale zero c chunks line rest response short olds resp same d e =
    absurd (omega arith)
await-Answered p [] (suc fuel) c chunks line rest response short olds resp same d e =
    let r =
      read_line-TakesLine chunks c.buf line rest d
        (ap break_line e ∙ break_line-line line rest resp.is_line) in
    record {
      left = r.buf';
      chunks_left = r.chunks';
      ends =
          await-answer p fuel c response (chunks_of chunks) (chunks_of r.chunks') line r.buf' r.read
            resp.decoded same;
      remains = r.remains;
      are_data = r.are_data;
    }
await-Answered p (old ∷ stale) (suc fuel) c chunks line rest response short olds resp same d e =
    let (late, other_resp, other) = olds.0 in
    let r = read_line-TakesLine chunks c.buf old (lines stale (line ++ newline ∷ rest)) d (
      ap break_line e
      ∙ break_line-line old (lines stale (line ++ newline ∷ rest)) other_resp.is_line) in
    let step =
      await-stale p fuel c late (chunks_of chunks) (chunks_of r.chunks') old r.buf' r.read
        other_resp.decoded other in
    let a =
      await-Answered p stale fuel (record c { buf = r.buf' }) r.chunks' line rest response
        (omega arith) olds.1 resp same r.are_data r.remains in
    record {
      left = a.left;
      chunks_left = a.chunks_left;
      ends = step ∙ a.ends;
      remains = a.remains;
      are_data = a.are_data;
    }
