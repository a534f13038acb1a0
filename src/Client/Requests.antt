-- ===== src/Client/Requests.antt =====
-- The client's `request` against the daemon's `encode_response`.
use py_wayland_auto.Base.{
  concat, ℕ, ◌+◌, ◌<◌, ◌≤◌, ◌≡◌, refl, ap, ◌∙◌, true, List, ◌∷◌, ◌++◌, none, some, String, codes,
  Bytes, All, length, ==_iff,
}
use py_wayland_auto.Base.Int.{pos}
use py_wayland_auto.Outcome
use py_wayland_auto.Outcome.{Result, ok, raised}
use py_wayland_auto.Utf8.{encode}
use py_wayland_auto.Protocol.{max_line, Members}
use py_wayland_auto.Protocol.Responses.{
  Outgoing, filled, response_json, encode_response, decode_response,
  decode_response-encode_response,
}
use py_wayland_auto.Daemon.Lines.{newline}
use py_wayland_auto.Client.{
  Client, Attempt, Peer, break_line, line_response, await, request_bytes, or_undecodable, connect,
  post, request, send,
}
use py_wayland_auto.Client.Lines.{IsData, chunks_of}
use py_wayland_auto.Client.Answers.{lines, Stale, Responds, Answered, await-Answered}

-- The daemon's line for a response, where the standard library keeps its word: a decoded text is
-- what was encoded, a parsed value what was printed, and a printed value has no newline.
pub record Line (p : Peer) (id : ℕ) (out : Outgoing) (line : Bytes) : Type 0 where
  pub coded : encode (codes (encode_response p.dumps (pos id) out)) ≡ ok line
  pub text_back : p.text_of line ≡ some (encode_response p.dumps (pos id) out)
  pub value_back :
      p.loads (p.dumps (response_json (pos id) out)) ≡ some (response_json (pos id) out)
  pub no_newline : break_line line ≡ none
  pub short : length (codes (encode_response p.dumps (pos id) out)) ≤ max_line

Line-Responds :
    (p : Peer) (id : ℕ) (out : Outgoing) (line : Bytes)
    → Line p id out line
    → Responds p line (record { id = pos id; outgoing = filled out })
unfolding line_response
Line-Responds p id out line l = record {
  is_line = l.no_newline;
  decoded =
      ap (λ t. Outcome.◌>>=◌ (or_undecodable t) (λ s. decode_response p.show p.loads s)) l.text_back
      ∙ decode_response-encode_response p.show p.loads p.dumps (pos id) out l.value_back l.short;
}

-- The client behind a request that went out.
abbrev pub posted : Bytes → Client → Client
posted raw c = record c { req_id = c.req_id + 1; sent = raw ∷ c.sent }

request-await :
    (p : Peer) (fuel : ℕ) (first next : Attempt) (more : List Attempt) (c : Client)
    (chunks : List Bytes) (method : String) (params : Members) (raw : Bytes)
    → c.connected ≡ true
    → request_bytes p (c.req_id + 1) method params ≡ ok raw
    → p.accepts c.sent raw ≡ true
    → request p fuel first next more (chunks_of chunks) method params c
      ≡ await p fuel (chunks_of chunks) (posted raw c)
unfolding request connect post send
request-await p fuel first next more c chunks method params raw open_ packed goes =
    rw (open_, packed, goes)

-- However the bytes arrive and whatever late responses to other requests stand before it: a request
-- on a connected client whose socket takes it sends one message and, where the daemon's response to it
-- is a line of at most MAX_LINE characters that the JSON library reads back, returns the result in
-- it, or raises the error with the daemon's code and message; what stands behind that line is kept.
pub request-Answered :
    (p : Peer) (stale : List Bytes) (fuel : ℕ) (first next : Attempt) (more : List Attempt)
    (c : Client) (chunks : List Bytes) (method : String) (params : Members) (raw line rest : Bytes)
    (out : Outgoing)
    → c.connected ≡ true
    → request_bytes p (c.req_id + 1) method params ≡ ok raw
    → p.accepts c.sent raw ≡ true
    → Line p (c.req_id + 1) out line
    → length stale < fuel
    → All (Stale p (c.req_id + 1)) stale
    → All IsData chunks
    → c.buf ++ concat chunks ≡ lines stale (line ++ newline ∷ rest)
    → Answered
        (posted raw c)
        (filled out)
        rest
        (request p fuel first next more (chunks_of chunks) method params c)
request-Answered p stale fuel first next more c chunks method params raw line rest out open_ packed
      goes l short olds d e =
    let a =
      await-Answered p stale fuel (posted raw c) chunks line rest
        (record { id = pos (c.req_id + 1); outgoing = filled out }) short olds
        (Line-Responds p (c.req_id + 1) out line l) ((==_iff _ _).1 refl) d e in
    record {
      left = a.left;
      chunks_left = a.chunks_left;
      ends =
          request-await p fuel first next more c chunks method params raw open_ packed goes
          ∙ a.ends;
      remains = a.remains;
      are_data = a.are_data;
    }
