-- ===== src/Client/Ends.antt =====
-- That the loops of the client come to an end, and how `connect` ends.
use py_wayland_auto.Base.{
  ℕ, zero, suc, ◌+◌, ◌<◌, ◌≡◌, ◌≢◌, ◌↔◌, refl, sym, ap, subst, ◌∙◌, inl, inr, Bool, true, false,
  List, [], ◌∷◌, ◌++◌, Option, none, some, ◌==◌, ◌||◌, ◌&&◌, not, if◌then◌else◌, Bytes, String,
  length, length-append, Bool-cases, Option-cases, arith,
}
use py_wayland_auto.Outcome.{Result, ok, raised, Result-cases}
use py_wayland_auto.Outcome
use py_wayland_auto.Protocol.{Members}
use py_wayland_auto.Daemon.Lines.{newline}
use py_wayland_auto.Client.{
  Client, Attempt, accepted, refused, failed, retry, connect, Arrival, silent, broken, chunk,
  onto_line, break_line, read_line, Peer, line_response, is_id, await, post, send, request,
  then_await, first_attempt,
}
use py_wayland_auto.Stateful.{bind_with}

-- The bytes that are still to come.
abbrev pub size : List Arrival → ℕ
size [] = 0
size (silent ∷ arrivals) = size arrivals
size (broken ∷ arrivals) = size arrivals
size (chunk bs ∷ arrivals) = length bs + size arrivals

onto_line-lt :
    (b n : ℕ) (o : Option (Bytes × Bytes)) (line rest : Bytes)
    → ((p : Bytes × Bytes) → o ≡ some p → length p.1 < n)
    → onto_line b o ≡ some (line, rest)
    → length rest < n
onto_line-lt b n none line rest h e = cc
onto_line-lt b n (some p) line rest h e = ground (arith, h p refl)

break_line-lt : (bs line rest : Bytes) → break_line bs ≡ some (line, rest) → length rest < length bs
unfolding break_line
break_line-lt [] line rest h = cc
break_line-lt (b ∷ bs) line rest h = elim (Bool-cases (b == newline)) [
  | inl ends ↦ ground arith
  | inr inside ↦
      (let e : onto_line b (break_line bs) ≡ some (line, rest) = rw (inside, break_line) at h in
        let lt : length rest < length bs =
          onto_line-lt b (length bs) (break_line bs) line rest (λ p q. break_line-lt bs p.0 p.1 q)
            e in
        omega arith)
]

read_line-lt :
    (arrivals : List Arrival) (buf line buf' : Bytes) (later : List Arrival)
    → read_line arrivals buf ≡ (ok line, buf', later)
    → length buf' + size later < length buf + size arrivals
unfolding read_line
read_line-lt [] buf line buf' later h = elim (Option-cases (break_line buf)) [
  | inl e ↦ absurd (ground arith)
  | inr (q, e) ↦ ground (arith, break_line-lt buf q.0 q.1 e)
]
read_line-lt (silent ∷ arrivals) buf line buf' later h = elim (Option-cases (break_line buf)) [
  | inl e ↦ absurd (ground arith)
  | inr (q, e) ↦ ground (arith, break_line-lt buf q.0 q.1 e)
]
read_line-lt (broken ∷ arrivals) buf line buf' later h = elim (Option-cases (break_line buf)) [
  | inl e ↦ absurd (ground arith)
  | inr (q, e) ↦ ground (arith, break_line-lt buf q.0 q.1 e)
]
read_line-lt (chunk [] ∷ arrivals) buf line buf' later h = elim (Option-cases (break_line buf)) [
  | inl e ↦ absurd (ground arith)
  | inr (q, e) ↦ ground (arith, break_line-lt buf q.0 q.1 e)
]
read_line-lt (chunk (b ∷ bs) ∷ arrivals) buf line buf' later h =
    elim (Option-cases (break_line buf)) [
      | inl e ↦
          (let more : read_line arrivals (buf ++ b ∷ bs) ≡ (ok line, buf', later) =
              rw (e, read_line) at h in
            omega (
              arith,
              read_line-lt arrivals (buf ++ b ∷ bs) line buf' later more,
              length-append buf (b ∷ bs),
            ))
      | inr (q, e) ↦ ground (arith, break_line-lt buf q.0 q.1 e)
    ]

-- The first attempt that is not refused is accepted.
abbrev pub reaches : List Attempt → Bool
reaches [] = false
reaches (accepted ∷ rest) = true
reaches (failed ∷ rest) = false
reaches (refused ∷ rest) = reaches rest

-- The attempts that `connect` makes at most.
abbrev pub attempts : Client → Attempt → Attempt → List Attempt → List Attempt
attempts c first next more = if c.auto_spawn && c.can_spawn then first ∷ next ∷ more else first ∷ []

abbrev pub is_refused : Attempt → Bool
is_refused refused = true
is_refused attempt = false

abbrev pub spawns_now : Client → Attempt → ℕ
spawns_now c first =
    if not c.connected && (is_refused first && (c.auto_spawn && c.can_spawn)) then 1 else 0

-- How `connect` ends.
pub record Connects (c : Client) (first next : Attempt) (more : List Attempt)
    (r : Result (Unit {0}) × Client) : Type 0 where
  pub connected : r.1.connected ≡ (c.connected || reaches (attempts c first next more))
  pub returned : (r.0 ≡ ok tt) ↔ (r.1.connected ≡ true)
  pub spawned : r.1.spawns ≡ c.spawns + spawns_now c first
  pub kept : r.1 ≡ record c { connected = r.1.connected; spawns = r.1.spawns }

record Retries (c : Client) (attempts : List Attempt) (r : Result (Unit {0}) × Client)
    : Type 0 where
  connected : r.1.connected ≡ reaches attempts
  returned : (r.0 ≡ ok tt) ↔ (r.1.connected ≡ true)
  spawned : r.1.spawns ≡ c.spawns
  kept : r.1 ≡ record c { connected = r.1.connected; spawns = r.1.spawns }

retry-Retries :
    (next : Attempt) (more : List Attempt) (c : Client)
    → c.connected ≡ false
    → Retries c (next ∷ more) (retry next more c)
unfolding retry
retry-Retries accepted more c h = record {
  connected = refl;
  returned = (λ _. refl, λ _. refl);
  spawned = refl;
  kept = refl;
}
retry-Retries failed more c h = record {
  connected = h;
  returned = (λ e. cc, λ e. cc);
  spawned = refl;
  kept = refl;
}
retry-Retries refused [] c h = record {
  connected = h;
  returned = (λ e. cc, λ e. cc);
  spawned = refl;
  kept = refl;
}
retry-Retries refused (attempt ∷ more) c h =
    let r = retry-Retries attempt more c h in
    record { connected = r.connected; returned = r.returned; spawned = r.spawned; kept = r.kept }

fresh-Connects :
    (first next : Attempt) (more : List Attempt) (c : Client)
    → c.connected ≡ false
    → Connects c first next more (first_attempt first next more c)
fresh-Connects accepted next more c h = record {
  connected = ground arith;
  returned = (λ _. refl, λ _. refl);
  spawned = ground arith;
  kept = refl;
}
fresh-Connects failed next more c h = record {
  connected = ground arith;
  returned = (λ e. cc, λ e. cc);
  spawned = ground arith;
  kept = refl;
}
fresh-Connects refused next more c h = elim (Bool-cases c.auto_spawn) [
  | inr barred ↦ subst (Connects c refused next more) (sym (ap (λ b. chosen b) barred)) (record {
    connected = ground arith;
    returned = (λ e. cc, λ e. cc);
    spawned = ground arith;
    kept = refl;
  })
  | inl may ↦
      subst (Connects c refused next more) (sym (ap (λ b. chosen b) may))
        (elim (Bool-cases c.can_spawn) [
          | inr cannot ↦
              subst (Connects c refused next more) (sym (ap (λ b. spawned b) cannot)) (record {
                connected = ground arith;
                returned = (λ e. cc, λ e. cc);
                spawned = ground arith;
                kept = refl;
              })
          | inl can ↦
              (let r = retry-Retries next more (record c { spawns = c.spawns + 1 }) h in
                subst (Connects c refused next more) (sym (ap (λ b. spawned b) can)) (record {
                  connected = r.connected ∙ ground arith;
                  returned = r.returned;
                  spawned = r.spawned ∙ ground arith;
                  kept = r.kept;
                }))
        ])
]
  where
    spawned : Bool → Result (Unit {0}) × Client
    spawned b =
        bind_with
          (if b then (ok tt, record c { spawns = c.spawns + 1 }) else (raised Outcome.os_error, c))
          (λ _. retry next more)

    chosen : Bool → Result (Unit {0}) × Client
    chosen b = if b then spawned c.can_spawn else (raised Outcome.connection_error, c)

-- `connect` returns exactly where the client is connected: before, or by the first attempt that was
-- not refused. It starts one daemon at most, and just if the client may and can, was not connected and
-- was refused; the buffer, the ids and what was sent stay.
pub connect-Connects :
    (first next : Attempt) (more : List Attempt) (c : Client)
    → Connects c first next more (connect first next more c)
unfolding connect
connect-Connects first next more c = elim (Bool-cases c.connected) [
  | inl before ↦ subst (Connects c first next more) (sym (ap (λ b. chosen b) before)) (record {
    connected = ground arith;
    returned = (λ _. before, λ _. refl);
    spawned = ground arith;
    kept = refl;
  })
  | inr fresh ↦
      subst (Connects c first next more) (sym (ap (λ b. chosen b) fresh))
        (fresh-Connects first next more c fresh)
]
  where
    chosen : Bool → Result (Unit {0}) × Client
    chosen b = if b then (ok tt, c) else first_attempt first next more c

module _ (p : Peer) where
  post-buf :
      (method : String) (params : Members) (c : Client) → (post p method params c).1.buf ≡ c.buf
  unfolding post send
  post-buf method params c = ground arith

  await_ends :
      (fuel : ℕ) (arrivals : List Arrival) (c : Client)
      → length c.buf + size arrivals < fuel
      → await p fuel arrivals c ≢ none
  unfolding await
  await_ends zero arrivals c h = absurd (omega arith)
  await_ends (suc fuel) arrivals c h =
      let (first, buf, later) = read_line arrivals c.buf in
      elim (Result-cases first) [
        | inr (x, e) ↦ rw (e, await) (λ bad. cc)
        | inl (line, e) ↦ elim (Result-cases (line_response p line)) [
          | inr (x, d) ↦ rw (e, d, await) (λ bad. cc)
          | inl (response, d) ↦ elim (Bool-cases (is_id response.id c.req_id)) [
            | inl same ↦ rw (e, d, same, await) (λ bad. cc)
            | inr other ↦
                rw (e, d, other, await)
                  (await_ends fuel later (record c { buf = buf })
                    (omega (
                      arith,
                      read_line-lt arrivals c.buf line buf later (ap (λ r. (r, buf, later)) e),
                    )))
          ]
        ]
      ]

  -- Whatever arrives: a call of `request` ends in more rounds of its loop than there are bytes in the
  -- buffer and still to come.
  pub request_ends :
      (fuel : ℕ) (first next : Attempt) (more : List Attempt) (arrivals : List Arrival)
      (method : String) (params : Members) (c : Client)
      → length c.buf + size arrivals < fuel
      → request p fuel first next more arrivals method params c ≢ none
  unfolding request
  request_ends fuel first next more arrivals method params c h =
      then_await_ends (bind_with (connect first next more c) (λ _. post p method params)) (
        rw
          (posted (connect first next more c)
            (ap (λ d. d.buf) (connect-Connects first next more c).kept))
          h)
    where
      posted :
          (r : Result (Unit {0}) × Client)
          → r.1.buf ≡ c.buf
          → (bind_with r (λ _. post p method params)).1.buf ≡ c.buf
      posted (ok u, d) e = post-buf method params d ∙ e
      posted (raised x, d) e = e

      then_await_ends :
          (r : Result (Unit {0}) × Client)
          → length r.1.buf + size arrivals < fuel
          → then_await p fuel arrivals r ≢ none
      then_await_ends (ok u, d) short = await_ends fuel arrivals d short
      then_await_ends (raised x, d) short = λ bad. cc
