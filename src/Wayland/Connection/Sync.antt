-- ===== src/Wayland/Connection/Sync.antt =====
-- `sync` against a server that answers.
use py_wayland_auto.Base.{
  ℕ, ◌<◌, ◌≡◌, sym, ap, subst, ◌∙◌, inl, inr, false, List, [], ◌∷◌, ◌++◌, none, some, length, Bytes,
  arith, append-nil, append_assoc, length-append, All, concat, Option-cases,
}
use py_wayland_auto.Outcome.{ok, raised, Result-cases}
use py_wayland_auto.Dict.{get_key}
use py_wayland_auto.Framing
use py_wayland_auto.Framing.{Reads, dispatch_all, stream}
use py_wayland_auto.Framing.Drain.{drain-Progress, dispatch_all-append, dispatch_all-append_raised}
use py_wayland_auto.Framing.Chunks.{All-append_right, no_message_left}
use py_wayland_auto.Wayland.Connection.{
  Connection, Frame, Setting, Arrival, nothing_yet, received, Round, next_frame, dispatch, pump,
  wait_done, ask_sync, sync, Synced,
}
use py_wayland_auto.Wayland.Connection.Stream.{FitsHeader, frame_bytes, next_frame-Reads}

-- A chunk without descriptors; without bytes, nothing has arrived yet.
abbrev pub arrival_of : Bytes → Arrival
arrival_of [] = nothing_yet
arrival_of (b ∷ bs) = received (b ∷ bs) []

-- What arrives in time and without descriptors.
abbrev pub rounds_of : List Bytes → List Round
rounds_of [] = []
rounds_of (chunk ∷ chunks) =
    record { arrival = arrival_of chunk; expired = false } ∷ rounds_of chunks

-- A `sync` that returned: the callback is gone.
pub record Returned {S : Type 0} (id : ℕ) (synced : Synced S) : Type 0 where
  pub after : Connection S
  pub left : Bytes
  pub rounds_left : List Round
  pub returned : synced ≡ some (ok tt, after, left, rounds_left)
  pub gone : get_key id after.objects ≡ none

module _ {S : Type 0} (m : Setting S) where
  wait_done-gone :
      (fuel id : ℕ) (rounds : List Round) (c : Connection S) (buf : Bytes)
      → get_key id c.objects ≡ none
      → Returned id (wait_done m fuel id rounds c buf)
  unfolding wait_done
  wait_done-gone fuel id [] c buf h = record {
    after = c;
    left = buf;
    rounds_left = [];
    returned = rw (h, wait_done);
    gone = h;
  }
  wait_done-gone fuel id (round ∷ rounds) c buf h = record {
    after = c;
    left = buf;
    rounds_left = round ∷ rounds;
    returned = rw (h, wait_done);
    gone = h;
  }

  -- A round in time that is received without an exception.
  wait_done-round :
      (fuel id : ℕ) (b : ℕ) (bs : Bytes) (rounds : List Round) (c c' : Connection S)
      (buf left : Bytes) (iface : _)
      → get_key id c.objects ≡ some iface
      → Framing.drain (next_frame m.order) (dispatch m) fuel c (buf ++ b ∷ bs)
        ≡ some (ok tt, c', left)
      → wait_done m fuel id (rounds_of ((b ∷ bs) ∷ []) ++ rounds) c buf
        ≡ wait_done m fuel id rounds c' left
  unfolding wait_done pump
  wait_done-round fuel id b bs rounds c c' buf left iface here drained =
      let same : pump m fuel (received (b ∷ bs) []) c buf ≡ some (ok tt, c', left) =
        ap
          (λ fds.
            Framing.drain (next_frame m.order) (dispatch m) fuel (record c { pending_fds = fds })
              (buf ++ b ∷ bs))
          (append-nil c.pending_fds)
        ∙ drained in
      rw (here, same, wait_done)

  -- A round in time in which nothing has arrived.
  wait_done-idle :
      (fuel id : ℕ) (rounds : List Round) (c : Connection S) (buf : Bytes) (iface : _)
      → get_key id c.objects ≡ some iface
      → wait_done m fuel id (rounds_of ([] ∷ []) ++ rounds) c buf ≡ wait_done m fuel id rounds c buf
  unfolding wait_done pump
  wait_done-idle fuel id rounds c buf iface here = rw (here, wait_done)

  wait_returns :
      (chunks : List Bytes) (frames : List Frame) (fuel id : ℕ) (c : Connection S) (buf : Bytes)
      → length frames < fuel
      → All FitsHeader frames
      → buf ++ concat chunks ≡ stream (frame_bytes m.order) frames
      → next_frame m.order buf ≡ none
      → (dispatch_all (dispatch m) c frames).0 ≡ ok tt
      → get_key id (dispatch_all (dispatch m) c frames).1.objects ≡ none
      → Returned id (wait_done m fuel id (rounds_of chunks) c buf)
  unfolding dispatch_all
  wait_returns [] frames fuel id c buf short fits e h good gone =
      let whole : buf ≡ stream (frame_bytes m.order) frames = sym (append-nil buf) ∙ e in
      let none_left : frames ≡ [] =
        no_message_left (next_frame m.order) (frame_bytes m.order) FitsHeader
          (next_frame-Reads m.order) (dispatch m) buf frames fits whole h in
      wait_done-gone fuel id [] c buf
        (subst (λ fs. get_key id (dispatch_all (dispatch m) c fs).1.objects ≡ none) none_left gone)
  wait_returns ([] ∷ chunks) frames fuel id c buf short fits e h good gone =
      elim (Option-cases (get_key id c.objects)) [
        | inl none_yet ↦ wait_done-gone fuel id (rounds_of ([] ∷ chunks)) c buf none_yet
        | inr (iface, here) ↦
            (let later = wait_returns chunks frames fuel id c buf short fits e h good gone in
              record {
                after = later.after;
                left = later.left;
                rounds_left = later.rounds_left;
                returned =
                    wait_done-idle fuel id (rounds_of chunks) c buf iface here ∙ later.returned;
                gone = later.gone;
              })
      ]
  wait_returns ((b ∷ bs) ∷ chunks) frames fuel id c buf short fits e h good gone =
      let chunk : Bytes = b ∷ bs in
      elim (Option-cases (get_key id c.objects)) [
        | inl none_yet ↦ wait_done-gone fuel id (rounds_of (chunk ∷ chunks)) c buf none_yet
        | inr (iface, here) ↦
            (let p =
                drain-Progress (next_frame m.order) (frame_bytes m.order) FitsHeader
                  (next_frame-Reads m.order) (dispatch m) frames fuel c (buf ++ chunk)
                  (concat chunks) short fits (append_assoc buf chunk (concat chunks) ∙ e) in
              elim (Result-cases (dispatch_all (dispatch m) c p.handled).0) [
                | inr (x, k) ↦
                    (let all : dispatch_all (dispatch m) c frames
                          ≡ dispatch_all (dispatch m) c p.handled =
                        ap (dispatch_all (dispatch m) c) p.split
                        ∙ dispatch_all-append_raised (dispatch m) c p.handled p.coming k in
                      let bad : raised x ≡ ok tt = sym k ∙ ap (λ r. r.0) (sym all) ∙ good in
                      absurd (cc))
                | inl (_, k) ↦
                    (let c1 = (dispatch_all (dispatch m) c p.handled).1 in
                      let all : dispatch_all (dispatch m) c frames
                          ≡ dispatch_all (dispatch m) c1 p.coming =
                        ap (dispatch_all (dispatch m) c) p.split
                        ∙ dispatch_all-append (dispatch m) c p.handled p.coming k in
                      let later =
                        wait_returns chunks p.coming fuel id c1 p.left
                          (omega (arith, ap length p.split, length-append p.handled p.coming))
                          (All-append_right FitsHeader p.handled p.coming
                            (subst (All FitsHeader) p.split fits))
                          p.remains (p.waits k) (ap (λ r. r.0) (sym all) ∙ good)
                          (ap (λ r. get_key id r.1.objects) (sym all) ∙ gone) in
                      record {
                        after = later.after;
                        left = later.left;
                        rounds_left = later.rounds_left;
                        returned =
                            wait_done-round fuel id b bs (rounds_of chunks) c c1 buf p.left iface
                              here (p.drained ∙ ap (λ r. some (r, c1, p.left)) k)
                            ∙ later.returned;
                        gone = later.gone;
                      })
              ])
      ]

  -- A `sync` that went out returns, and its callback is gone, if the server answers in time: the
  -- messages that arrive, however they are cut into chunks and however often nothing has arrived in
  -- between, fit their headers, come without descriptors, are handled without an exception, and end
  -- the callback; and the buffer holds no whole message before.
  pub sync_returns :
      (chunks : List Bytes) (frames : List Frame) (fuel id : ℕ) (c c1 : Connection S) (buf : Bytes)
      → ask_sync m c ≡ (ok id, c1)
      → length frames < fuel
      → All FitsHeader frames
      → buf ++ concat chunks ≡ stream (frame_bytes m.order) frames
      → next_frame m.order buf ≡ none
      → (dispatch_all (dispatch m) c1 frames).0 ≡ ok tt
      → get_key id (dispatch_all (dispatch m) c1 frames).1.objects ≡ none
      → Returned id (sync m fuel (rounds_of chunks) c buf)
  unfolding sync
  sync_returns chunks frames fuel id c c1 buf asked short fits e h good gone =
      rw (asked, sync) (wait_returns chunks frames fuel id c1 buf short fits e h good gone)
