-- ===== src/Wayland/Connection/Sent.antt =====
-- What the other end of the socket reads of a request that was sent.
use py_wayland_auto.Base.{
  ℕ, ◌+◌, ◌*◌, ◌<◌, ◌≡◌, ◌≢◌, ◌⊎◌, refl, take, sym, ap, ◌∙◌, inl, inr, List, [], ◌∷◌, ◌++◌, some,
  str_eq, String, Bytes, arith, length, lt→ltb, append-nil, All, Bool-cases,
}
use native.Mathlib.Nat.{zero-add}
use py_wayland_auto.Base.Int.{ℤ, pos}
use py_wayland_auto.Outcome.{Result, ok, raised, struct_error, Result-cases}
use py_wayland_auto.Stateful.{bind_with}
use py_wayland_auto.Wire.{ByteOrder, put, pack_unsigned}
use py_wayland_auto.Wire.Laws.{pack_unsigned-ok}
use py_wayland_auto.Eis.Messages.{Arg}
use py_wayland_auto.Wayland.Messages.{
  Kind, pack_args, pack_message, shifted_or, unpack_args, descriptors,
}
use py_wayland_auto.Wayland.Messages.RoundTrip.{FitsAll, unpack-pack_args}
use py_wayland_auto.Wayland.Tables.{
  Entry, Tables, requests, table_of, entry_of, entry_in, find_request,
}
use py_wayland_auto.Wayland.Connection.{
  Connection, Setting, Taken, whole, broken, part, fit_int, send_taken, next_frame, request_or,
  send_bytes, send,
}
use py_wayland_auto.Wayland.Connection.Stream.{FitsHeader, frame_bytes, next_frame-Reads}

-- The opcodes of a table fit the half of a word.
abbrev AreSmall : List Entry → Type 0
AreSmall entries = All (λ e. e.1 < 65536) entries

abbrev AllSmall : Tables → Type 0
AllSmall tables = All (λ t. AreSmall t.1) tables

entry_of-lt :
    (name : String) (entries : List Entry) (opcode : ℕ) (sig : List Kind)
    → AreSmall entries
    → entry_of name entries ≡ some (opcode, sig)
    → opcode < 65536
entry_of-lt name [] opcode sig small h = cc
entry_of-lt name ((n, k, s) ∷ rest) opcode sig small h = elim (Bool-cases (str_eq n name)) [
  | inl same ↦ ground (arith, small.0)
  | inr other ↦ entry_of-lt name rest opcode sig small.1 (rw (other) at h)
]

entry_in-lt :
    (iface name : String) (tables : Tables) (opcode : ℕ) (sig : List Kind)
    → AllSmall tables
    → entry_in name (table_of iface tables) ≡ some (opcode, sig)
    → opcode < 65536
entry_in-lt iface name [] opcode sig small h = cc
entry_in-lt iface name ((i, entries) ∷ rest) opcode sig small h =
    elim (Bool-cases (str_eq i iface)) [
      | inl same ↦ entry_of-lt name entries opcode sig small.0 (rw (same) at h)
      | inr other ↦ entry_in-lt iface name rest opcode sig small.1 (rw (other) at h)
    ]

requests-AllSmall : AllSmall requests
requests-AllSmall = omega arith

find_request-lt :
    (iface name : String) (opcode : ℕ) (sig : List Kind)
    → find_request iface name ≡ some (opcode, sig)
    → opcode < 65536
unfolding find_request
find_request-lt iface name opcode sig h =
    entry_in-lt iface name requests opcode sig requests-AllSmall h

-- The layout of a packed message.
pack_message-frame_bytes :
    (o : ByteOrder) (obj opcode : ℕ) (sig : List Kind) (args : List Arg) {raw : Bytes}
    → opcode < 65536
    → pack_message o obj opcode sig args ≡ ok raw
    → (payload : Bytes) × (pack_args o sig args ≡ ok payload)
      × FitsHeader (record { obj = obj; opcode = opcode; payload = payload })
      × (raw ≡ frame_bytes o (record { obj = obj; opcode = opcode; payload = payload }))
unfolding pack_message frame_bytes
pack_message-frame_bytes o obj opcode sig args {raw} small packed =
    elim (Result-cases (pack_args o sig args)) [
      | inr (x, failed) ↦ absurd (ground arith)
      | inl (payload, e) ↦ elim (Result-cases (pack_unsigned o 4 (pos obj))) [
        | inr (x, failed) ↦ absurd (ground arith)
        | inl (first, p1) ↦
            elim (Result-cases (pack_unsigned o 4 (pos (shifted_or (8 + length payload) opcode)))) [
              | inr (x, failed) ↦ absurd (ground arith)
              | inl (word, p2) ↦
                  (let (n, same, bound, shape) = pack_unsigned-ok o 4 _ p1 in
                    let (n', same', bound', shape') = pack_unsigned-ok o 4 _ p2 in
                    let obj_eq : obj ≡ n = cc in
                    let word_eq : shifted_or (8 + length payload) opcode ≡ n' = cc in
                    let value : shifted_or (8 + length payload) opcode
                        ≡ (8 + length payload) * 65536 + opcode =
                      rw (lt→ltb opcode 65536 small) in
                    let whole : raw ≡ first ++ (word ++ payload) = ground arith in
                    (
                      payload,
                      e,
                      record {
                        obj_fits = omega arith;
                        size_fits = omega arith;
                        opcode_fits = small;
                      },
                      whole
                          ∙ ap (λ b. b ++ (word ++ payload)) (shape ∙ ap (put o 4) (sym obj_eq))
                          ∙ ap (λ b. put o 4 obj ++ (b ++ payload))
                              (shape' ∙ ap (put o 4) (sym word_eq ∙ value)),
                    ))
            ]
      ]
    ]

-- A request that went out: one message more is sent, with its descriptors, the other end cuts it off
-- its stream, and reads the arguments from its payload and the descriptors.
pub record IsSent {S : Type 0} (o : ByteOrder) (obj opcode : ℕ) (sig : List Kind) (args : List Arg)
    (c c' : Connection S) : Type 0 where
  pub raw : Bytes
  pub payload : Bytes
  pub logged : c' ≡ record c { sent = (raw, descriptors sig args) ∷ c.sent }
  pub framed :
      (more : Bytes)
      → next_frame o (raw ++ more)
        ≡ some (record { obj = obj; opcode = opcode; payload = payload }, more)
  pub read : unpack_args o sig payload 0 (descriptors sig args) ≡ (ok (args, length payload), [])

-- A request of which `sendmsg` let out only the first bytes, beside its descriptors.
pub record Torn {S : Type 0} (m : Setting S) (obj opcode : ℕ) (sig : List Kind) (args : List Arg)
    (c c' : Connection S) : Type 0 where
  pub raw : Bytes
  pub n : ℕ
  pub packed : pack_message m.order obj opcode sig args ≡ ok raw
  pub beside : descriptors sig args ≢ []
  pub taken : m.taken c.sent raw (descriptors sig args) ≡ part n
  pub logged : c' ≡ record c { sent = (take n raw, descriptors sig args) ∷ c.sent }

module _ {S : Type 0} (m : Setting S) where
  -- Bytes that are let out go whole, or in part beside descriptors.
  abbrev Out : Taken → Bytes → List ℤ → Connection S → Connection S → Type 0
  Out t raw fds c c' =
      (c' ≡ record c { sent = (raw, fds) ∷ c.sent })
      ⊎ ((n : ℕ) × (t ≡ part n)
          × (fds ≢ [])
          × (c' ≡ record c { sent = (take n raw, fds) ∷ c.sent }))

  send_taken-ok :
      (t : Taken) (raw : Bytes) (fds : List ℤ) (c : Connection S)
      → (send_taken m t raw fds c).0 ≡ ok tt
      → Out t raw fds c (send_taken m t raw fds c).1
  send_taken-ok whole raw fds c h = inl refl
  send_taken-ok broken raw fds c h = cc
  send_taken-ok (part n) raw [] c h = cc
  send_taken-ok (part n) raw (fd ∷ fds) c h = inr (n, refl, (λ e. cc), refl)

  send_bytes-ok :
      (raw : Bytes) (fds : List ℤ) (c : Connection S)
      → (send_bytes m raw fds c).0 ≡ ok tt
      → Out (m.taken c.sent raw fds) raw fds c (send_bytes m raw fds c).1
  unfolding send_bytes
  send_bytes-ok raw fds c h = elim (Bool-cases (fit_int fds)) [
    | inl fit ↦
        rw (fit, send_bytes)
          (send_taken-ok (m.taken c.sent raw fds) raw fds c (rw (fit, send_bytes) at h))
    | inr unfit ↦
        (let bad : ◌≡◌ {A = Result (Unit {0})} (raised struct_error) (ok tt) =
            rw (unfit, send_bytes) at h in
          absurd (cc))
  ]

  send-found :
      (obj : ℕ) (iface name : String) (args : List Arg) (c : Connection S) (opcode : ℕ)
      (sig : List Kind) (r : Result Bytes)
      → find_request iface name ≡ some (opcode, sig)
      → pack_message m.order obj opcode sig args ≡ r
      → send m obj iface name args c
        ≡ bind_with (r, c) (λ raw. send_bytes m raw (descriptors sig args))
  unfolding send
  send-found obj iface name args c opcode sig r found packed =
      ap
        (λ q.
          bind_with (request_or m q, c)
            (λ e s.
              bind_with (pack_message m.order obj e.0 e.1 args, s)
                (λ raw. send_bytes m raw (descriptors e.1 args))))
        found
      ∙ ap (λ p. bind_with (p, c) (λ raw. send_bytes m raw (descriptors sig args))) packed

  -- A request that `send` lets out, of texts that end in no NUL and descriptors from 0 on. Either one
  -- message more is sent, beside its descriptors, and nothing else of the connection changes; the
  -- other end takes that message off its stream whatever follows, with the object and the opcode of
  -- the request, and reads back the arguments and all descriptors. Or the request has descriptors, the
  -- kernel has taken only so many of its bytes, and these are what went out.
  pub send-IsSent :
      (obj : ℕ) (iface name : String) (args : List Arg) (c : Connection S) (opcode : ℕ)
      (sig : List Kind)
      → find_request iface name ≡ some (opcode, sig)
      → FitsAll sig args
      → (send m obj iface name args c).0 ≡ ok tt
      → IsSent m.order obj opcode sig args c (send m obj iface name args c).1
        ⊎ Torn m obj opcode sig args c (send m obj iface name args c).1
  send-IsSent obj iface name args c opcode sig found fits good =
      elim (Result-cases (pack_message m.order obj opcode sig args)) [
        | inr (x, failed) ↦
            (let bad : raised x ≡ ok tt =
                ap (λ r. r.0)
                  (sym (send-found obj iface name args c opcode sig (raised x) found failed))
                ∙ good in
              absurd (cc))
        | inl (raw, packed) ↦
            (let run = send-found obj iface name args c opcode sig (ok raw) found packed in
              let (payload, packed', fits', layout) =
                pack_message-frame_bytes m.order obj opcode sig args
                  (find_request-lt iface name opcode sig found) packed in
              let after = ap (λ r. r.1) run in
              elim (send_bytes-ok raw (descriptors sig args) c (ap (λ r. r.0) (sym run) ∙ good)) [
                | inr (n, taken, beside, logged) ↦ inr (record {
                  raw = raw;
                  n = n;
                  packed = packed;
                  beside = beside;
                  taken = taken;
                  logged = after ∙ logged;
                })
                | inl logged ↦ inl (record {
                  raw = raw;
                  payload = payload;
                  logged = after ∙ logged;
                  framed = λ more.
                      ap (λ b. next_frame m.order (b ++ more)) layout
                      ∙ (next_frame-Reads m.order).first
                          (record { obj = obj; opcode = opcode; payload = payload }) more fits';
                  read =
                      ap (λ fds. unpack_args m.order sig payload 0 fds)
                        (sym (append-nil (descriptors sig args)))
                      ∙ unpack-pack_args m.order sig args payload [] 0 [] fits packed'
                          (sym (append-nil payload))
                      ∙ ap (λ n. (ok (args, n), [])) (zero-add (length payload));
                })
              ])
      ]
