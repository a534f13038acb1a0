-- ===== src/Wayland/Connection/Ids.antt =====
-- The object ids of a connection.
use py_wayland_auto.Base.Int.{ℤ, pos}
use py_wayland_auto.Base.{
  codes, ℕ, ◌+◌, ◌<◌, ◌≡◌, refl, ap, ◌∙◌, inl, inr, false, List, [], ◌∷◌, none, some, str_eq, ◌&&◌,
  String, Bytes, arith, All, ◌==◌, Bool-cases, Option-cases,
}
use py_wayland_auto.Outcome.{Result, ok, raised}
use py_wayland_auto.Stateful.{bind_with, pure}
use py_wayland_auto.Dict.{put_key, get_key, del_key}
use py_wayland_auto.Eis.Messages.{Arg, num, text}
use py_wayland_auto.Wayland.Messages.{pack_message, descriptors}
use py_wayland_auto.Wayland.Connection.{
  W, Connection, Setting, Taken, whole, broken, part, fit_int, send_taken, alloc_id, send_bytes,
  send, bind, handle_event, ask_sync, request_or,
}
use py_wayland_auto.Wayland.Tables.{find_request}

-- Every known object has an id that was given out.
abbrev pub AllBelow : ℕ → List (ℕ × String) → Type 0
AllBelow n objects = All (λ e. e.0 < n) objects

abbrev pub Fresh : {S : Type 0} → Connection S → Type 0
Fresh c = AllBelow c.next_id c.objects

pub AllBelow-suc :
    (n : ℕ) (objects : List (ℕ × String)) → AllBelow n objects → AllBelow (n + 1) objects
AllBelow-suc n [] h = tt
AllBelow-suc n (e ∷ objects) h = (omega (arith, h.0), AllBelow-suc n objects h.1)

put_key-AllBelow :
    (n k : ℕ) (v : String) (objects : List (ℕ × String))
    → k < n
    → AllBelow n objects
    → AllBelow n (put_key k v objects)
unfolding put_key
put_key-AllBelow n k v [] h all = (h, tt)
put_key-AllBelow n k v ((j, w) ∷ objects) h all = elim (Bool-cases (j == k)) [
  | inl same ↦ rw same (h, all.1)
  | inr other ↦ rw other (all.0, put_key-AllBelow n k v objects h all.1)
]

pub del_key-AllBelow :
    (n k : ℕ) (objects : List (ℕ × String)) → AllBelow n objects → AllBelow n (del_key k objects)
unfolding del_key
del_key-AllBelow n k [] all = tt
del_key-AllBelow n k ((j, w) ∷ objects) all = elim (Bool-cases (j == k)) [
  | inl same ↦ rw same (del_key-AllBelow n k objects all.1)
  | inr other ↦ rw other (all.0, del_key-AllBelow n k objects all.1)
]

pub get_key-AllBelow :
    (n : ℕ) (objects : List (ℕ × String)) → AllBelow n objects → get_key n objects ≡ none
unfolding get_key
get_key-AllBelow n [] all = refl
get_key-AllBelow n ((j, w) ∷ objects) all =
    let differ : (j == n) ≡ false = ground (arith, all.0) in
    rw differ (get_key-AllBelow n objects all.1)

-- The objects and the next id are as they were.
abbrev pub Same : {S : Type 0} → Connection S → Connection S → Type 0
Same c c' = (c'.objects ≡ c.objects) × (c'.next_id ≡ c.next_id)

lift-Same :
    {S A B : Type 0} (r : Result A) (k : A → W S B) (c : Connection S)
    → ((a : A) → Same c (k a c).1)
    → Same c (bind_with (r, c) k).1
lift-Same (ok a) k c h = h a
lift-Same (raised e) k c h = (refl, refl)

then_pure :
    {S A B : Type 0} (r : Result A × Connection S) (b : B) → (bind_with r (λ _. pure b)).1 ≡ r.1
then_pure (ok a, c) b = refl
then_pure (raised e, c) b = refl

module _ {S : Type 0} (m : Setting S) where
  send_taken-Same :
      (t : Taken) (raw : Bytes) (fds : List ℤ) (c : Connection S)
      → Same c (send_taken m t raw fds c).1
  send_taken-Same whole raw fds c = (refl, refl)
  send_taken-Same broken raw fds c = (refl, refl)
  send_taken-Same (part n) raw [] c = (refl, refl)
  send_taken-Same (part n) raw (fd ∷ fds) c = (refl, refl)

  send_bytes-Same :
      (raw : Bytes) (fds : List ℤ) (c : Connection S) → Same c (send_bytes m raw fds c).1
  unfolding send_bytes
  send_bytes-Same raw fds c = elim (Bool-cases (fit_int fds)) [
    | inl fit ↦ rw (fit, send_bytes) (send_taken-Same (m.taken c.sent raw fds) raw fds c)
    | inr unfit ↦ rw (unfit, send_bytes) (refl, refl)
  ]

  pub send-Same :
      (obj : ℕ) (iface name : String) (args : List Arg) (c : Connection S)
      → Same c (send m obj iface name args c).1
  unfolding send
  send-Same obj iface name args c = lift-Same (request_or m (find_request iface name)) _ c (λ q.
      lift-Same (pack_message m.order obj q.0 q.1 args) _ c
        (λ raw. send_bytes-Same raw (descriptors q.1 args) c))

  -- A new object `iface` under the id that was next.
  abbrev pub Adds : String → Connection S → Connection S → Type 0
  Adds iface c c' = (c'.objects ≡ put_key c.next_id iface c.objects) × (c'.next_id ≡ c.next_id + 1)

  pub bind-Adds :
      (registry name : ℕ) (iface : String) (version : ℕ) (c : Connection S)
      → Adds iface c (bind m registry name iface version c).1
  unfolding bind alloc_id
  bind-Adds registry name iface version c =
      let args : List Arg =
        num (pos name) ∷ text (codes iface) ∷ num (pos version) ∷ num (pos c.next_id) ∷ [] in
      let c1 : Connection S = record c {
        objects = put_key c.next_id iface c.objects;
        next_id = c.next_id + 1;
      } in
      let sent = send m registry "wl_registry" "bind" args c1 in
      let end = then_pure sent c.next_id in
      let same = send-Same registry "wl_registry" "bind" args c1 in
      (ap (λ d. d.objects) end ∙ same.0, ap (λ d. d.next_id) end ∙ same.1)

  pub ask_sync-Adds : (c : Connection S) → Adds "wl_callback" c (ask_sync m c).1
  unfolding ask_sync alloc_id
  ask_sync-Adds c =
      let c1 : Connection S = record c {
        objects = put_key c.next_id "wl_callback" c.objects;
        next_id = c.next_id + 1;
      } in
      let sent = send m c.display_id "wl_display" "sync" (num (pos c.next_id) ∷ []) c1 in
      let end = then_pure sent c.next_id in
      let same = send-Same c.display_id "wl_display" "sync" (num (pos c.next_id) ∷ []) c1 in
      (ap (λ d. d.objects) end ∙ same.0, ap (λ d. d.next_id) end ∙ same.1)

  pub Adds-Fresh : (iface : String) (c c' : Connection S) → Adds iface c c' → Fresh c → Fresh c'
  Adds-Fresh iface c c' adds fresh =
      rw (adds.0, adds.1)
        (put_key-AllBelow (c.next_id + 1) c.next_id iface c.objects (omega arith)
          (AllBelow-suc c.next_id c.objects fresh))

  pub Same-Fresh : (c c' : Connection S) → Same c c' → Fresh c → Fresh c'
  Same-Fresh c c' same fresh = rw (same.0, same.1) fresh

  -- The owner's listeners keep the ids fresh, as those do that only bind, send and look up.
  abbrev pub KeepFresh : Type 0
  KeepFresh =
      (iface name : String) (handler : ℕ → List Arg → W S (Unit {0})) (id : ℕ) (args : List Arg)
      (c : Connection S)
      → m.listener iface name ≡ some handler
      → Fresh c
      → Fresh (handler id args c).1

  module _ (keep : KeepFresh) where
    pub handle_event-Fresh :
        (iface name : String) (id : ℕ) (args : List Arg) (c : Connection S)
        → Fresh c
        → Fresh (handle_event m iface name id args c).1
    unfolding handle_event
    handle_event-Fresh iface name id args c fresh =
        elim (Bool-cases (str_eq iface "wl_callback" && str_eq name "done")) [
          | inl own ↦ rw own (del_key-AllBelow c.next_id id c.objects fresh)
          | inr other ↦ elim (Option-cases (m.listener iface name)) [
            | inl e ↦ rw (other, e) fresh
            | inr (handler, e) ↦ rw (other, e) (keep iface name handler id args c e fresh)
          ]
        ]
