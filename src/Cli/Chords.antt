-- ===== src/Cli/Chords.antt =====
-- pywaylandauto/cli.py: which requests the daemon grants during `cmd_key`.
use py_wayland_auto.Base.{
  ℕ, zero, suc, ◌≡◌, refl, sym, ap, ◌∙◌, inl, inr, List, [], ◌∷◌, ◌++◌, append-nil, append_assoc,
  Option, none, some, String, Text, str_eq, map, Bool-cases,
}
use py_wayland_auto.Outcome.{Exn, Result, ok, raised, system_exit, Result-cases}
use py_wayland_auto.Stateful.{Stateful, pure, raise, ◌>>=◌, ◌>>◌, gets, bind_with}
use py_wayland_auto.Protocol.{Json}
use py_wayland_auto.Cli.{
  Params, replied, polled, Calls, by_code, Link, refusal_code, split_chord, key_params, reversed,
  requested, await_dialog, after_refusal, call_with_dialog_wait, call_key, call_keys, cmd_key,
}

abbrev pub Request : Type 0
Request = String × Params

abbrev grant : Request → Result Json → List Request → List Request
grant request (ok _) requests = request ∷ requests
grant request (raised _) requests = requests

-- The requests that were answered with a result, the newest first.
unfoldable pub granted_requests : Calls → List Request
granted_requests [] = []
granted_requests (replied method params r ∷ calls) =
    grant (method, params) r (granted_requests calls)
granted_requests (polled ∷ calls) = granted_requests calls

unfoldable pub onto : List Request → List Request → List Request
onto [] requests = requests
onto (x ∷ xs) requests = onto xs (x ∷ requests)

onto-append : (xs ys zs : List Request) → onto (xs ++ ys) zs ≡ onto ys (onto xs zs)
unfolding onto
onto-append [] ys zs = refl
onto-append (x ∷ xs) ys zs = onto-append xs ys (x ∷ zs)

-- Where a command returns, no request is left to make.
abbrev pub Leaves : {A : Type 0} → Result A → List Request → Type 0
Leaves (ok a) rest = rest ≡ []
Leaves (raised e) rest = Unit

-- However the client answers, the requests that were granted are the first of these, in order: all of
-- them where it returns.
abbrev pub Grants : {A : Type 0} → Stateful Calls A → List Request → Type 0
Grants m requests =
    (calls : Calls)
    → (done rest : List Request) × (requests ≡ done ++ rest)
      × (granted_requests (m calls).1 ≡ onto done (granted_requests calls))
      × Leaves (m calls).0 rest

return-Grants : {A : Type 0} (a : A) → Grants (pure a) []
unfolding onto
return-Grants a calls = ([], [], refl, refl, refl)

raise-Grants : (A : Type 0) (e : Exn) (requests : List Request) → Grants (raise {A = A} e) requests
unfolding onto
raise-Grants A e requests calls = ([], requests, refl, refl, tt)

-- What is granted by one command and then by another.
bind-Grants :
    {A B : Type 0} (m : Stateful Calls A) (k : A → Stateful Calls B) (xs ys : List Request)
    → Grants m xs
    → ((a : A) → Grants (k a) ys)
    → Grants (m >>= k) (xs ++ ys)
bind-Grants {A} m k xs ys first second calls = go (m calls) (first calls)
  where
    go :
        (r : Result A × Calls)
        → (done rest : List Request) × (xs ≡ done ++ rest)
          × (granted_requests r.1 ≡ onto done (granted_requests calls))
          × Leaves r.0 rest
        → (done rest : List Request) × (xs ++ ys ≡ done ++ rest)
          × (granted_requests (bind_with r k).1 ≡ onto done (granted_requests calls))
          × Leaves (bind_with r k).0 rest
    go (raised e, later) (done, rest, parts, same, left) =
        (done, rest ++ ys, ap (λ zs. zs ++ ys) parts ∙ append_assoc done rest ys, same, tt)
    go (ok a, later) (done, rest, parts, same, left) =
        let (done', rest', parts', same', left') = second a later in
        let all : xs ≡ done = parts ∙ (ap (λ zs. done ++ zs) left ∙ append-nil done) in
        (
          done ++ done',
          rest',
          ap (λ zs. zs ++ ys) all
              ∙ (ap (λ zs. done ++ zs) parts' ∙ sym (append_assoc done done' rest')),
          same' ∙ (ap (onto done') same ∙ sym (onto-append done done' (granted_requests calls))),
          left',
        )

module _ (link : Link) where
  await_dialog-Grants : (n : ℕ) → Grants (await_dialog link n) []
  unfolding await_dialog granted_requests onto
  await_dialog-Grants zero calls = ([], [], refl, refl, tt)
  await_dialog-Grants (suc n) calls = elim (Bool-cases (link.is_started calls)) [
    | inl granted_now ↦ rw (granted_now, await_dialog) ([], [], refl, refl, refl)
    | inr still_shown ↦ rw (still_shown, await_dialog) (await_dialog-Grants n (polled ∷ calls))
  ]

  requested-Grants :
      (method : String) (params : Params)
      → Grants (requested link method params) ((method, params) ∷ [])
  unfolding requested granted_requests onto
  requested-Grants method params calls = go (link.answer calls method params)
    where
      go :
          (r : Result Json)
          → (done rest : List Request) × ((method, params) ∷ [] ≡ done ++ rest)
            × (grant (method, params) r (granted_requests calls)
                ≡ onto done (granted_requests calls))
            × Leaves r rest
      go (ok a) = ((method, params) ∷ [], [], refl, refl, refl)
      go (raised e) = ([], (method, params) ∷ [], refl, refl, tt)

  after_refusal-Grants :
      (method : String) (params : Params) (e : Exn)
      → Grants (after_refusal link method params e) ((method, params) ∷ [])
  unfolding after_refusal
  after_refusal-Grants method params e = go (refusal_code e)
    where
      request : List Request
      request = (method, params) ∷ []

      retry :
          Grants ((gets link.polls >>= await_dialog link) >> requested link method params) request
      retry =
          bind-Grants (gets link.polls >>= await_dialog link) (λ _. requested link method params) []
            request (λ calls. await_dialog-Grants (link.polls calls) calls)
            (λ _. requested-Grants method params)

      go : (code : Option String) → Grants (by_code link method params e code) request
      go none = raise-Grants Json e request
      go (some code) = elim (Bool-cases (str_eq code "permission_pending")) [
        | inl pending ↦ rw pending retry
        | inr other ↦ rw other (elim (Bool-cases (str_eq code "permission_denied")) [
          | inl denied ↦ rw denied (raise-Grants Json system_exit request)
          | inr more ↦ rw more (raise-Grants Json e request)
        ])
      ]

  call-Grants :
      (method : String) (params : Params)
      → Grants (call_with_dialog_wait link method params) ((method, params) ∷ [])
  unfolding call_with_dialog_wait requested granted_requests onto
  call-Grants method params calls = elim (Result-cases (link.answer calls method params)) [
    | inl (a, good) ↦ rw (good, call_with_dialog_wait) ((method, params) ∷ [], [], refl, refl, refl)
    | inr (e, bad) ↦
        rw (bad, call_with_dialog_wait)
          (after_refusal-Grants method params e (replied method params (raised e) ∷ calls))
  ]

  -- The request for a key.
  abbrev pub key_request : String → Text → Request
  key_request state keysym = ("input.key", key_params keysym state)

  keys-Grants :
      (state : String) (ts : List Text)
      → Grants (call_keys link state ts) (map (key_request state) ts)
  unfolding call_keys
  keys-Grants state [] = return-Grants tt
  keys-Grants state (t ∷ ts) =
      bind-Grants (call_key link state t) (λ _. call_keys link state ts) (key_request state t ∷ [])
        (map (key_request state) ts) (call-Grants "input.key" (key_params t state))
        (λ _. keys-Grants state ts)

  -- The modifiers down, the key, and the modifiers up from the last to the first.
  abbrev pub chord : List Text → Text → List Request
  chord mods key =
      map (key_request "press") mods
      ++ (key_request "tap" key ∷ map (key_request "release") (reversed [] mods))

  -- However the client answers, with dialogs, refusals and exceptions: the requests of `cmd_key` that
  -- the daemon grants are the first ones of the modifiers pressed in order, the key, and the modifiers
  -- released from the last to the first; and all of them where the command returns.
  pub cmd_key-Grants :
      (spec : Text) (mods : List Text) (key : Text)
      → split_chord spec ≡ ok (mods, key)
      → Grants (cmd_key link spec) (chord mods key)
  unfolding cmd_key
  cmd_key-Grants spec mods key parts =
      rw (parts, cmd_key)
        (bind-Grants (call_keys link "press" mods) _ (map (key_request "press") mods) _
          (keys-Grants "press" mods)
          (λ _.
            bind-Grants (call_key link "tap" key) _ (key_request "tap" key ∷ []) _
              (call-Grants "input.key" (key_params key "tap")) (λ _. released)))
    where
      ups : List Request
      ups = map (key_request "release") (reversed [] mods)

      released : Grants {A = ℕ} (call_keys link "release" (reversed [] mods) >> pure 0) ups
      released calls =
          let (done, rest, all, same, left) =
            bind-Grants (call_keys link "release" (reversed [] mods)) (λ _. pure 0) ups []
              (keys-Grants "release" (reversed [] mods)) (λ _. return-Grants {A = ℕ} 0) calls in
          (done, rest, sym (append-nil ups) ∙ all, same, left)
