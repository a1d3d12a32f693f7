-- ===== src/Cbrs/System/OutOfStep.antt =====
-- A response of the stub that does not fit into a frame of the proxy's.
use g_5g_ims_simulators.Prelude.{
  ℕ, ◌+◌, ◌≤◌, ◌≡◌, refl, ap, false, none, some, List, [], ◌∷◌, ◌++◌, length, length-append, arith,
  All, Option-cases, inl, inr,
}
use g_5g_ims_simulators.Prelude.Texts.{codes, same_text}
use g_5g_ims_simulators.Cbrs.Doubles.{Doubles}
use g_5g_ims_simulators.Cbrs.Wire.{
  str, entry, obj, get, deliver, make_frame, read_frame, after, strip, token, to_quote,
}
use g_5g_ims_simulators.Cbrs.Wire.Fields.{IsPlain}
use g_5g_ims_simulators.Cbrs.Wire.Objects.{flat, text, get-obj}
use g_5g_ims_simulators.Cbrs.Wire.Frames.{read_frame-refused, deliver_short}
use g_5g_ims_simulators.Cbrs.Sas.{Sas, handle_request, success_response, deregistration_response}
use g_5g_ims_simulators.Cbrs.Sas.Stream.{Stub, in_step, reacted, read_from, serve}

-- A DeregistrationRequest with that identifier.
abbrev pub deregister : List ℕ → List ℕ
deregister id =
    obj ((codes "type", str (codes "DeregistrationRequest")) ∷ (codes "cbsdId", str id) ∷ [])

-- The stub is there, and what it wrote last is in the stream, without the length.
abbrev pub body_left : Sas → List ℕ → Stub
body_left s id = record { sas = some s; unread = deregistration_response id; stuck = false }

module _ (d : Doubles) (s : Sas) (id : List ℕ) (plain : All IsPlain id) (long : 65470 ≤ length id)
    (legal : length id ≤ 65490) where
  length-deregister : length (deregister id) ≡ length id + 44
  length-deregister =
      omega (arith, length-append id (b'"' ∷ []), length-append (id ++ (b'"' ∷ [])) (b'}' ∷ []))

  length-response : length (deregistration_response id) ≡ length id + 75
  length-response =
      let rest = b',' ∷ entry (codes "response", success_response) in
      omega (
        arith,
        length-append id (b'"' ∷ []),
        length-append (id ++ (b'"' ∷ [])) rest,
        length-append ((id ++ (b'"' ∷ [])) ++ rest) (b'}' ∷ []),
      )

  type_of_it : get (deregister id) (codes "type") ≡ codes "DeregistrationRequest"
  type_of_it = unfold get after strip token to_quote in refl

  id_of_it : get (deregister id) (codes "cbsdId") ≡ id
  unfolding same_text
  id_of_it =
      get-obj (codes "cbsdId")
        ((codes "type", flat (text (codes "DeregistrationRequest")))
          ∷ (codes "cbsdId", flat (text id))
          ∷ [])
        (ground arith) (omega arith, ((omega arith, plain), tt)) (tt, (tt, tt))

  answers_it : handle_request d s (deregister id) ≡ some (s, deregistration_response id)
  answers_it = unfold handle_request same_text in rw (type_of_it, id_of_it)

  not_read :
      read_from
        (record (in_step (some s)) { unread = [] ++ make_frame (deregistration_response id) })
        (read_frame ([] ++ make_frame (deregistration_response id)))
      ≡ (body_left s id, none)
  not_read =
      ap
        (read_from (record (in_step (some s)) { unread = make_frame (deregistration_response id) }))
        (read_frame-refused (deregistration_response id) (omega (arith, length-response))
          (ground (arith, length-response)))

  left_behind : serve d (in_step (some s)) (deregister id) ≡ (body_left s id, none)
  unfolding serve reacted
  left_behind =
      rw
        (
          deliver_short (deregister id) (omega arith) (omega (arith, length-deregister)),
          answers_it,
          reacted,
        )
        not_read

  next_lost : (req : List ℕ) → (serve d (body_left s id) req).1 ≡ none
  unfolding serve reacted
  next_lost req = elim (Option-cases (deliver req)) [
    | inl e ↦ rw (e, reacted) (unfold read_frame in refl)
    | inr (r, e) ↦ elim (Option-cases (handle_request d s r)) [
      | inl n ↦ rw (e, n, reacted) (unfold read_frame in refl)
      | inr ((s', resp), n) ↦ rw (e, n, reacted) (unfold read_frame in refl)
    ]
  ]

  -- A DeregistrationRequest that is as long as the proxy lets a request be: the stub's response is
  -- longer than what the proxy reads, all of it but its length stays in the stream, and the proxy
  -- has no response. Then it has none to the next request either, whichever CBSD sends it and
  -- whatever the stub answers: it takes the first bytes of the old response for a length.
  pub out_of_step :
      (serve d (in_step (some s)) (deregister id) ≡ (body_left s id, none))
      × ((req : List ℕ) → (serve d (body_left s id) req).1 ≡ none)
  out_of_step = (left_behind, next_lost)
