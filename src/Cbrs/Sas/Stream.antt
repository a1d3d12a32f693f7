-- ===== src/Cbrs/Sas/Stream.antt =====
-- sas/sas_stub.cpp and the proxy's connection to it: forwardToSas of proxy/domain_proxy.cpp sends a
-- request and reads one frame, from whatever is in the stream.
use g_5g_ims_simulators.Prelude.{
  ℕ, ◌+◌, ◌%◌, ◌^◌, ◌≤◌, ◌<◌, ◌≡◌, refl, ap, ◌∙◌, sym, subst, Bool, true, false, Option, none, some,
  List, [], ◌++◌, length, append-nil, Option-cases, inl, inr, if◌then◌else◌, arith,
}
use g_5g_ims_simulators.Prelude.Texts.{codes, same_text}
use g_5g_ims_simulators.Cbrs.Doubles.{Doubles}
use g_5g_ims_simulators.Cbrs.Wire.{
  get, Frame, whole, refused, short, make_frame, read_frame, deliver,
}
use g_5g_ims_simulators.Cbrs.Wire.Frames.{read_frame-make_frame, deliver_short, deliver_cases}
use g_5g_ims_simulators.Cbrs.Wire.Lengths.{length-get}
use g_5g_ims_simulators.Cbrs.Sas.{
  Sas, handle_request, make_cbsd_id, make_grant_id, registration_response,
}
use g_5g_ims_simulators.Cbrs.Sas.Answers.{
  answer_to, Answered, Made, error, registration, granting, heartbeat, relinquishment,
  deregistration, handle_request-Answered, length-grant_response,
}
use g_5g_ims_simulators.Cbrs.Sas.Responses.{
  length-registration_response, length-heartbeat_response, length-relinquishment_response,
  length-deregistration_response, length-int_string,
}

-- The stub and the connection to it: the counters, none once the stub answers no more; the bytes
-- that the proxy has not read yet; and whether a thread of the proxy waits for bytes that never
-- come, with the mutex that every other thread then waits for.
pub record Stub : Type 0 where
  pub sas : Option Sas
  pub unread : List ℕ
  pub stuck : Bool

-- Nothing is in the stream between two requests.
abbrev pub in_step : Option Sas → Stub
in_step o = record { sas = o; unread = []; stuck = false }

-- The stub reads the request and writes its response. An exception ends the stub, and so does a
-- request that it cannot read.
unfoldable pub reacted : Doubles → Stub → List ℕ → Stub
unfolding deliver
reacted d c req = elim c.sas [
  | none ↦ c
  | some s ↦ elim (deliver req) [
    | none ↦ record c { sas = none }
    | some received ↦ elim (handle_request d s received) [
      | none ↦ record c { sas = none }
      | some (s', resp) ↦ record c { sas = some s'; unread = c.unread ++ make_frame resp }
    ]
  ]
]

abbrev pub is_alive : Option Sas → Bool
is_alive none = false
is_alive (some s) = true

-- `recvMsg(g_sas_sock, resp)`. A refused length is all that is read of its frame. Where the bytes
-- run out the proxy waits for more, unless the stub has ended.
abbrev pub read_from : Stub → Frame → Stub × Option (List ℕ)
read_from c (whole payload rest) = (record c { unread = rest }, some payload)
read_from c (refused rest) = (record c { unread = rest }, none)
read_from c short = (record c { unread = []; stuck = is_alive c.sas }, none)

-- `sendMsg(g_sas_sock, req); recvMsg(g_sas_sock, resp);`
unfoldable pub serve : Doubles → Stub → List ℕ → Stub × Option (List ℕ)
unfolding reacted read_frame
serve d c req =
    let c1 = reacted d c req in if c.stuck then (c, none) else read_from c1 (read_frame c1.unread)

-- The stub's response to that request fits into a frame, if there is one.
abbrev pub Fits : Doubles → Sas → List ℕ → Type 0
Fits d s req =
    (s' : Sas) (resp : List ℕ)
    → handle_request d s req ≡ some (s', resp)
    → (0 < length resp) × (length resp ≤ 65536)

module _ (d : Doubles) where
  -- One frame in the stream is read and nothing is left of it.
  one_frame :
      (c : Stub) (resp : List ℕ)
      → 0 < length resp
      → length resp ≤ 65536
      → read_from (record c { unread = [] ++ make_frame resp }) (read_frame ([] ++ make_frame resp))
        ≡ (record c { unread = [] }, some resp)
  one_frame c resp pos fits =
      ap (read_from (record c { unread = make_frame resp })) (
        ap read_frame (sym (append-nil (make_frame resp))) ∙ read_frame-make_frame resp [] pos fits)

  -- While the responses fit, the stream stays in step.
  pub serve-in_step :
      (o : Option Sas) (req : List ℕ)
      → length req ≤ 65536
      → ((s : Sas) → o ≡ some s → Fits d s req)
      → serve d (in_step o) req ≡ (in_step (answer_to d o req).0, (answer_to d o req).1)
  unfolding serve reacted answer_to
  serve-in_step none req h fits = unfold read_frame in refl
  serve-in_step (some s) req h fits = elim (deliver_cases req (omega arith)) [
    | inr lost ↦ rw (lost, reacted, answer_to) (unfold read_frame in refl)
    | inl there ↦ elim (Option-cases (handle_request d s req)) [
      | inl n ↦ rw (there, n, reacted, answer_to) (unfold read_frame in refl)
      | inr ((s', resp), e) ↦
          let (pos, short_enough) = fits s refl s' resp e in
          rw (there, e, reacted, answer_to)
            (one_frame (in_step (some s')) resp pos short_enough
              ∙ rw (deliver_short resp pos short_enough))
    ]
  ]

  Made-length :
      (s : Sas) (req : List ℕ) (s' : Sas) (resp : List ℕ)
      → Made d s req s' resp
      → length req ≤ 32000
      → (0 < length resp) × (length resp ≤ 65536)
  Made-length s req s' resp (error u e r) h = rw r (omega arith)
  Made-length s req s' resp (registration t e r) h = rw r (
      omega
        (arith, length-registration_response (make_cbsd_id s), length-int_string s.cbsd_counter))
  Made-length s req s' resp (granting freq bw eirp t e r) h = rw r (
      omega (
        arith,
        length-grant_response d (get req (codes "cbsdId")) (make_grant_id s) freq bw eirp,
        length-get req (codes "cbsdId"),
        length-int_string s.grant_counter,
      ))
  Made-length s req s' resp (heartbeat t e r) h = rw r (
      omega (
        arith,
        length-heartbeat_response (get req (codes "cbsdId")) (get req (codes "grantId")),
        length-get req (codes "cbsdId"),
        length-get req (codes "grantId"),
      ))
  Made-length s req s' resp (relinquishment t e r) h = rw r (
      omega (
        arith,
        length-relinquishment_response (get req (codes "cbsdId")) (get req (codes "grantId")),
        length-get req (codes "cbsdId"),
        length-get req (codes "grantId"),
      ))
  Made-length s req s' resp (deregistration t e r) h = rw r (
      omega (
        arith,
        length-deregistration_response (get req (codes "cbsdId")),
        length-get req (codes "cbsdId"),
      ))

  -- A response repeats at most two fields of its request.
  pub small-Fits : (s : Sas) (req : List ℕ) → length req ≤ 32000 → Fits d s req
  small-Fits s req h s' resp e =
      Made-length s req s' resp
        (subst (Answered d s req) e (handle_request-Answered d s req (omega arith))).1 h

  -- The response to a registration repeats none.
  pub registration-Fits :
      (s : Sas) (req : List ℕ) → get req (codes "type") ≡ codes "RegistrationRequest" → Fits d s req
  registration-Fits s req t s' resp e = rw sent (
      omega
        (arith, length-registration_response (make_cbsd_id s), length-int_string s.cbsd_counter))
    where
      second :
          {o : Option (Sas × List ℕ)} {s1 s2 : Sas} {x y : List ℕ}
          → o ≡ some (s1, x)
          → o ≡ some (s2, y)
          → y ≡ x
      second p q = cc

      made :
          handle_request d s req
          ≡ some (
            record s { cbsd_counter = (s.cbsd_counter + 1) % 2 ^ 32 },
            registration_response (make_cbsd_id s),
          )
      made = unfold handle_request same_text in rw t

      sent : resp ≡ registration_response (make_cbsd_id s)
      sent = second made e
